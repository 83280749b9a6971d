-- ===== src/Examples/Documents.antt =====
-- The document { "a" : [ 7 , -0.5e+2], "\u0061" : "\n"}, whose two keys are the same, and one without
-- the second key.
use guardy.Base.{
  zero, Bool, true, false, ◌≡◌, ◌≢◌, ◌≤◌, refl, List, [], ◌∷◌, ◌++◌, none, some, if◌then◌else◌,
  arith,
}
use guardy.Fault.Tree.{leaf}
use guardy.Ext.Bytes.{Bytes}
use guardy.Release.Utf8.{valid_from, lead}
use guardy.JsonDoc.Strings.{StringToken, key, unquote, string_from, backslash, quote}
use guardy.JsonDoc.Keys.{key-unquote}
use guardy.JsonDoc.Scanner.{validate_binding_document, answers, duplicate_key, max_depth, stuck}
use guardy.JsonDoc.Ended.{validate_binding_document-ends}
use guardy.JsonDoc.Printing.{
  Piece, plain, simple, unicode, Number, zero_digit, whole_digits, Json, numeral, string, object,
  array, sole, also, sole_element, also_element, print, Gaps, IsGap, IsJson, depth, unique,
}
use guardy.JsonDoc.Documents.{answer, validate_binding_document-print}
use guardy.JsonDoc.Reading
use guardy.JsonDoc.Reading.{
  Value, Tokens, Read, got, bad, ended, next, exhausted, decode, field, no_field, item, no_item,
}
use guardy.JsonDoc.Decoded.{decode-ends}
use guardy.JsonDoc.Read.{tokens_of, distinct, decode-tokens_of}

abbrev seven : Number
seven = record {
  negative = false;
  whole = whole_digits (record { first = b'7'; others = [] });
  fraction = none;
  exponent = none;
}

abbrev minus_fifty : Number
minus_fifty = record {
  negative = true;
  whole = zero_digit;
  fraction = some (record { first = b'5'; others = [] });
  exponent =
      some
        (record { letter = b'e'; sign = some b'+'; power = record { first = b'2'; others = [] } });
}

-- A space and a line feed.
abbrev blank : Bytes
blank = 32 ∷ 10 ∷ []

abbrev gaps : Gaps
gaps = record { before_key = blank; before_colon = blank; before_value = blank; behind = [] }

abbrev numbers : Json
numbers = array (
    also_element (record { before = blank; behind = blank }) (numeral seven)
      (sole_element (record { before = blank; behind = [] }) (numeral minus_fifty)))

abbrev letter_a : List Piece
letter_a = plain b'a' ∷ []

abbrev escaped_a : List Piece
escaped_a = unicode b'0' b'0' b'6' b'1' ∷ []

abbrev twice : Json
twice = object (also gaps letter_a numbers (sole gaps escaped_a (string (simple b'n' ∷ []))))

abbrev once : Json
once = object (sole gaps letter_a numbers)

-- A check of `encoding/json` that lets every text pass.
abbrev passes : Bytes → Bool
passes text = true

keys_agree : unique twice ≡ false
unfolding unique valid_from lead
keys_agree = refl

rejects_twice :
    validate_binding_document passes none (print twice []) ≡ answers (some duplicate_key)
unfolding validate_binding_document print valid_from lead
rejects_twice = refl

accepts_once : validate_binding_document passes none (print once []) ≡ answers none
unfolding validate_binding_document print
accepts_once = refl

blank-IsGap : IsGap blank
blank-IsGap = (refl, (refl, tt))

once-IsJson : IsJson once
unfolding IsJson
once-IsJson = (
  (blank-IsGap, blank-IsGap, blank-IsGap, tt),
  (refl, tt),
  (
    (blank-IsGap, blank-IsGap),
    ((refl, (refl, tt)), tt, tt),
    ((blank-IsGap, tt), (tt, (refl, tt), (refl, refl, (refl, tt)))),
  ),
)

once-shallow : depth once ≤ max_depth
unfolding depth
once-shallow = omega arith

validate_binding_document-print_example :
    validate_binding_document passes (some (leaf "no")) (blank ++ print once blank)
    ≡ answer passes (some (leaf "no")) once (blank ++ print once blank)
validate_binding_document-print_example =
    validate_binding_document-print passes (some (leaf "no")) blank once blank blank-IsGap
      once-IsJson blank-IsGap once-shallow

validate_binding_document-ends_example :
    validate_binding_document passes none (print twice []) ≢ stuck
validate_binding_document-ends_example = validate_binding_document-ends passes none (print twice [])

-- The string \u0061" before a colon.
abbrev string_text : Bytes
string_text = backslash ∷ b'u' ∷ b'0' ∷ b'0' ∷ b'6' ∷ b'1' ∷ quote ∷ b':' ∷ []

abbrev string_read : StringToken
string_read = record {
  body = backslash ∷ b'u' ∷ b'0' ∷ b'0' ∷ b'6' ∷ b'1' ∷ [];
  escaped = true;
  rest = b':' ∷ [];
}

string_reads : string_from zero string_text ≡ some string_read
unfolding string_from
string_reads = refl

stands_for_a : key string_read ≡ b'a' ∷ []
unfolding key
stands_for_a = refl

key-unquote_example : key string_read ≡ unquote string_read.body
key-unquote_example = key-unquote string_text string_read string_reads

abbrev pair : Value
pair = Reading.object (
    field (b'a' ∷ [])
      (Reading.array (
        item (Reading.single (Reading.truth true)) (item (Reading.single Reading.nothing) no_item)))
      no_field)

decode-tokens_of_example :
    decode (tokens_of pair ended) ≡ (if distinct pair then got pair ended else bad duplicate_key)
decode-tokens_of_example = decode-tokens_of pair

-- A document that breaks off behind a key.
abbrev cut_off : Tokens
cut_off =
    next (Reading.delimiter b'{') (next (Reading.scalar (Reading.literal_text (b'a' ∷ []))) ended)

decode-ends_example : decode cut_off ≢ exhausted
decode-ends_example = decode-ends cut_off
