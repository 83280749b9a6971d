-- ===== src/Ext/Pii.antt =====
-- ext/pii_masking.go: the places of personal data in a text. A place is found on the text itself; an
-- offset counts bytes.
pub mod Merged
pub mod Found
pub mod Enough
use guardy.Base.{
  ℕ, zero, suc, ◌+◌, ◌-◌, ◌==◌, ltb, leb, Bool, true, false, not, ◌&&◌, ◌||◌, List, [], ◌∷◌, ◌++◌,
  Option, none, some, if◌then◌else◌, length, get_or, take, drop, max, any,
}
use guardy.Ext.Bytes.{Bytes}
use guardy.Ext.Runes.{Categories, first_rune, last_rune, is_word_rune}
use guardy.Release.Utf8.{rune_size}
use guardy.Ext.Spans.{TextSpan}
use guardy.Ext.Patterns.{Pattern, class, sequence, choice, optional, find_from, times, up_to}

abbrev pub ascii_letter : ℕ → Bool
ascii_letter c = (leb b'a' c && leb c b'z') || (leb b'A' c && leb c b'Z')

abbrev pub ascii_digit : ℕ → Bool
ascii_digit c = leb b'0' c && leb c b'9'

abbrev pub one_of : Bytes → ℕ → Bool
one_of cs c = any (λ d. d == c) cs

abbrev pub email_local_byte : ℕ → Bool
email_local_byte c =
    ascii_letter c || ascii_digit c || one_of (b'.' ∷ b'_' ∷ b'%' ∷ b'+' ∷ b'-' ∷ []) c

abbrev pub email_domain_byte : ℕ → Bool
email_domain_byte c = ascii_letter c || ascii_digit c || c == b'.' || c == b'-'

-- The expressions `phonePattern`, `russianPhonePattern` and `cardPattern`.
abbrev pub digit : Pattern
digit = class ascii_digit

abbrev pub byte : ℕ → Pattern
byte c = class (λ d. d == c)

abbrev pub separator : Pattern
separator = optional (class (one_of (b' ' ∷ b'.' ∷ b'-' ∷ [])))

abbrev pub area : Pattern
area = choice (sequence (byte b'(') (times 3 digit (byte b')'))) (times 2 digit digit)

unfoldable pub phone_pattern : Pattern
phone_pattern =
    sequence (optional (sequence (optional (byte b'+')) (sequence (byte b'1') separator))) (
      sequence area (sequence separator (times 3 digit (sequence separator (times 3 digit digit)))))

unfoldable pub russian_phone_pattern : Pattern
russian_phone_pattern = sequence (byte b'+') (
    sequence (byte b'7') (
      sequence separator (
        sequence area (
          sequence separator (
            times 3 digit
              (sequence separator (times 2 digit (sequence separator (times 1 digit digit)))))))))

abbrev pub card_start : Pattern
card_start = class (one_of (b'4' ∷ b'5' ∷ []))

abbrev pub card_groups : ℕ → Pattern
card_groups c = sequence card_start (
    times 3 digit
      (times 2 (sequence (byte c) (times 3 digit digit)) (sequence (byte c) (times 3 digit digit))))

unfoldable pub card_pattern : Pattern
card_pattern =
    choice (card_groups b' ')
      (choice (card_groups b'-') (sequence card_start (times 12 digit (up_to 6 digit))))

-- `strings.ReplaceAll` of the separators by nothing.
abbrev pub bare_digits : Bytes → Bytes
bare_digits [] = []
bare_digits (c ∷ cs) = if c == b' ' || c == b'-' then bare_digits cs else c ∷ bare_digits cs

unfoldable pub supported_card : Bytes → Bool
supported_card raw =
    let digits = bare_digits raw in
    if get_or digits 0 0 == b'4'
    then length digits == 13 || length digits == 16 || length digits == 19
    else length digits == 16
      && get_or digits 0 0 == b'5'
      && leb b'1' (get_or digits 1 0)
      && leb (get_or digits 1 0) b'5'

-- The three expressions.
pub data Shape : Type 0 where
  phone russian_phone card : Shape

abbrev pub pattern_of : Shape → Pattern
pattern_of phone = phone_pattern
pattern_of russian_phone = russian_phone_pattern
pattern_of card = card_pattern

abbrev pub span_if : Bool → ℕ → ℕ → List TextSpan → List TextSpan
span_if true start end spans = record { start = start; end = end } ∷ spans
span_if false start end spans = spans

module _ (u : Categories) (input : Bytes) where
  unfoldable pub pii_boundary : ℕ → ℕ → Bool
  unfolding first_rune last_rune is_word_rune
  pii_boundary start end =
      not (ltb 0 start && is_word_rune u (last_rune (take start input)))
      && not (ltb end (length input) && is_word_rune u (first_rune (drop end input)))

  -- The loop of `nextPIIStart`, which goes on by a byte at least.
  unfoldable pub next_from : ℕ → ℕ → ℕ
  unfolding last_rune is_word_rune rune_size
  next_from zero offset = offset
  next_from (suc fuel) offset =
      let next = next_from fuel (offset + rune_size (drop offset input)) in
      if ltb offset (length input)
      then (if is_word_rune u (last_rune (take offset input)) then next else offset)
      else offset

  unfoldable pub next_pii_start : ℕ → ℕ
  unfolding next_from
  next_pii_start start = next_from (length input) (start + 1)

  -- The loop of `emailDomainEnd`, with its variables: `dot` and `tld` are one above the values of the
  -- source, where -1 says that there is none.
  abbrev pub tld_after : ℕ → ℕ → ℕ
  tld_after value tld =
      if value == b'.' then 1 else if ascii_letter value && ltb 0 tld then tld + 1 else 0

  abbrev pub is_candidate : ℕ → ℕ → ℕ → ℕ → Bool
  is_candidate start dot tld end =
      ltb (start + 1) dot
      && leb 3 tld
      && (end == length input || not (is_word_rune u (first_rune (drop end input))))

  unfoldable pub domain_from : ℕ → ℕ → ℕ → ℕ → ℕ → ℕ → ℕ
  unfolding first_rune is_word_rune
  domain_from zero start end dot tld candidate = candidate
  domain_from (suc fuel) start end dot tld candidate =
      let value = get_or input end 0 in
      let dot' = if value == b'.' then end + 1 else dot in
      let tld' = tld_after value tld in
      let rest =
        domain_from fuel start (end + 1) dot' tld'
          (if is_candidate start dot' tld' (end + 1) then end + 1 else candidate) in
      if ltb end (length input) && email_domain_byte value then rest else candidate

  unfoldable pub email_domain_end : ℕ → ℕ
  unfolding domain_from
  email_domain_end start = domain_from (length input) start start 0 0 0

  -- The local part in front of the place `at`.
  unfoldable pub local_start : ℕ → ℕ
  local_start zero = zero
  local_start (suc n) = if email_local_byte (get_or input n 0) then local_start n else suc n

  -- The loop that moves the start of a match to a boundary before `at`.
  unfoldable pub bounded_start : ℕ → ℕ → ℕ → ℕ → ℕ
  unfolding pii_boundary next_pii_start
  bounded_start zero at end start = start
  bounded_start (suc fuel) at end start =
      let next = bounded_start fuel at end (next_pii_start start) in
      if ltb start at && not (pii_boundary start end) then next else start

  abbrev pub email_at : ℕ → List TextSpan
  email_at at =
      let end = email_domain_end (at + 1) in
      let start = bounded_start (length input) at end (local_start at) in
      if not (end == 0) && ltb start at && pii_boundary start end
      then record { start = start; end = end } ∷ []
      else []

  -- `emailSpans`: a place with an `@` after another.
  unfoldable pub email_from : ℕ → Bytes → List TextSpan
  unfolding email_domain_end bounded_start local_start pii_boundary
  email_from at [] = []
  email_from at (c ∷ cs) =
      let rest = email_from (at + 1) cs in if c == b'@' then email_at at ++ rest else rest

  unfoldable pub email_spans : List TextSpan
  unfolding email_from
  email_spans = email_from 0 input

  -- The tests of a match that only one of the expressions has.
  abbrev pub fits : Shape → ℕ → ℕ → Bool
  fits phone start end =
      not (ltb 0 start && get_or input (start - 1) 0 == b'+' && not (get_or input start 0 == b'+'))
  fits russian_phone start end = true
  fits card start end = supported_card (take (end - start) (drop start input))

  -- `appendPatternSpans` from an offset; each round goes on by a byte at least.
  unfoldable pub pattern_spans : ℕ → Shape → ℕ → List TextSpan
  unfolding find_from pii_boundary next_pii_start supported_card
  pattern_spans zero shape offset = []
  pattern_spans (suc fuel) shape offset =
      if ltb offset (length input)
      then elim (find_from (pattern_of shape) offset (drop offset input)) [
        | none ↦ []
        | some (start, end) ↦
            span_if (pii_boundary start end && fits shape start end) start end
              (pattern_spans fuel shape (next_pii_start start))
      ]
      else []

-- `slices.SortFunc` by the start, and of one start by the end from the last: spans that are equal in
-- both are the same, so that every sort gives this list.
abbrev pub before : TextSpan → TextSpan → Bool
before a b = if a.start == b.start then leb b.end a.end else ltb a.start b.start

unfoldable pub insert_span : TextSpan → List TextSpan → List TextSpan
insert_span s [] = s ∷ []
insert_span s (t ∷ ts) = if before s t then s ∷ t ∷ ts else t ∷ insert_span s ts

unfoldable pub sort_spans : List TextSpan → List TextSpan
unfolding insert_span
sort_spans [] = []
sort_spans (s ∷ ss) = insert_span s (sort_spans ss)

-- The loop that merges: the last span merged, then those to come.
unfoldable pub merge_onto : TextSpan → List TextSpan → List TextSpan
merge_onto last [] = last ∷ []
merge_onto last (s ∷ ss) =
    let joined = merge_onto (record last { end = max last.end s.end }) ss in
    let next = last ∷ merge_onto s ss in if ltb s.start last.end then joined else next

unfoldable pub merge_spans : List TextSpan → List TextSpan
unfolding merge_onto
merge_spans [] = []
merge_spans (s ∷ ss) = merge_onto s ss

-- What the searches for addresses, phones and cards find, in their order.
unfoldable pub found_spans : Categories → Bytes → List TextSpan
unfolding email_spans pattern_spans
found_spans u input =
    email_spans u input
    ++ (pattern_spans u input (length input) phone 0
        ++ (pattern_spans u input (length input) russian_phone 0
            ++ pattern_spans u input (length input) card 0))

unfoldable pub pii_spans : Categories → Bytes → List TextSpan
unfolding found_spans sort_spans merge_spans
pii_spans u input = merge_spans (sort_spans (found_spans u input))
