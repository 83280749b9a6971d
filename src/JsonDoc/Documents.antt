-- ===== src/JsonDoc/Documents.antt =====
-- The check of the text of a document.
use guardy.Base.{
  ℕ, suc, ◌+◌, ◌*◌, ◌≤◌, Bool, true, false, ◌≡◌, refl, ap, ◌∙◌, arith, List, [], ◌∷◌, ◌++◌, Option,
  none, some, length, length-append, if◌then◌else◌, Bool-cases, inl, inr,
}
use guardy.Fault.Tree.{Error}
use guardy.Ext.Bytes.{Bytes}
use guardy.JsonDoc.Strings.{quote}
use guardy.JsonDoc.Scanner.{
  fuel_for, max_depth, validate_binding_document, judge_scan, Validity, answers, duplicate_key,
}
use guardy.JsonDoc.Printing.{
  Piece, plain, simple, unicode, print_pieces, print_string, Digits, print_digits, print_sign,
  Exponent, print_exponent, print_fraction, Whole, zero_digit, whole_digits, print_whole,
  print_minus, Number, print_number, Json, null, boolean, numeral, string, empty_object,
  empty_array, object, array, Members, sole, also, Elements, sole_element, also_element, print,
  print_members, print_elements, Gaps, print_member, IsGap, IsJson, depth, unique,
}
use guardy.JsonDoc.Spaced.{space-all, scan_value-gap, IsGap-Stops}
use guardy.JsonDoc.Scanned.{cost, cost_members, cost_elements, cost-pos, scan_value_lem}
use guardy.JsonDoc.Entries.{verdict}

-- The bytes of a text are enough for what it costs.
pieces-le : (ps : List Piece) (rest : Bytes) → length rest ≤ length (print_pieces ps rest)
unfolding print_pieces
pieces-le [] rest = omega arith
pieces-le (plain c ∷ ps) rest = omega (arith, pieces-le ps rest)
pieces-le (simple c ∷ ps) rest = omega (arith, pieces-le ps rest)
pieces-le (unicode a b c d ∷ ps) rest = omega (arith, pieces-le ps rest)

digits-lt : (ds : Digits) (rest : Bytes) → suc (length rest) ≤ length (print_digits ds rest)
digits-lt ds rest = omega (arith, length-append {0} ds.others rest)

sign-le : (s : Option ℕ) (rest : Bytes) → length rest ≤ length (print_sign s rest)
sign-le none rest = omega arith
sign-le (some c) rest = omega arith

exponent-le : (e : Option Exponent) (rest : Bytes) → length rest ≤ length (print_exponent e rest)
exponent-le none rest = omega arith
exponent-le (some e) rest =
    omega (arith, digits-lt e.power rest, sign-le e.sign (print_digits e.power rest))

fraction-le : (f : Option Digits) (rest : Bytes) → length rest ≤ length (print_fraction f rest)
fraction-le none rest = omega arith
fraction-le (some ds) rest = omega (arith, digits-lt ds rest)

whole-lt : (w : Whole) (rest : Bytes) → suc (length rest) ≤ length (print_whole w rest)
whole-lt zero_digit rest = omega arith
whole-lt (whole_digits ds) rest = digits-lt ds rest

minus-le : (b : Bool) (rest : Bytes) → length rest ≤ length (print_minus b rest)
minus-le true rest = omega arith
minus-le false rest = omega arith

number-lt : (n : Number) (rest : Bytes) → suc (length rest) ≤ length (print_number n rest)
unfolding print_number
number-lt n rest =
    let e = print_exponent n.exponent rest in
    let f = print_fraction n.fraction e in
    omega (
      arith,
      exponent-le n.exponent rest,
      fraction-le n.fraction e,
      whole-lt n.whole f,
      minus-le n.negative (print_whole n.whole f),
    )

gap-le : (gap rest : Bytes) → length rest ≤ length (gap ++ rest)
gap-le gap rest = omega (arith, length-append {0} gap rest)

member-lt :
    (g : Gaps) (ps : List Piece) (value : Bytes)
    → length value + 2 ≤ length (print_member g ps value)
unfolding print_string
member-lt g ps value =
    let colon = b':' ∷ (g.before_value ++ value) in
    omega (
      arith,
      gap-le g.before_value value,
      gap-le g.before_colon colon,
      pieces-le ps (quote ∷ (g.before_colon ++ colon)),
      gap-le g.before_key (print_string ps (g.before_colon ++ colon)),
    )

mutual
  unfolding cost print print_string

  cost-le : (v : Json) (rest : Bytes) → cost v + 2 * length rest ≤ 2 * length (print v rest)
  cost-le null rest = omega arith
  cost-le (boolean true) rest = omega arith
  cost-le (boolean false) rest = omega arith
  cost-le (numeral n) rest = omega (arith, number-lt n rest)
  cost-le (string ps) rest = omega (arith, pieces-le ps (quote ∷ rest))
  cost-le (empty_object gap) rest = omega (arith, gap-le gap (b'}' ∷ rest))
  cost-le (empty_array gap) rest = omega (arith, gap-le gap (b']' ∷ rest))
  cost-le (object ms) rest = omega (arith, cost_members-le ms (b'}' ∷ rest))
  cost-le (array es) rest = omega (arith, cost_elements-le es (b']' ∷ rest))

  cost_members-le :
      (ms : Members) (rest : Bytes)
      → cost_members ms + 2 * length rest ≤ 2 * length (print_members ms rest)
  cost_members-le (sole g ps v) rest =
      let tail = g.behind ++ rest in
      omega (arith, cost-le v tail, gap-le g.behind rest, member-lt g ps (print v tail))
  cost_members-le (also g ps v ms) rest =
      let others = b',' ∷ print_members ms rest in
      let tail = g.behind ++ others in
      omega (
        arith,
        cost-le v tail,
        cost-pos v,
        cost_members-le ms rest,
        gap-le g.behind others,
        member-lt g ps (print v tail),
      )

  cost_elements-le :
      (es : Elements) (rest : Bytes)
      → cost_elements es + 2 * length rest ≤ 2 * length (print_elements es rest) + 1
  cost_elements-le (sole_element g v) rest =
      let tail = g.behind ++ rest in
      omega (arith, cost-le v tail, gap-le g.behind rest, gap-le g.before (print v tail))
  cost_elements-le (also_element g v es) rest =
      let others = b',' ∷ print_elements es rest in
      let tail = g.behind ++ others in
      omega (
        arith,
        cost-le v tail,
        cost-pos v,
        cost_elements-le es rest,
        gap-le g.behind others,
        gap-le g.before (print v tail),
      )

-- What the check answers for the text of a document.
abbrev pub answer : (Bytes → Bool) → Option Error → Json → Bytes → Validity
answer valid decode_error v text =
    if unique v
    then (if valid text then answers none else answers decode_error)
    else answers (some duplicate_key)

judged :
    (valid : Bytes → Bool) (decode_error : Option Error) (v : Json) (gap text : Bytes)
    → IsGap gap
    → judge_scan valid decode_error text (verdict (unique v) gap) ≡ answer valid decode_error v text
judged valid decode_error v gap text h = elim (Bool-cases (unique v)) [
  | inr u ↦ rw u refl
  | inl u ↦ rw u (
      rw (space-all gap h)
        (elim (Bool-cases (valid text)) [ inl e ↦ rw e refl | inr e ↦ rw e refl ]))
]

-- The check of the text of any document, nested no deeper than the limit, whatever its numbers and
-- escapes are and whatever whitespace stands between its tokens, before it and behind it: the text is
-- let on to `json.Valid` if no object has a key twice, by what the keys stand for, and otherwise the
-- answer is the error for a duplicate key.
pub validate_binding_document-print :
    (valid : Bytes → Bool) (decode_error : Option Error) (before : Bytes) (v : Json)
    (behind : Bytes)
    → IsGap before
    → IsJson v
    → IsGap behind
    → depth v ≤ max_depth
    → let text = before ++ print v behind in
      validate_binding_document valid decode_error text ≡ answer valid decode_error v text
unfolding validate_binding_document
validate_binding_document-print valid decode_error before v behind a h b l =
    let text = before ++ print v behind in
    ap (judge_scan valid decode_error text) (
      scan_value-gap (fuel_for text) 0 before (print v behind) a
      ∙ scan_value_lem v (fuel_for text) 0 behind
          (omega (arith, cost-le v behind, gap-le before (print v behind))) (omega arith) h
          (IsGap-Stops behind b))
    ∙ judged valid decode_error v behind text b
