-- ===== src/JsonDoc/Parts.antt =====
-- The scanner over the texts of strings and numbers.
use guardy.Base.{
  ℕ, zero, ltb, ◌==◌, Bool, true, false, ◌||◌, ◌≡◌, refl, ap, ◌∙◌, arith, List, [], ◌∷◌, ◌++◌,
  Option, none, some, any, All,
}
use guardy.Ext.Bytes.{Bytes}
use guardy.JsonDoc.Strings.{
  quote, backslash, string_from, escape, add_byte, add_escape, StringToken,
}
use guardy.JsonDoc.Scanner.{
  is_space, is_digit, skip_digits, digits, skip_byte, skip_sign, exponent, then_exponent, fraction,
  then_fraction, integer, number, start_of, opens_number,
}
use guardy.JsonDoc.Printing.{
  Piece, plain, simple, unicode, print_pieces, is_escape, IsString, Digits, print_digits, IsDigits,
  Whole, zero_digit, whole_digits, print_whole, IsWhole, print_fraction, IsFraction, Exponent,
  print_sign, IsSign, print_exponent, IsExponent, Number, print_number, print_minus, IsNumber,
}

abbrev pub token_of : List Piece → Bytes → StringToken
token_of ps rest = record { body = print_pieces ps []; escaped = any is_escape ps; rest = rest }

-- The printed string is scanned to its end, whatever its escapes are.
pub string_from_lem :
    (ps : List Piece) (rest : Bytes)
    → IsString ps
    → string_from zero (print_pieces ps (quote ∷ rest)) ≡ some (token_of ps rest)
unfolding string_from print_pieces escape
string_from_lem [] rest h = refl
string_from_lem (plain c ∷ ps) rest h =
    let a : (c == quote) ≡ false = ground (arith, h.0) in
    let b : ltb c 32 ≡ false = ground (arith, h.0) in
    let d : (c == backslash) ≡ false = ground (arith, h.0) in
    rw (a, b, d) (ap (add_byte c) (string_from_lem ps rest h.1))
string_from_lem (simple c ∷ ps) rest h =
    rw (h.0) (ap (λ o. add_escape backslash (add_byte c o)) (string_from_lem ps rest h.1))
string_from_lem (unicode a b c d ∷ ps) rest h = rw (h.0) (
    ap
      (λ o.
        add_escape backslash (add_byte b'u' (add_byte a (add_byte b (add_byte c (add_byte d o))))))
      (string_from_lem ps rest h.1))

-- A text that does not go on with a digit, or with what a number may go on with.
abbrev NoDigit : Bytes → Type 0
NoDigit [] = Unit
NoDigit (c ∷ cs) = is_digit c ≡ false

abbrev NoDot : Bytes → Type 0
NoDot [] = Unit
NoDot (c ∷ cs) = (c == b'.') ≡ false

abbrev pub Stops : Bytes → Type 0
Stops [] = Unit
Stops (c ∷ cs) = (is_digit c || (c == b'.' || (c == b'e' || c == b'E'))) ≡ false

skip_digits_lem :
    (ds rest : Bytes)
    → All (λ c. is_digit c ≡ true) ds
    → NoDigit rest
    → skip_digits (ds ++ rest) ≡ rest
unfolding skip_digits
skip_digits_lem [] [] h n = refl
skip_digits_lem [] (c ∷ cs) h n = rw n refl
skip_digits_lem (d ∷ ds) rest h n = rw (h.0) (skip_digits_lem ds rest h.1 n)

digits_lem :
    (ds : Digits) (rest : Bytes)
    → IsDigits ds
    → NoDigit rest
    → digits (print_digits ds rest) ≡ some rest
unfolding digits
digits_lem ds rest h n = rw (h.0) (ap some (skip_digits_lem ds.others rest h.1 n))

Stops-NoDigit : (rest : Bytes) → Stops rest → NoDigit rest
Stops-NoDigit [] h = tt
Stops-NoDigit (c ∷ cs) h = ground (arith, h)

skip_sign_lem :
    (s : Option ℕ) (ds : Digits) (rest : Bytes)
    → IsSign s
    → IsDigits ds
    → skip_sign (print_sign s (print_digits ds rest)) ≡ print_digits ds rest
skip_sign_lem none ds rest h d =
    let e : (ds.first == b'+' || ds.first == b'-') ≡ false = ground (arith, d.0) in rw e refl
skip_sign_lem (some c) ds rest h d = rw h refl

exponent_lem :
    (e : Option Exponent) (rest : Bytes)
    → IsExponent e
    → Stops rest
    → exponent (print_exponent e rest) ≡ some rest
exponent_lem none [] h s = refl
exponent_lem none (c ∷ cs) h s =
    let e : (c == b'e' || c == b'E') ≡ false = ground (arith, s) in rw e refl
exponent_lem (some e) rest h s = rw (h.0) (
    ap digits (skip_sign_lem e.sign e.power rest h.1 h.2)
    ∙ digits_lem e.power rest h.2 (Stops-NoDigit rest s))

exponent-NoDigit :
    (e : Option Exponent) (rest : Bytes)
    → IsExponent e
    → Stops rest
    → NoDigit (print_exponent e rest)
exponent-NoDigit none rest h s = Stops-NoDigit rest s
exponent-NoDigit (some e) rest h s = ground (arith, h.0)

exponent-NoDot :
    (e : Option Exponent) (rest : Bytes) → IsExponent e → Stops rest → NoDot (print_exponent e rest)
exponent-NoDot none [] h s = tt
exponent-NoDot none (c ∷ cs) h s = ground (arith, s)
exponent-NoDot (some e) rest h s = ground (arith, h.0)

fraction_lem :
    (f : Option Digits) (tail : Bytes)
    → IsFraction f
    → NoDigit tail
    → NoDot tail
    → fraction (print_fraction f tail) ≡ some tail
fraction_lem none [] h n d = refl
fraction_lem none (c ∷ cs) h n d = rw d refl
fraction_lem (some ds) tail h n d = digits_lem ds tail h n

fraction-NoDigit :
    (f : Option Digits) (tail : Bytes) → NoDigit tail → NoDigit (print_fraction f tail)
fraction-NoDigit none tail n = n
fraction-NoDigit (some ds) tail n = refl

integer_lem :
    (w : Whole) (tail : Bytes) → IsWhole w → NoDigit tail → integer (print_whole w tail) ≡ some tail
integer_lem zero_digit tail h n = refl
integer_lem (whole_digits ds) tail h n = rw (h.0) (digits_lem ds tail h.1 n)

minus_lem :
    (negative : Bool) (w : Whole) (tail : Bytes)
    → IsWhole w
    → skip_byte b'-' (print_minus negative (print_whole w tail)) ≡ print_whole w tail
minus_lem true w tail h = refl
minus_lem false zero_digit tail h = refl
minus_lem false (whole_digits ds) tail h =
    let e : (ds.first == b'-') ≡ false = ground (arith, h.1.0) in rw e refl

-- The printed number is scanned to its end, if what follows cannot go on with it.
pub number_lem :
    (n : Number) (rest : Bytes) → IsNumber n → Stops rest → number (print_number n rest) ≡ some rest
unfolding number print_number
number_lem n rest h s =
    let tail = print_exponent n.exponent rest in
    let noted = exponent-NoDigit n.exponent rest h.2 s in
    let below = print_fraction n.fraction tail in
    ap (λ t. then_fraction (integer t)) (minus_lem n.negative n.whole below h.0)
    ∙ ap then_fraction (integer_lem n.whole below h.0 (fraction-NoDigit n.fraction tail noted))
    ∙ ap then_exponent
        (fraction_lem n.fraction tail h.1 noted (exponent-NoDot n.exponent rest h.2 s))
    ∙ exponent_lem n.exponent rest h.2 s

-- A text begins with a byte that is no space and opens a value, and not the end of an array.
abbrev pub Opens : Bytes → Type 0
Opens [] = ⊥
Opens (c ∷ cs) = (is_space c ≡ false) × ((c == b']') ≡ false)

abbrev pub OpensNumber : Bytes → Type 0
OpensNumber [] = ⊥
OpensNumber (c ∷ cs) = start_of c ≡ opens_number

digit-starts : (c : ℕ) → is_digit c ≡ true → start_of c ≡ opens_number
unfolding start_of
digit-starts c h = ground (arith, h)

pub number-Opens :
    (n : Number) (rest : Bytes)
    → IsNumber n
    → Opens (print_number n rest) × OpensNumber (print_number n rest)
unfolding print_number start_of
number-Opens n rest h = go n.negative n.whole h.0
  where
    go :
        (b : Bool) (w : Whole)
        → IsWhole w
        → Opens (
            print_minus b
              (print_whole w (print_fraction n.fraction (print_exponent n.exponent rest))))
          × OpensNumber (
              print_minus b
                (print_whole w (print_fraction n.fraction (print_exponent n.exponent rest))))
    go true w h = ((refl, refl), refl)
    go false zero_digit h = ((refl, refl), refl)
    go false (whole_digits ds) h =
        ((ground (arith, h.1.0), ground (arith, h.1.0)), digit-starts ds.first h.1.0)
