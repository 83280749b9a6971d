-- ===== src/JsonDoc/Bounded.antt =====
-- What is left of a text behind each of its parts is no longer than the text.
use guardy.Base.{
  ℕ, zero, suc, ◌≤◌, ltb, ◌==◌, ◌||◌, arith, [], ◌∷◌, Option, none, some, length, Bool-cases,
  Option-cases, inl, inr,
}
use guardy.Ext.Bytes.{Bytes}
use guardy.Ext.TokenVault.Unredact.{strip_prefix}
use guardy.JsonDoc.Strings.{
  quote, backslash, string_from, StringToken, add_byte, add_escape, escape,
}
use guardy.JsonDoc.Scanner.{
  space, take_first, take_byte, after_quote, string_token, is_digit, skip_digits, digits, skip_byte,
  skip_sign, exponent, then_exponent, fraction, then_fraction, integer, number,
}

-- What is left, if anything is, is no longer than `n`.
abbrev pub LeftWithin : ℕ → Option Bytes → Type 0
LeftWithin n none = Unit
LeftWithin n (some rest) = length rest ≤ n

abbrev pub TokenWithin : ℕ → Option StringToken → Type 0
TokenWithin n none = Unit
TokenWithin n (some t) = suc (length t.rest) ≤ n

pub space-le : (text : Bytes) → length (space text) ≤ length text
unfolding space
space-le [] = omega arith
space-le (c ∷ cs) = ground (arith, space-le cs)

skip_digits-le : (text : Bytes) → length (skip_digits text) ≤ length text
unfolding skip_digits
skip_digits-le [] = omega arith
skip_digits-le (c ∷ cs) = ground (arith, skip_digits-le cs)

abbrev pub Shorter : ℕ → Option Bytes → Type 0
Shorter n none = Unit
Shorter n (some rest) = suc (length rest) ≤ n

first-Shorter : (n want : ℕ) (text : Bytes) → length text ≤ n → Shorter n (take_first want text)
first-Shorter n want [] l = tt
first-Shorter n want (c ∷ cs) l = elim (Bool-cases (c == want)) [ inl e ↦ rw e l | inr e ↦ rw e tt ]

pub take_byte-Shorter : (want : ℕ) (text : Bytes) → Shorter (length text) (take_byte want text)
unfolding take_byte
take_byte-Shorter want text = first-Shorter (length text) want (space text) (space-le text)

weaken_left : (m n : ℕ) (o : Option Bytes) → m ≤ n → LeftWithin m o → LeftWithin n o
weaken_left m n none l h = tt
weaken_left m n (some rest) l h = omega arith

-- Numbers.
digits-within : (text : Bytes) → LeftWithin (length text) (digits text)
unfolding digits
digits-within [] = tt
digits-within (c ∷ cs) = elim (Bool-cases (is_digit c)) [
  | inl e ↦
      let here : length (skip_digits cs) ≤ suc (length cs) = omega (arith, skip_digits-le cs) in
      rw e here
  | inr e ↦ rw e tt
]

skip_sign-le : (text : Bytes) → length (skip_sign text) ≤ length text
skip_sign-le [] = omega arith
skip_sign-le (c ∷ cs) = ground arith

exponent-within : (text : Bytes) → LeftWithin (length text) (exponent text)
exponent-within [] = omega arith
exponent-within (c ∷ cs) = elim (Bool-cases (c == b'e' || c == b'E')) [
  | inl e ↦ rw e (
      weaken_left (length (skip_sign cs)) (suc (length cs)) (digits (skip_sign cs))
        (omega (arith, skip_sign-le cs)) (digits-within (skip_sign cs)))
  | inr e ↦ let here : length (c ∷ cs) ≤ length (c ∷ cs) = omega arith in rw e here
]

fraction-within : (text : Bytes) → LeftWithin (length text) (fraction text)
fraction-within [] = omega arith
fraction-within (c ∷ cs) = elim (Bool-cases (c == b'.')) [
  | inl e ↦
      rw e (weaken_left (length cs) (suc (length cs)) (digits cs) (omega arith) (digits-within cs))
  | inr e ↦ let here : length (c ∷ cs) ≤ length (c ∷ cs) = omega arith in rw e here
]

then_exponent-within : (n : ℕ) (o : Option Bytes) → LeftWithin n o → LeftWithin n (then_exponent o)
then_exponent-within n none h = tt
then_exponent-within n (some text) h =
    weaken_left (length text) n (exponent text) h (exponent-within text)

then_fraction-within : (n : ℕ) (o : Option Bytes) → LeftWithin n o → LeftWithin n (then_fraction o)
then_fraction-within n none h = tt
then_fraction-within n (some text) h =
    then_exponent-within n (fraction text)
      (weaken_left (length text) n (fraction text) h (fraction-within text))

integer-within : (text : Bytes) → LeftWithin (length text) (integer text)
integer-within [] = tt
integer-within (c ∷ cs) = elim (Bool-cases (c == b'0')) [
  | inl e ↦ let here : length cs ≤ suc (length cs) = omega arith in rw e here
  | inr e ↦ rw e (digits-within (c ∷ cs))
]

skip_byte-le : (want : ℕ) (text : Bytes) → length (skip_byte want text) ≤ length text
skip_byte-le want [] = omega arith
skip_byte-le want (c ∷ cs) = ground arith

pub number-within : (text : Bytes) → LeftWithin (length text) (number text)
unfolding number
number-within text =
    let after = skip_byte b'-' text in
    then_fraction-within (length text) (integer after) (
      weaken_left (length after) (length text) (integer after) (skip_byte-le b'-' text)
        (integer-within after))

pub prefix-within : (literal text : Bytes) → LeftWithin (length text) (strip_prefix literal text)
unfolding strip_prefix
prefix-within [] text = omega arith
prefix-within (p ∷ ps) [] = tt
prefix-within (p ∷ ps) (c ∷ cs) = elim (Bool-cases (p == c)) [
  | inl e ↦ rw e (
      weaken_left (length cs) (suc (length cs)) (strip_prefix ps cs) (omega arith)
        (prefix-within ps cs))
  | inr e ↦ rw e tt
]

-- Strings.
weaken_token : (m n : ℕ) (o : Option StringToken) → m ≤ n → TokenWithin m o → TokenWithin n o
weaken_token m n none l h = tt
weaken_token m n (some t) l h = omega arith

add_byte-within :
    (n c : ℕ) (o : Option StringToken) → TokenWithin n o → TokenWithin (suc n) (add_byte c o)
add_byte-within n c none h = tt
add_byte-within n c (some t) h = omega arith

add_escape-within :
    (n c : ℕ) (o : Option StringToken) → TokenWithin n o → TokenWithin (suc n) (add_escape c o)
add_escape-within n c none h = tt
add_escape-within n c (some t) h = omega arith

string-within : (skip : ℕ) (text : Bytes) → TokenWithin (length text) (string_from skip text)
unfolding string_from
string-within zero [] = tt
string-within (suc skip) [] = tt
string-within (suc skip) (c ∷ cs) =
    add_byte-within (length cs) c (string_from skip cs) (string-within skip cs)
string-within zero (c ∷ cs) = elim (Bool-cases (c == quote)) [
  | inl q ↦ let here : suc (length cs) ≤ suc (length cs) = omega arith in rw q here
  | inr q ↦ elim (Bool-cases (ltb c 32)) [
    | inl l ↦ rw (q, l) tt
    | inr l ↦ elim (Bool-cases (c == backslash)) [
      | inl b ↦
          rw (q, l, b)
            (elim (Option-cases (escape cs)) [
              | inl n ↦ rw n tt
              | inr (n, e) ↦
                  rw e (add_escape-within (length cs) c (string_from n cs) (string-within n cs))
            ])
      | inr b ↦
          rw (q, l, b) (add_byte-within (length cs) c (string_from zero cs) (string-within zero cs))
    ]
  ]
]

after_quote-within : (n : ℕ) (o : Option Bytes) → Shorter n o → TokenWithin n (after_quote o)
after_quote-within n none h = tt
after_quote-within n (some text) h =
    weaken_token (length text) n (string_from 0 text) (omega arith) (string-within 0 text)

pub token-within : (text : Bytes) → TokenWithin (length text) (string_token text)
unfolding string_token
token-within text =
    after_quote-within (length text) (take_byte quote text) (take_byte-Shorter quote text)
