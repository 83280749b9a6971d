-- ===== src/Ext/Bytes.antt =====
-- Texts of the extensions as lists of bytes: equality, the decimal print of `fmt`, and the text that a
-- report carries.
use Prim.Native.Char.{Char, IsScalar, char, nul}
use mathlib.Core.Logic.{dite}
use native.Mathlib.Decide.{dec_lt}
use guardy.Base.{
  ℕ, zero, suc, ◌+◌, ◌*◌, ◌/◌, ◌%◌, ◌<◌, ◌≤◌, ◌-◌, ◌==◌, ltb, Bool, true, false, ◌&&◌, String, List,
  [], ◌∷◌, ◌++◌, ◌≡◌, ◌≢◌, refl, ap, arith, if◌then◌else◌, All, All-append, Bool-cases, inl, inr,
  sym, ◌∙◌,
}

abbrev pub Bytes : Type 0
Bytes = List ℕ

-- `==` on strings.
abbrev pub same_bytes : Bytes → Bytes → Bool
same_bytes [] [] = true
same_bytes [] (d ∷ ds) = false
same_bytes (c ∷ cs) [] = false
same_bytes (c ∷ cs) (d ∷ ds) = c == d && same_bytes cs ds

pub lt-IsScalar : (n : ℕ) → n < 55296 → IsScalar n
lt-IsScalar n h = ground arith

abbrev pub byte_char : ℕ → Char
byte_char n = dite (dec_lt n 55296) (λ h. char n (lt-IsScalar n h)) (λ _. nul)

-- The bytes as a text, one character for each.
unfoldable pub text_of : Bytes → String
text_of [] = String.[]
text_of (c ∷ cs) = String.◌∷◌ (byte_char c) (text_of cs)

-- `%d` of a number, with as many rounds as it needs.
unfoldable pub decimal_from : ℕ → ℕ → Bytes
decimal_from zero n = []
decimal_from (suc fuel) n =
    let rest = decimal_from fuel (n / 10) in
    if ltb n 10 then (b'0' + n) ∷ [] else rest ++ (b'0' + n % 10) ∷ []

unfoldable pub decimal : ℕ → Bytes
unfolding decimal_from
decimal n = decimal_from (suc n) n

-- The number that digits write, read on top of `acc`.
read_from : ℕ → Bytes → ℕ
read_from acc [] = acc
read_from acc (c ∷ cs) = read_from (acc * 10 + (c - b'0')) cs

read_from-snoc :
    (acc : ℕ) (cs : Bytes) (d : ℕ)
    → read_from acc (cs ++ (b'0' + d) ∷ []) ≡ read_from acc cs * 10 + d
unfolding read_from
read_from-snoc acc [] d = omega arith
read_from-snoc acc (c ∷ cs) d = read_from-snoc (acc * 10 + (c - b'0')) cs d

read-decimal_from : (fuel n : ℕ) → n < fuel → read_from 0 (decimal_from fuel n) ≡ n
unfolding decimal_from read_from
read-decimal_from zero n h = absurd (omega arith)
read-decimal_from (suc fuel) n h = elim (Bool-cases (ltb n 10)) [
  | inl small ↦ rw small (omega arith)
  | inr large ↦
      rw (large, read_from-snoc 0 (decimal_from fuel (n / 10)) (n % 10))
        (ground (arith, read-decimal_from fuel (n / 10)))
]

read-decimal : (n : ℕ) → read_from 0 (decimal n) ≡ n
unfolding decimal
read-decimal n = read-decimal_from (suc n) n (omega arith)

pub decimal_inj : (m n : ℕ) → decimal m ≡ decimal n → m ≡ n
decimal_inj m n e = sym (read-decimal m) ∙ ap (read_from 0) e ∙ read-decimal n

abbrev pub IsDigit : ℕ → Type 0
IsDigit c = (b'0' ≤ c) × (c ≤ b'9')

decimal_from-IsDigit : (fuel n : ℕ) → All IsDigit (decimal_from fuel n)
unfolding decimal_from
decimal_from-IsDigit zero n = tt
decimal_from-IsDigit (suc fuel) n = elim (Bool-cases (ltb n 10)) [
  | inl small ↦ rw small (ground arith)
  | inr large ↦ rw large (
      All-append IsDigit (decimal_from fuel (n / 10)) _ (decimal_from-IsDigit fuel (n / 10))
        (omega arith))
]

pub decimal-IsDigit : (n : ℕ) → All IsDigit (decimal n)
unfolding decimal
decimal-IsDigit n = decimal_from-IsDigit (suc n) n

pub same_bytes_refl : (xs : Bytes) → same_bytes xs xs ≡ true
same_bytes_refl [] = refl
same_bytes_refl (c ∷ cs) = ground (arith, same_bytes_refl cs)

pub same_bytes-eq : (xs ys : Bytes) → same_bytes xs ys ≡ true → xs ≡ ys
same_bytes-eq [] [] h = refl
same_bytes-eq [] (d ∷ ds) h = cc
same_bytes-eq (c ∷ cs) [] h = cc
same_bytes-eq (c ∷ cs) (d ∷ ds) h = ground (arith, same_bytes-eq cs ds)

-- No byte of a text is `c`.
abbrev pub Lacks : ℕ → Bytes → Type 0
Lacks c = All (λ d. d ≢ c)

-- The texts around the first `c` are determined, and so are those around the last.
pub split_first :
    (c : ℕ) (xs ys us vs : Bytes)
    → Lacks c xs
    → Lacks c ys
    → xs ++ c ∷ us ≡ ys ++ c ∷ vs
    → (xs ≡ ys) × (us ≡ vs)
split_first c [] [] us vs h k e = (refl, cc)
split_first c [] (y ∷ ys) us vs h k e = absurd (k.0 (cc))
split_first c (x ∷ xs) [] us vs h k e = absurd (h.0 (cc))
split_first c (x ∷ xs) (y ∷ ys) us vs h k e =
    let (p, q) = split_first c xs ys us vs h.1 k.1 (cc) in (cc, q)

after-Lacks : (c : ℕ) (ys ds es : Bytes) → Lacks c ds → ds ≡ ys ++ c ∷ es → ⊥
after-Lacks c [] [] es h e = cc
after-Lacks c [] (d ∷ ds) es h e = h.0 (cc)
after-Lacks c (y ∷ ys) [] es h e = cc
after-Lacks c (y ∷ ys) (d ∷ ds) es h e = after-Lacks c ys ds es h.1 (cc)

pub split_last :
    (c : ℕ) (xs ys ds es : Bytes)
    → Lacks c ds
    → Lacks c es
    → xs ++ c ∷ ds ≡ ys ++ c ∷ es
    → (xs ≡ ys) × (ds ≡ es)
split_last c [] [] ds es h k e = (refl, cc)
split_last c [] (y ∷ ys) ds es h k e = absurd (after-Lacks c ys ds es h (cc))
split_last c (x ∷ xs) [] ds es h k e = absurd (after-Lacks c xs es ds k (cc))
split_last c (x ∷ xs) (y ∷ ys) ds es h k e =
    let (p, q) = split_last c xs ys ds es h k (cc) in (cc, q)
