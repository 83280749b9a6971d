-- ===== src/Release/Utf8.antt =====
-- What release.go uses of `unicode/utf8`: `DecodeRune` by its size, `FullRune` and `ValidString`.
use guardy.Base.{
  ℕ, zero, suc, ltb, leb, ◌==◌, Bool, true, false, not, ◌&&◌, ◌||◌, List, [], ◌∷◌, if◌then◌else◌,
  length, get_or, drop,
}

-- What a first byte says: the length of its rune, 1 for ASCII and for a byte that begins no rune, and
-- the range of the second byte.
pub record Lead : Type 0 where
  pub size : ℕ
  pub low : ℕ
  pub high : ℕ

abbrev pub lead_of : ℕ → ℕ → ℕ → Lead
lead_of size low high = record { size = size; low = low; high = high }

unfoldable pub lead : ℕ → Lead
lead c =
    if ltb c 194
    then lead_of 1 128 191
    else if ltb c 224
    then lead_of 2 128 191
    else if c == 224
    then lead_of 3 160 191
    else if c == 237
    then lead_of 3 128 159
    else if ltb c 240
    then lead_of 3 128 191
    else if c == 240
    then lead_of 4 144 191
    else if ltb c 244
    then lead_of 4 128 191
    else if c == 244
    then lead_of 4 128 143
    else lead_of 1 128 191

abbrev pub within : ℕ → ℕ → ℕ → Bool
within low high c = leb low c && leb c high

-- The bytes behind the first one are those of its rune.
abbrev pub continues : Lead → List ℕ → Bool
continues l p =
    leb l.size (length p)
    && within l.low l.high (get_or p 1 0)
    && (ltb l.size 3 || within 128 191 (get_or p 2 0))
    && (ltb l.size 4 || within 128 191 (get_or p 3 0))

-- The size that `DecodeRune` returns: 0 of nothing, 1 of an invalid rune.
unfoldable pub rune_size : List ℕ → ℕ
rune_size [] = 0
rune_size (c ∷ p) =
    let l = lead c in if l.size == 1 then 1 else if continues l (c ∷ p) then l.size else 1

-- A rune that is known to be invalid is full.
unfoldable pub full_rune : List ℕ → Bool
full_rune [] = false
full_rune (c ∷ p) =
    let l = lead c in
    leb l.size (length (c ∷ p))
    || (ltb 1 (length (c ∷ p)) && not (within l.low l.high (get_or (c ∷ p) 1 0)))
    || (ltb 2 (length (c ∷ p)) && not (within 128 191 (get_or (c ∷ p) 2 0)))

-- A rune takes a byte at least, so that as many rounds as bytes are enough.
unfoldable pub valid_from : ℕ → List ℕ → Bool
valid_from fuel [] = true
valid_from zero (c ∷ p) = false
valid_from (suc fuel) (c ∷ p) =
    let size = rune_size (c ∷ p) in
    let rest = valid_from fuel (drop size (c ∷ p)) in if size == 1 && leb 128 c then false else rest

unfoldable pub valid_utf8 : List ℕ → Bool
valid_utf8 p = valid_from (length p) p
