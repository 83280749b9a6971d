-- ===== src/Base/Index.antt =====
-- Lists read at an index: extensionality, and what reading does to each list operation.
use Prim.Native.Nat.{ℕ, zero, suc, ◌+◌, ◌-◌, ◌≤◌, ◌<◌}
use mathlib.Core.Path.{◌≡◌, refl, ap, ap₂}
use mathlib.Core.List.{List, [], ◌∷◌, ◌++◌}
use native.Mathlib.Omega.{arith}
use guardy.Base.Tests.{ltb, if◌then◌else◌}
use guardy.Base.Lists.{length, get_or, take, drop}

module _ {ℓ} {A : Type ℓ} where
  -- The first `n` values of a function.
  unfoldable pub tabulate : ℕ → (ℕ → A) → List A
  tabulate zero f = []
  tabulate (suc n) f = f 0 ∷ tabulate n (λ i. f (suc i))

  -- `copy(dst[off:], src)`, which stops at the end of either.
  unfoldable pub blit : List A → ℕ → List A → List A
  blit [] off src = []
  blit (d ∷ dst) zero [] = d ∷ dst
  blit (d ∷ dst) zero (s ∷ src) = s ∷ blit dst zero src
  blit (d ∷ dst) (suc off) src = d ∷ blit dst off src

  pub length-tabulate : (n : ℕ) (f : ℕ → A) → length (tabulate n f) ≡ n
  unfolding tabulate
  length-tabulate zero f = refl
  length-tabulate (suc n) f = ap suc (length-tabulate n (λ i. f (suc i)))

  pub get_or-tabulate :
      (n : ℕ) (f : ℕ → A) (i : ℕ) (d : A) → i < n → get_or (tabulate n f) i d ≡ f i
  unfolding tabulate
  get_or-tabulate zero f i d h = absurd (omega arith)
  get_or-tabulate (suc n) f zero d h = refl
  get_or-tabulate (suc n) f (suc i) d h = get_or-tabulate n (λ j. f (suc j)) i d (omega arith)

  pub length-blit : (dst : List A) (off : ℕ) (src : List A) → length (blit dst off src) ≡ length dst
  unfolding blit
  length-blit [] off src = refl
  length-blit (d ∷ dst) zero [] = refl
  length-blit (d ∷ dst) zero (s ∷ src) = ap suc (length-blit dst zero src)
  length-blit (d ∷ dst) (suc off) src = ap suc (length-blit dst off src)

  pub get_or-append :
      (xs ys : List A) (i : ℕ) (d : A)
      → get_or (xs ++ ys) i d
        ≡ (if ltb i (length xs) then get_or xs i d else get_or ys (i - length xs) d)
  get_or-append [] ys i d = ground arith
  get_or-append (x ∷ xs) ys zero d = ground arith
  get_or-append (x ∷ xs) ys (suc i) d = ground (arith, get_or-append xs ys i d)

  pub get_or-take :
      (n : ℕ) (xs : List A) (i : ℕ) (d : A) → i < n → get_or (take n xs) i d ≡ get_or xs i d
  get_or-take zero xs i d h = absurd (omega arith)
  get_or-take (suc n) [] i d h = refl
  get_or-take (suc n) (x ∷ xs) zero d h = refl
  get_or-take (suc n) (x ∷ xs) (suc i) d h = get_or-take n xs i d (omega arith)

  pub get_or-drop :
      (n : ℕ) (xs : List A) (i : ℕ) (d : A) → get_or (drop n xs) i d ≡ get_or xs (n + i) d
  get_or-drop zero xs i d = ground arith
  get_or-drop (suc n) [] i d = refl
  get_or-drop (suc n) (x ∷ xs) i d = ground (arith, get_or-drop n xs i d)

  pub list_ext :
      (xs ys : List A) (d : A)
      → length xs ≡ length ys
      → ((i : ℕ) → i < length xs → get_or xs i d ≡ get_or ys i d)
      → xs ≡ ys
  list_ext [] [] d e h = refl
  list_ext [] (y ∷ ys) d e h = absurd (omega arith)
  list_ext (x ∷ xs) [] d e h = absurd (omega arith)
  list_ext (x ∷ xs) (y ∷ ys) d e h =
      ap₂ ◌∷◌ (h 0 (omega arith)) (list_ext xs ys d (omega arith) (λ i k. h (suc i) (omega arith)))

  -- A list of the right length that reads as `f` is the table of `f`.
  pub tabulate-of :
      (xs : List A) (n : ℕ) (f : ℕ → A) (d : A)
      → length xs ≡ n
      → ((i : ℕ) → i < n → get_or xs i d ≡ f i)
      → xs ≡ tabulate n f
  tabulate-of xs n f d e h =
      list_ext xs (tabulate n f) d (omega (arith, length-tabulate n f))
        (λ i k. ground (arith, h i, get_or-tabulate n f i d))

pub get_or-blit :
    {A : Type 0} (dst : List A) (off : ℕ) (src : List A) (i : ℕ) (d : A)
    → off + length src ≤ length dst
    → get_or (blit dst off src) i d ≡ (
        if ltb i off
        then get_or dst i d
        else if ltb i (off + length src)
        then get_or src (i - off) d
        else get_or dst i d)
unfolding blit
get_or-blit [] off src i d h = ground arith
get_or-blit (x ∷ dst) zero [] i d h = ground arith
get_or-blit (x ∷ dst) zero (s ∷ src) zero d h = ground arith
get_or-blit (x ∷ dst) zero (s ∷ src) (suc i) d h = ground (arith, get_or-blit dst zero src i d)
get_or-blit (x ∷ dst) (suc off) src zero d h = ground arith
get_or-blit (x ∷ dst) (suc off) src (suc i) d h = ground (arith, get_or-blit dst off src i d)
