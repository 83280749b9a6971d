-- ===== src/Stream/Splitter/Resume.antt =====
-- A scanner that resumes finds the unit that it would find from the start.
use guardy.Base.{
  ℕ, zero, suc, ◌+◌, ◌-◌, ◌≤◌, ◌<◌, ◌==◌, ◌≡◌, inl, inr, refl, sym, ap, ◌∙◌, Bool, false, List, [],
  ◌∷◌, ◌++◌, length, take, drop, get_or, All, All-append, arith, take-append-drop, length-take,
  length-append, Bool-cases,
}
use native.Mathlib.Numerals.{add-one}
use guardy.Base.Index.{get_or-tabulate}
use guardy.Stream.Buffer.{StreamBuffer, byte_at}
use guardy.Stream.Buffer.Contents.{contents, length-contents}
use guardy.Stream.Splitter.{
  FrameScanner, visit, newline_from, newline, boundary_from, newline_unit_boundary,
}

abbrev IsText : ℕ → Type 0
IsText c = (c == b'\n') ≡ false

-- No newline stands before the scanner's place.
pub record Scanned (f : FrameScanner) (xs : List ℕ) : Type 0 where
  pub within : f.offset ≤ length xs
  pub clean : All IsText (take f.offset xs)

pub drop-cons : (i : ℕ) (xs : List ℕ) → i < length xs → drop i xs ≡ get_or xs i 0 ∷ drop (suc i) xs
drop-cons i [] h = absurd (omega arith)
drop-cons zero (x ∷ xs) h = refl
drop-cons (suc i) (x ∷ xs) h = drop-cons i xs (omega arith)

take-suc : (i : ℕ) (xs : List ℕ) → i < length xs → take (suc i) xs ≡ take i xs ++ get_or xs i 0 ∷ []
take-suc i [] h = absurd (omega arith)
take-suc zero (x ∷ xs) h = refl
take-suc (suc i) (x ∷ xs) h = ap (◌∷◌ x) (take-suc i xs (omega arith))

pub drop-contents :
    (b : StreamBuffer) (i : ℕ)
    → i < b.size
    → drop i (contents b) ≡ byte_at b i ∷ drop (suc i) (contents b)
drop-contents b i h =
    drop-cons i (contents b) (omega (arith, length-contents b))
    ∙ ap (λ c. c ∷ drop (suc i) (contents b)) (get_or-tabulate b.size (byte_at b) i 0 h)

add_one_swap : (i n : ℕ) → i + 1 + n ≡ i + suc n
add_one_swap i n = omega arith

boundary_from-text :
    (i : ℕ) (xs ys : List ℕ) (final : Bool)
    → All IsText xs
    → boundary_from i (xs ++ ys) final ≡ boundary_from (i + length xs) ys final
unfolding boundary_from
boundary_from-text i [] ys final h = ap (λ k. boundary_from k ys final) (omega arith)
boundary_from-text i (x ∷ xs) ys final h = ground (
  arith,
  boundary_from-text (i + 1) xs ys final h.1,
  ap (λ k. boundary_from k ys final) (add_one_swap i (length xs)),
)

pub drop-all : (i : ℕ) (xs : List ℕ) → length xs ≤ i → drop i xs ≡ []
drop-all zero [] h = refl
drop-all zero (x ∷ xs) h = absurd (omega arith)
drop-all (suc i) [] h = refl
drop-all (suc i) (x ∷ xs) h = drop-all i xs (omega arith)

newline_from-boundary :
    (k : ℕ) (f : FrameScanner) (b : StreamBuffer) (final : Bool)
    → k + f.offset ≡ b.size
    → (newline_from k f b final).1 ≡ boundary_from f.offset (drop f.offset (contents b)) final
unfolding newline_from boundary_from
newline_from-boundary zero f b final e =
    rw (drop-all f.offset (contents b) (omega (arith, length-contents b))) (ground arith)
newline_from-boundary (suc k) f b final e = rw (drop-contents b f.offset (omega arith)) (
    ground (
      arith,
      newline_from-boundary k (visit f) b final,
      ap (λ i. boundary_from (f.offset + 1) (drop i (contents b)) final) (add-one f.offset),
    ))

-- A newline scanner that has seen no newline so far finds the boundary that the whole buffer has,
-- though it reads only the bytes from its place on.
newline_lem :
    (f : FrameScanner) (b : StreamBuffer) (final : Bool)
    → Scanned f (contents b)
    → (newline f b final).1 ≡ newline_unit_boundary (contents b) final
unfolding newline newline_unit_boundary
newline_lem f b final s =
    newline_from-boundary (b.size - f.offset) f b final (omega (arith, s.within, length-contents b))
    ∙ sym whole
  where
    whole :
        boundary_from 0 (contents b) final
        ≡ boundary_from f.offset (drop f.offset (contents b)) final
    whole =
        ap (λ xs. boundary_from 0 xs final) (sym (take-append-drop f.offset (contents b)))
        ∙ boundary_from-text 0 (take f.offset (contents b)) (drop f.offset (contents b)) final
            s.clean
        ∙ ap (λ i. boundary_from i (drop f.offset (contents b)) final)
            (omega (arith, s.within, length-take f.offset (contents b)))

Scanned-visit :
    (f : FrameScanner) (xs : List ℕ)
    → Scanned f xs
    → f.offset < length xs
    → IsText (get_or xs f.offset 0)
    → Scanned (visit f) xs
Scanned-visit f xs s h t = record {
  within = omega arith;
  clean =
      rw (add-one f.offset, take-suc f.offset xs h)
        (All-append IsText (take f.offset xs) (get_or xs f.offset 0 ∷ []) s.clean (t, tt));
}

newline_from-Scanned :
    (k : ℕ) (f : FrameScanner) (b : StreamBuffer)
    → k + f.offset ≡ b.size
    → Scanned f (contents b)
    → (newline_from k f b false).1 ≡ 0
    → Scanned (newline_from k f b false).0 (contents b)
unfolding newline_from
newline_from-Scanned zero f b e s h = s
newline_from-Scanned (suc k) f b e s h = elim (Bool-cases (byte_at b f.offset == b'\n')) [
  | inl hit ↦ absurd (ground arith)
  | inr miss ↦ rw miss (
      newline_from-Scanned k (visit f) b (omega arith)
        (Scanned-visit f (contents b) s (omega (arith, length-contents b))
          (rw (get_or-tabulate b.size (byte_at b) f.offset 0 (omega arith)) miss))
        (ground arith))
]

-- A newline scanner that finds no boundary has seen no newline in the whole buffer, so it may go on
-- from its place when more bytes come.
pub newline-Scanned :
    (f : FrameScanner) (b : StreamBuffer)
    → Scanned f (contents b)
    → (newline f b false).1 ≡ 0
    → Scanned (newline f b false).0 (contents b)
unfolding newline
newline-Scanned f b s h =
    newline_from-Scanned (b.size - f.offset) f b (omega (arith, s.within, length-contents b)) s h

take-append : (n : ℕ) (xs ys : List ℕ) → n ≤ length xs → take n (xs ++ ys) ≡ take n xs
take-append zero xs ys h = refl
take-append (suc n) [] ys h = absurd (omega arith)
take-append (suc n) (x ∷ xs) ys h = ap (◌∷◌ x) (take-append n xs ys (omega arith))

Scanned-append : (f : FrameScanner) (xs ys : List ℕ) → Scanned f xs → Scanned f (xs ++ ys)
Scanned-append f xs ys s = record {
  within = omega (arith, s.within, length-append xs ys);
  clean = rw (take-append f.offset xs ys s.within) s.clean;
}

-- When a newline scanner finds no unit and more bytes arrive, resuming it gives the unit that a scan
-- of all the bytes from the start gives.
pub newline_resumes :
    (f : FrameScanner) (b c : StreamBuffer) (p : List ℕ) (final : Bool)
    → Scanned f (contents b)
    → (newline f b false).1 ≡ 0
    → contents c ≡ contents b ++ p
    → (newline (newline f b false).0 c final).1 ≡ newline_unit_boundary (contents c) final
newline_resumes f b c p final s h e =
    newline_lem (newline f b false).0 c final
      (rw e (Scanned-append _ (contents b) p (newline-Scanned f b s h)))
