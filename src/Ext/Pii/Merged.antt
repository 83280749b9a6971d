-- ===== src/Ext/Pii/Merged.antt =====
-- Sorting and merging spans.
use guardy.Base.{
  ℕ, ◌≤◌, ◌<◌, ltb, leb, Bool, ◌&&◌, ◌||◌, List, [], ◌∷◌, ◌≡◌, refl, ap, ◌∙◌, arith, ltb→lt, length,
  All, max, any, Bool-cases, inl, inr,
}
use guardy.Ext.Bytes.{Bytes}
use guardy.Ext.Spans.{TextSpan, InRange}
use guardy.Ext.Pii.{before, insert_span, sort_spans, merge_onto, merge_spans}

-- A span of a text of `n` bytes.
abbrev pub Fits : ℕ → TextSpan → Type 0
Fits n s = (s.start ≤ s.end) × (s.end ≤ n)

-- The starts rise from `k` on.
abbrev Rises : ℕ → List TextSpan → Type 0
Rises k [] = Unit
Rises k (s ∷ ss) = (k ≤ s.start) × Rises s.start ss

Rises-weaken : (j k : ℕ) (ss : List TextSpan) → j ≤ k → Rises k ss → Rises j ss
Rises-weaken j k [] h r = tt
Rises-weaken j k (s ∷ ss) h r = (omega (arith, r.0), r.1)

insert-Rises :
    (k : ℕ) (s : TextSpan) (ss : List TextSpan)
    → k ≤ s.start
    → Rises k ss
    → Rises k (insert_span s ss)
unfolding insert_span
insert-Rises k s [] h r = (h, tt)
insert-Rises k s (t ∷ ts) h r = elim (Bool-cases (before s t)) [
  | inl e ↦ rw e (h, (ground arith, r.1))
  | inr e ↦ rw e (r.0, insert-Rises t.start s ts (ground arith) r.1)
]

sort-Rises : (ss : List TextSpan) → Rises 0 (sort_spans ss)
unfolding sort_spans
sort-Rises [] = tt
sort-Rises (s ∷ ss) = insert-Rises 0 s (sort_spans ss) (omega arith) (sort-Rises ss)

insert-All :
    (n : ℕ) (s : TextSpan) (ss : List TextSpan)
    → Fits n s
    → All (Fits n) ss
    → All (Fits n) (insert_span s ss)
unfolding insert_span
insert-All n s [] h a = (h, tt)
insert-All n s (t ∷ ts) h a = elim (Bool-cases (before s t)) [
  | inl e ↦ rw e (h, a)
  | inr e ↦ rw e (a.0, insert-All n s ts h a.1)
]

sort-All : (n : ℕ) (ss : List TextSpan) → All (Fits n) ss → All (Fits n) (sort_spans ss)
unfolding sort_spans
sort-All n [] a = tt
sort-All n (s ∷ ss) a = insert-All n s (sort_spans ss) a.0 (sort-All n ss a.1)

merge_onto-InRange :
    (input : Bytes) (k : ℕ) (last : TextSpan) (ss : List TextSpan)
    → k ≤ last.start
    → Fits (length input) last
    → Rises last.start ss
    → All (Fits (length input)) ss
    → InRange input k (merge_onto last ss)
unfolding merge_onto
merge_onto-InRange input k last [] h f r a = (ground arith, f.1)
merge_onto-InRange input k last (s ∷ ss) h f r a = elim (Bool-cases (ltb s.start last.end)) [
  | inl e ↦ rw e (
      merge_onto-InRange input k (record last { end = max last.end s.end }) ss h
        (omega (arith, a.0)) (Rises-weaken last.start s.start ss r.0 r.1) a.1)
  | inr e ↦ rw e (ground arith, merge_onto-InRange input last.end s ss (ground arith) a.0 r.1 a.1)
]

merge-InRange :
    (input : Bytes) (ss : List TextSpan)
    → Rises 0 ss
    → All (Fits (length input)) ss
    → InRange input 0 (merge_spans ss)
unfolding merge_spans
merge-InRange input [] r a = omega arith
merge-InRange input (s ∷ ss) r a = merge_onto-InRange input 0 s ss (omega arith) a.0 r.1 a.1

-- Spans of a text lie in it in order once they are sorted and merged.
pub merged-InRange :
    (input : Bytes) (ss : List TextSpan)
    → All (Fits (length input)) ss
    → InRange input 0 (merge_spans (sort_spans ss))
merged-InRange input ss a =
    merge-InRange input (sort_spans ss) (sort-Rises ss) (sort-All (length input) ss a)

or_assoc : (a b c : Bool) → ((a || b) || c) ≡ (a || (b || c))
or_assoc a b c = ground arith

-- The byte at `i` lies in a span, or in one of a list.
abbrev pub covers : ℕ → TextSpan → Bool
covers i s = leb s.start i && ltb i s.end

abbrev pub covered : ℕ → List TextSpan → Bool
covered i ss = any (covers i) ss

or_swap : (a b c : Bool) → (a || (b || c)) ≡ (b || (a || c))
or_swap a b c = ground arith

insert-covered :
    (i : ℕ) (s : TextSpan) (ss : List TextSpan)
    → covered i (insert_span s ss) ≡ (covers i s || covered i ss)
unfolding insert_span
insert-covered i s [] = refl
insert-covered i s (t ∷ ts) = elim (Bool-cases (before s t)) [
  | inl e ↦ rw e
  | inr e ↦ rw (e, insert-covered i s ts) (or_swap (covers i t) (covers i s) (covered i ts))
]

sort-covered : (i : ℕ) (ss : List TextSpan) → covered i (sort_spans ss) ≡ covered i ss
unfolding sort_spans
sort-covered i [] = refl
sort-covered i (s ∷ ss) =
    insert-covered i s (sort_spans ss) ∙ ap (λ b. covers i s || b) (sort-covered i ss)

join-covers :
    (i : ℕ) (a b : TextSpan)
    → a.start ≤ b.start
    → b.start < a.end
    → covers i (record a { end = max a.end b.end }) ≡ (covers i a || covers i b)
join-covers i a b h l = ground arith

merge_onto-covered :
    (i : ℕ) (last : TextSpan) (ss : List TextSpan)
    → Rises last.start ss
    → covered i (merge_onto last ss) ≡ (covers i last || covered i ss)
unfolding merge_onto
merge_onto-covered i last [] r = refl
merge_onto-covered i last (s ∷ ss) r = elim (Bool-cases (ltb s.start last.end)) [
  | inl e ↦ rw e (
      merge_onto-covered i (record last { end = max last.end s.end }) ss
        (Rises-weaken last.start s.start ss r.0 r.1)
      ∙ ap (λ b. b || covered i ss) (join-covers i last s r.0 (ltb→lt _ _ e))
      ∙ or_assoc (covers i last) (covers i s) (covered i ss))
  | inr e ↦ rw e (ap (λ b. covers i last || b) (merge_onto-covered i s ss r.1))
]

merge-covered :
    (i : ℕ) (ss : List TextSpan) → Rises 0 ss → covered i (merge_spans ss) ≡ covered i ss
unfolding merge_spans
merge-covered i [] r = refl
merge-covered i (s ∷ ss) r = merge_onto-covered i s ss r.1

-- Sorting and merging spans covers the bytes that the spans cover, no more and no fewer.
pub merged-covered :
    (i : ℕ) (ss : List TextSpan) → covered i (merge_spans (sort_spans ss)) ≡ covered i ss
merged-covered i ss = merge-covered i (sort_spans ss) (sort-Rises ss) ∙ sort-covered i ss
