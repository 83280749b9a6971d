-- ===== src/Ext/Patterns.antt =====
-- The regular expressions of the extensions that are finite: their matches in the order in which Go's
-- leftmost-first semantics prefers them.
use guardy.Base.{
  ℕ, zero, suc, ◌+◌, ◌≤◌, Bool, false, List, [], ◌∷◌, ◌++◌, arith, Option, none, some,
  if◌then◌else◌, length, drop, All, All-append, length-drop,
}
use guardy.Ext.Bytes.{Bytes}

pub data Pattern : Type 0 where
  class : (ℕ → Bool) → Pattern
  sequence choice : Pattern → Pattern → Pattern
  optional : Pattern → Pattern

abbrev pub concat_map : (ℕ → List ℕ) → List ℕ → List ℕ
concat_map f [] = []
concat_map f (n ∷ ns) = f n ++ concat_map f ns

abbrev pub shift : ℕ → List ℕ → List ℕ
shift k [] = []
shift k (n ∷ ns) = (k + n) ∷ shift k ns

-- The lengths of the matches at the front of a text, the preferred one first.
unfoldable pub match_lengths : Pattern → Bytes → List ℕ
match_lengths (class p) [] = []
match_lengths (class p) (c ∷ cs) = if p c then 1 ∷ [] else []
match_lengths (sequence a b) text =
    concat_map (λ n. shift n (match_lengths b (drop n text))) (match_lengths a text)
match_lengths (choice a b) text = match_lengths a text ++ match_lengths b text
match_lengths (optional a) text = match_lengths a text ++ 0 ∷ []

abbrev pub head_of : List ℕ → Option ℕ
head_of [] = none
head_of (n ∷ ns) = some n

-- `FindStringIndex` from the offset `at` on: the first place with a match, and the match that is
-- preferred there.
unfoldable pub find_from : Pattern → ℕ → Bytes → Option (ℕ × ℕ)
unfolding match_lengths
find_from p at [] = elim (head_of (match_lengths p [])) [ none ↦ none | some n ↦ some (at, at + n) ]
find_from p at (c ∷ cs) = elim (head_of (match_lengths p (c ∷ cs))) [
  | none ↦ find_from p (at + 1) cs
  | some n ↦ some (at, at + n)
]

-- A pattern `n` times over.
abbrev pub times : ℕ → Pattern → Pattern → Pattern
times zero p rest = rest
times (suc n) p rest = sequence p (times n p rest)

-- Up to `n` times, as many as there are.
abbrev pub up_to : ℕ → Pattern → Pattern
up_to zero p = class (λ c. false)
up_to (suc zero) p = optional p
up_to (suc (suc n)) p = optional (sequence p (up_to (suc n) p))

-- No match is longer than the text.
All-shift : (k m : ℕ) (ns : List ℕ) → All (λ n. k + n ≤ m) ns → All (λ n. n ≤ m) (shift k ns)
All-shift k m [] h = tt
All-shift k m (n ∷ ns) h = (h.0, All-shift k m ns h.1)

All-concat :
    (f : ℕ → List ℕ) (m : ℕ) (ns : List ℕ)
    → ((n : ℕ) → n ≤ m → All (λ k. k ≤ m) (f n))
    → All (λ n. n ≤ m) ns
    → All (λ n. n ≤ m) (concat_map f ns)
All-concat f m [] g h = tt
All-concat f m (n ∷ ns) g h =
    All-append (λ k. k ≤ m) (f n) (concat_map f ns) (g n h.0) (All-concat f m ns g h.1)

All-weaken : (k m j : ℕ) (ns : List ℕ) → All (λ n. n ≤ j) ns → k + j ≤ m → All (λ n. k + n ≤ m) ns
All-weaken k m j [] h g = tt
All-weaken k m j (n ∷ ns) h g = (omega (arith, h.0), All-weaken k m j ns h.1 g)

pub match_lengths-le :
    (p : Pattern) (text : Bytes) → All (λ n. n ≤ length text) (match_lengths p text)
unfolding match_lengths
match_lengths-le (class p) [] = tt
match_lengths-le (class p) (c ∷ cs) = ground arith
match_lengths-le (sequence a b) text =
    All-concat (λ n. shift n (match_lengths b (drop n text))) (length text) (match_lengths a text)
      (λ n h. All-shift n (length text) (match_lengths b (drop n text)) (
        All-weaken n (length text) (length (drop n text)) _ (match_lengths-le b (drop n text))
          (omega (arith, length-drop {0} n text))))
      (match_lengths-le a text)
match_lengths-le (choice a b) text =
    All-append (λ n. n ≤ length text) (match_lengths a text) (match_lengths b text)
      (match_lengths-le a text) (match_lengths-le b text)
match_lengths-le (optional a) text =
    All-append (λ n. n ≤ length text) (match_lengths a text) (0 ∷ []) (match_lengths-le a text)
      (omega arith)
