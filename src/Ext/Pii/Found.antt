-- ===== src/Ext/Pii/Found.antt =====
-- Where the spans of personal data lie.
use guardy.Base.{
  ℕ, zero, suc, ◌+◌, ◌≤◌, ◌<◌, ltb, ◌==◌, Bool, true, false, not, ◌&&◌, List, [], ◌∷◌, ◌≡◌, ◌⊎◌,
  refl, subst, arith, ltb→lt, Option, none, some, if◌then◌else◌, length, length-drop, drop, All,
  All-append, Bool-cases, Option-cases, inl, inr, get_or,
}
use guardy.Ext.Bytes.{Bytes}
use guardy.Ext.Runes.{Categories}
use guardy.Ext.Spans.{TextSpan, InRange}
use guardy.Ext.Patterns.{Pattern, match_lengths, head_of, find_from, match_lengths-le}
use guardy.Ext.Pii.{
  email_domain_byte, domain_from, email_domain_end, bounded_start, local_start, pii_boundary,
  email_at, email_from, email_spans, Shape, phone, russian_phone, card, pattern_of, span_if,
  pattern_spans, found_spans, pii_spans,
}
use guardy.Ext.Pii.Merged.{Fits, merged-InRange, covered, merged-covered}

-- The result of a search: nothing, or a match behind `at` that ends by `n`.
abbrev pub MatchIn : ℕ → ℕ → Option (ℕ × ℕ) → Type 0
MatchIn at n none = Unit
MatchIn at n (some (start, end)) = (at ≤ start) × (start ≤ end) × (end ≤ n)

head-MatchIn : (at m : ℕ) (ns : List ℕ) (n : ℕ) → All (λ k. k ≤ m) ns → head_of ns ≡ some n → n ≤ m
head-MatchIn at m [] n a e = cc
head-MatchIn at m (k ∷ ns) n a e = ground (arith, a.0)

MatchIn-weaken :
    (at k : ℕ) (r : Option (ℕ × ℕ)) → MatchIn (at + 1) (at + 1 + k) r → MatchIn at (at + suc k) r
MatchIn-weaken at k none h = tt
MatchIn-weaken at k (some (start, end)) h = omega arith

pub find-MatchIn :
    (p : Pattern) (at : ℕ) (text : Bytes) → MatchIn at (at + length text) (find_from p at text)
unfolding find_from
find-MatchIn p at [] = elim (Option-cases (head_of (match_lengths p []))) [
  | inl e ↦ rw (e, find_from) tt
  | inr (n, e) ↦
      rw (e, find_from)
        (omega (arith, head-MatchIn at 0 (match_lengths p []) n (match_lengths-le p []) e))
]
find-MatchIn p at (c ∷ cs) = elim (Option-cases (head_of (match_lengths p (c ∷ cs)))) [
  | inl e ↦
      rw (e, find_from)
        (MatchIn-weaken at (length cs) (find_from p (at + 1) cs) (find-MatchIn p (at + 1) cs))
  | inr (n, e) ↦
      rw (e, find_from)
        (omega
          (arith, head-MatchIn at _ (match_lengths p (c ∷ cs)) n (match_lengths-le p (c ∷ cs)) e))
]

module _ (u : Categories) (input : Bytes) where
  -- An end of a domain that was found lies behind `start` and in the text.
  abbrev EndIn : ℕ → ℕ → Type 0
  EndIn start c = (c ≡ 0) ⊎ ((start < c) × (c ≤ length input))

  next-EndIn :
      (start end c : ℕ) (b : Bool)
      → start ≤ end
      → end < length input
      → EndIn start c
      → EndIn start (if b then end + 1 else c)
  next-EndIn start end c true h l e = inr (omega arith)
  next-EndIn start end c false h l e = e

  domain_from-EndIn :
      (fuel start end dot tld c : ℕ)
      → start ≤ end
      → EndIn start c
      → EndIn start (domain_from u input fuel start end dot tld c)
  unfolding domain_from
  domain_from-EndIn zero start end dot tld c h e = e
  domain_from-EndIn (suc fuel) start end dot tld c h e =
      elim (Bool-cases (ltb end (length input) && email_domain_byte (get_or input end 0))) [
        | inl g ↦ rw g (
            domain_from-EndIn fuel start (end + 1) _ _ _ (omega arith)
              (next-EndIn start end c _ h (ground arith) e))
        | inr g ↦ rw g e
      ]

  email_end-EndIn : (start : ℕ) → EndIn start (email_domain_end u input start)
  unfolding email_domain_end
  email_end-EndIn start = domain_from-EndIn _ start start 0 0 0 (omega arith) (inl refl)

  email_fits :
      (at start end : ℕ) (b : Bool)
      → EndIn (at + 1) end
      → (not (end == 0) && ltb start at && b) ≡ true
      → (start ≤ end) × (end ≤ length input)
  email_fits at start end b (inl z) e = ground arith
  email_fits at start end b (inr h) e = (ground (arith, h.0), h.1)

  email_at-Fits : (at : ℕ) → All (Fits (length input)) (email_at u input at)
  email_at-Fits at =
      let end = email_domain_end u input (at + 1) in
      let start = bounded_start u input (length input) at end (local_start u input at) in
      elim (Bool-cases (not (end == 0) && ltb start at && pii_boundary u input start end)) [
        | inl e ↦ rw e (
          email_fits at start end (pii_boundary u input start end) (email_end-EndIn (at + 1)) e,
          tt,
        )
        | inr e ↦ rw e tt
      ]

  email_from-Fits : (at : ℕ) (text : Bytes) → All (Fits (length input)) (email_from u input at text)
  unfolding email_from
  email_from-Fits at [] = tt
  email_from-Fits at (c ∷ cs) = elim (Bool-cases (c == b'@')) [
    | inl e ↦ rw e (
        All-append (Fits (length input)) (email_at u input at) _ (email_at-Fits at)
          (email_from-Fits (at + 1) cs))
    | inr e ↦ rw e (email_from-Fits (at + 1) cs)
  ]

  span_if-Fits :
      (b : Bool) (start end : ℕ) (ss : List TextSpan)
      → start ≤ end
      → end ≤ length input
      → All (Fits (length input)) ss
      → All (Fits (length input)) (span_if b start end ss)
  span_if-Fits true start end ss h k a = ((h, k), a)
  span_if-Fits false start end ss h k a = a

  pattern_spans-Fits :
      (fuel : ℕ) (shape : Shape) (offset : ℕ)
      → All (Fits (length input)) (pattern_spans u input fuel shape offset)
  unfolding pattern_spans
  pattern_spans-Fits zero shape offset = tt
  pattern_spans-Fits (suc fuel) shape offset = elim (Bool-cases (ltb offset (length input))) [
    | inr e ↦ rw (e, pattern_spans) tt
    | inl e ↦
        let text = drop offset input in
        let found = find_from (pattern_of shape) offset text in
        let lies = find-MatchIn (pattern_of shape) offset text in
        rw (e, pattern_spans)
          (elim (Option-cases found) [
            | inl f ↦ rw (f, pattern_spans) tt
            | inr ((start, end), f) ↦
                let m = subst (MatchIn offset (offset + length text)) f lies in
                rw (f, pattern_spans)
                  (span_if-Fits _ start end _ m.1
                    (omega (arith, ltb→lt _ _ e, length-drop {0} offset input))
                    (pattern_spans-Fits fuel shape _))
          ])
  ]

  -- The spans of the four searches.
  found-Fits : All (Fits (length input)) (found_spans u input)
  unfolding found_spans email_spans
  found-Fits =
      let searched = λ (shape : Shape). pattern_spans-Fits (length input) shape 0 in
      All-append (Fits (length input)) (email_spans u input) _ (email_from-Fits 0 input) (
        All-append (Fits (length input)) (pattern_spans u input (length input) phone 0) _
          (searched phone)
          (All-append (Fits (length input)) (pattern_spans u input (length input) russian_phone 0) _
            (searched russian_phone) (searched card)))

  -- The spans of personal data lie in the text, one behind the other, and cover each byte of every
  -- place that one of the four searches found, and no other byte.
  pub pii_spans-cover :
      InRange input 0 (pii_spans u input)
      × ((i : ℕ) → covered i (pii_spans u input) ≡ covered i (found_spans u input))
  unfolding pii_spans
  pii_spans-cover = (
    merged-InRange input (found_spans u input) found-Fits,
    λ i. merged-covered i (found_spans u input),
  )
