-- ===== src/Ext/Pii/Enough.antt =====
-- The rounds that the searches for personal data are given are enough.
use guardy.Base.{
  ℕ, zero, suc, ◌+◌, ◌≤◌, ◌<◌, ltb, false, not, ◌&&◌, ◌≡◌, refl, ap, subst, arith, ltb→lt, [], ◌∷◌,
  if◌then◌else◌, length, length-drop, drop, take, get_or, Bool-cases, Option-cases, inl, inr,
}
use guardy.Release.Utf8.{rune_size, lead}
use guardy.Ext.Bytes.{Bytes}
use guardy.Ext.Runes.{Categories, last_rune, is_word_rune}
use guardy.Ext.Patterns.{find_from}
use guardy.Ext.Pii.{
  email_domain_byte, domain_from, bounded_start, pii_boundary, Shape, pattern_of, pattern_spans,
  next_from, next_pii_start, span_if, fits,
}
use guardy.Ext.Pii.Found.{MatchIn, find-MatchIn}

rune_size-pos : (text : Bytes) → 1 ≤ length text → 1 ≤ rune_size text
unfolding rune_size lead
rune_size-pos [] l = omega arith
rune_size-pos (c ∷ cs) l = ground arith

module _ (u : Categories) (input : Bytes) where
  step-pos : (offset : ℕ) → offset < length input → 1 ≤ rune_size (drop offset input)
  step-pos offset l =
      rune_size-pos (drop offset input) (omega (arith, length-drop {0} offset input))

  next_from-ge : (fuel offset : ℕ) → offset ≤ next_from u input fuel offset
  unfolding next_from
  next_from-ge zero offset = omega arith
  next_from-ge (suc fuel) offset =
      let rest = offset + rune_size (drop offset input) in
      elim (Bool-cases (ltb offset (length input))) [
        | inr e ↦ rw e (omega arith)
        | inl e ↦ elim (Bool-cases (is_word_rune u (last_rune (take offset input)))) [
          | inr w ↦ rw (e, w) (omega arith)
          | inl w ↦
              let here : offset ≤ next_from u input fuel rest =
                omega (arith, next_from-ge fuel rest) in
              rw (e, w) here
        ]
      ]

  next_pii_start-gt : (start : ℕ) → start < next_pii_start u input start
  unfolding next_pii_start
  next_pii_start-gt start = omega (arith, next_from-ge (length input) (start + 1))

  next_from-past :
      (fuel offset : ℕ) → length input ≤ offset → next_from u input fuel offset ≡ offset
  unfolding next_from
  next_from-past zero offset l = refl
  next_from-past (suc fuel) offset l =
      let e : ltb offset (length input) ≡ false = ground arith in rw e refl

  next_from-enough :
      (fuel more offset : ℕ)
      → fuel ≤ more
      → length input ≤ fuel + offset
      → next_from u input more offset ≡ next_from u input fuel offset
  unfolding next_from
  next_from-enough zero more offset m l = next_from-past more offset (omega arith)
  next_from-enough (suc fuel) zero offset m l = absurd (omega arith)
  next_from-enough (suc fuel) (suc more) offset m l =
      elim (Bool-cases (ltb offset (length input))) [
        | inr e ↦ rw e refl
        | inl e ↦
            let size = rune_size (drop offset input) in
            let ih =
              next_from-enough fuel more (offset + size) (omega arith)
                (omega (arith, step-pos offset (ltb→lt offset (length input) e))) in
            rw e (ap (λ n. if is_word_rune u (last_rune (take offset input)) then n else offset) ih)
      ]

  bounded_start-past :
      (fuel at end start : ℕ) → at ≤ start → bounded_start u input fuel at end start ≡ start
  unfolding bounded_start
  bounded_start-past zero at end start l = refl
  bounded_start-past (suc fuel) at end start l =
      let e : ltb start at ≡ false = ground arith in rw e refl

  bounded_start-enough :
      (fuel more at end start : ℕ)
      → fuel ≤ more
      → at ≤ fuel + start
      → bounded_start u input more at end start ≡ bounded_start u input fuel at end start
  unfolding bounded_start
  bounded_start-enough zero more at end start m l =
      bounded_start-past more at end start (omega arith)
  bounded_start-enough (suc fuel) zero at end start m l = absurd (omega arith)
  bounded_start-enough (suc fuel) (suc more) at end start m l =
      let ih =
        bounded_start-enough fuel more at end (next_pii_start u input start) (omega arith)
          (omega (arith, next_pii_start-gt start)) in
      ap (λ n. if ltb start at && not (pii_boundary u input start end) then n else start) ih

  domain_from-past :
      (fuel start end dot tld c : ℕ)
      → length input ≤ end
      → domain_from u input fuel start end dot tld c ≡ c
  unfolding domain_from
  domain_from-past zero start end dot tld c l = refl
  domain_from-past (suc fuel) start end dot tld c l =
      let e : ltb end (length input) ≡ false = ground arith in rw e refl

  domain_from-enough :
      (fuel more start end dot tld c : ℕ)
      → fuel ≤ more
      → length input ≤ fuel + end
      → domain_from u input more start end dot tld c ≡ domain_from u input fuel start end dot tld c
  unfolding domain_from
  domain_from-enough zero more start end dot tld c m l =
      domain_from-past more start end dot tld c (omega arith)
  domain_from-enough (suc fuel) zero start end dot tld c m l = absurd (omega arith)
  domain_from-enough (suc fuel) (suc more) start end dot tld c m l =
      ap (λ n. if ltb end (length input) && email_domain_byte (get_or input end 0) then n else c)
        (domain_from-enough fuel more start (end + 1) _ _ _ (omega arith) (omega arith))

  pattern_spans-past :
      (fuel : ℕ) (shape : Shape) (offset : ℕ)
      → length input ≤ offset
      → pattern_spans u input fuel shape offset ≡ []
  unfolding pattern_spans
  pattern_spans-past zero shape offset l = refl
  pattern_spans-past (suc fuel) shape offset l =
      let e : ltb offset (length input) ≡ false = ground arith in rw e refl

  pattern_spans-enough :
      (fuel more : ℕ) (shape : Shape) (offset : ℕ)
      → fuel ≤ more
      → length input ≤ fuel + offset
      → pattern_spans u input more shape offset ≡ pattern_spans u input fuel shape offset
  unfolding pattern_spans
  pattern_spans-enough zero more shape offset m l =
      pattern_spans-past more shape offset (omega arith)
  pattern_spans-enough (suc fuel) zero shape offset m l = absurd (omega arith)
  pattern_spans-enough (suc fuel) (suc more) shape offset m l =
      elim (Bool-cases (ltb offset (length input))) [
        | inr e ↦ rw e refl
        | inl e ↦ elim (Option-cases (find_from (pattern_of shape) offset (drop offset input))) [
          | inl q ↦ rw (e, q) refl
          | inr ((start, end), q) ↦
              let found =
                subst (MatchIn offset (offset + length (drop offset input))) q
                  (find-MatchIn (pattern_of shape) offset (drop offset input)) in
              let ih =
                pattern_spans-enough fuel more shape (next_pii_start u input start) (omega arith)
                  (omega (arith, found, next_pii_start-gt start)) in
              rw (e, q)
                (ap
                  (span_if (pii_boundary u input start end && fits u input shape start end) start
                    end)
                  ih)
        ]
      ]

  -- No round is cut off: with more rounds than the text has bytes, each of the loops gives the same: the
  -- searches for the expressions, the end of a domain, and the way from a start to a boundary.
  pub searches-enough :
      (more at end start : ℕ) (shape : Shape)
      → length input ≤ more
      → at ≤ length input
      → (pattern_spans u input more shape 0 ≡ pattern_spans u input (length input) shape 0)
        × (domain_from u input more start start 0 0 0
            ≡ domain_from u input (length input) start start 0 0 0)
        × (bounded_start u input more at end start
            ≡ bounded_start u input (length input) at end start)
        × (next_from u input more (start + 1) ≡ next_from u input (length input) (start + 1))
  searches-enough more at end start shape m l = (
    pattern_spans-enough (length input) more shape 0 m (omega arith),
    domain_from-enough (length input) more start start 0 0 0 m (omega arith),
    bounded_start-enough (length input) more at end start m (omega arith),
    next_from-enough (length input) more (start + 1) m (omega arith),
  )
