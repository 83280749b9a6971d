-- ===== src/Release/Progress.antt =====
-- The rounds of the processor suffice: a write without an error took every byte, and a completion
-- without an error left none.
use guardy.Base.{
  ℕ, zero, suc, ◌+◌, ◌-◌, ◌≤◌, min, ltb, leb, ◌==◌, Bool, true, false, ◌&&◌, ◌≡◌, inl, inr, refl,
  subst, ◌∙◌, List, [], ◌∷◌, Option, none, some, is_some, if◌then◌else◌, length, take, drop,
  Bool-cases, Option-cases, arith, length-drop,
}
use guardy.Fault.Tree.{Error}
use guardy.Release.{
  Encoding, StreamConfig, StreamProcessor, StreamCategory, ReleaseError, no_decision, fail,
}
use guardy.Release.Steps.{
  received, release_received, with_count, accept_input, admitted, write_context, with_error,
  error_or, StreamError, no_error, closed_pipe, budget, counts_lines,
}

-- A write that returns no error has accepted `n` bytes.
abbrev AcceptsAll : {W : Type 0} → ℕ → StreamProcessor W × ℕ × Option ReleaseError → Type 0
AcceptsAll n (s, count, e) = is_some e ≡ false → count ≡ n

module _ {W : Type 0} (encoding : Encoding) (ctx_err : W → Option Error)
    (cfg : StreamConfig W) where
  failed-AcceptsAll :
      (n accepted : ℕ) (s : StreamProcessor W) (c : StreamCategory) (e : Error)
      → AcceptsAll n (with_count encoding ctx_err cfg accepted (fail cfg s c e no_decision))
  unfolding fail
  failed-AcceptsAll n accepted s c e = λ h. cc

  -- A call of `acceptInput` that returns no error has accepted all the bytes it was given: as many
  -- rounds as bytes are enough.
  pub accept_input-AcceptsAll :
      (fuel : ℕ) (s : StreamProcessor W) (accepted : ℕ) (p : List ℕ)
      → length p ≤ fuel
      → AcceptsAll (accepted + length p) (accept_input encoding ctx_err cfg fuel s accepted p)
  unfolding accept_input
  accept_input-AcceptsAll zero s accepted [] h = λ e. omega arith
  accept_input-AcceptsAll zero s accepted (c ∷ p) h = absurd (omega arith)
  accept_input-AcceptsAll (suc fuel) s accepted [] h = λ e. omega arith
  accept_input-AcceptsAll (suc fuel) s accepted (c ∷ p) h =
      let room = budget encoding ctx_err cfg - s.pending.size in
      let k = min room (suc (length p)) in
      let left : length (drop k (c ∷ p)) ≡ suc (length p) - k = length-drop k (c ∷ p) in
      let t =
        release_received encoding ctx_err cfg (received encoding ctx_err cfg s (take k (c ∷ p))) in
      elim (Bool-cases
        (counts_lines encoding ctx_err cfg && leb cfg.max_unit_bytes s.pending.size)) [
          | inl f ↦ rw f (failed-AcceptsAll _ accepted s _ _)
          | inr f ↦ rw f (elim (Bool-cases (room == 0)) [
            | inl z ↦ rw z (failed-AcceptsAll _ accepted s _ _)
            | inr z ↦ rw z (elim (Option-cases t.1) [
              | inr (err, g) ↦ rw g (λ e. cc)
              | inl g ↦ rw g (
                  subst
                    (λ n.
                      AcceptsAll n (
                        accept_input encoding ctx_err cfg fuel t.0 (accepted + k) (drop k (c ∷ p))))
                    (ground (arith, left))
                    (accept_input-AcceptsAll fuel t.0 (accepted + k) (drop k (c ∷ p))
                      (ground (arith, left, h))))
            ])
          ])
        ]

  admitted-AcceptsAll :
      (s : StreamProcessor W) (p : List ℕ)
      → AcceptsAll (length p) (admitted encoding ctx_err cfg s p)
  unfolding admitted
  admitted-AcceptsAll s p =
      elim (Bool-cases (ltb (cfg.max_input_bytes - s.outcome.received_bytes) (length p))) [
        | inl e ↦ rw e (failed-AcceptsAll _ 0 s _ _)
        | inr e ↦ rw e (elim (Option-cases (ctx_err s.world)) [
          | inr (err, f) ↦ rw (f, admitted) (failed-AcceptsAll _ 0 s _ err)
          | inl f ↦
              rw (f, admitted)
                (λ k. accept_input-AcceptsAll (length p) s 0 p (omega arith) k ∙ omega arith)
        ])
      ]

  abbrev AllIfNoError : ℕ → StreamProcessor W × ℕ × StreamError → Type 0
  AllIfNoError n (s, count, e) = e ≡ no_error → count ≡ n

  with_error-AllIfNoError :
      (n : ℕ) (r : StreamProcessor W × ℕ × Option ReleaseError)
      → AcceptsAll n r
      → AllIfNoError n (with_error encoding ctx_err cfg r)
  with_error-AllIfNoError n (s, count, none) h = λ e. h refl
  with_error-AllIfNoError n (s, count, some err) h = λ e. cc

  closed-AllIfNoError :
      (n : ℕ) (s : StreamProcessor W) (e : Option ReleaseError)
      → AllIfNoError n (s, 0, error_or e closed_pipe)
  closed-AllIfNoError n s none = λ e. cc
  closed-AllIfNoError n s (some err) = λ e. cc

  AllIfNoError-if :
      (n : ℕ) (b : Bool) (x y : StreamProcessor W × ℕ × StreamError)
      → AllIfNoError n x
      → AllIfNoError n y
      → AllIfNoError n (if b then x else y)
  AllIfNoError-if n true x y h k = h
  AllIfNoError-if n false x y h k = k

  closed-error : (e : Option ReleaseError) → ¬ (error_or e closed_pipe ≡ no_error)
  closed-error none = λ e. cc
  closed-error (some err) = λ e. cc

  -- A write that returns no error has taken every byte of its input, so the rounds of its loop are
  -- enough; one on a terminal processor returns an error, takes no byte and changes nothing.
  pub write_context-all :
      (s : StreamProcessor W) (p : List ℕ)
      → let r = write_context encoding ctx_err cfg s p in
        (r.2 ≡ no_error → r.1 ≡ length p)
        × (s.outcome.terminal ≡ true → (¬ (r.2 ≡ no_error)) × (r.1 ≡ 0) × (r.0 ≡ s))
  unfolding write_context
  write_context-all s p = (
    AllIfNoError-if (length p) s.outcome.terminal _ _
        (closed-AllIfNoError (length p) s s.terminal_err)
        (with_error-AllIfNoError (length p) (admitted encoding ctx_err cfg s p)
          (admitted-AcceptsAll s p)),
    λ t. rw t (closed-error s.terminal_err, refl, refl),
  )
