-- ===== src/Release/Terminal.antt =====
-- The terminal state of a processor: it is reached by every error and by every completion, it is never
-- left, and with a whole response nothing is sent before it.
use guardy.Base.{
  ℕ, zero, suc, ltb, ◌==◌, Bool, true, false, ◌≡◌, inl, inr, refl, ap, List, Option, none, some,
  is_some, if◌then◌else◌, length, Bool-cases, Option-cases,
}
use guardy.Decision.{Decision}
use guardy.Fault.Tree.{Error}
use guardy.Route.{ℤ}
use guardy.Release.{
  Encoding, StreamConfig, StreamProcessor, StreamStage, StreamCategory, Result, is_whole_response,
  no_decision, fail, observe, observe_outcome, stream_limit, stream_timeout,
}
use guardy.Release.Units.{NextUnit, unit, no_unit, unit_limit_error}
use guardy.Release.Approval.{
  Approval, refused, approved, valid_count, write_error, settle_write, settle, validate_and_release,
}
use guardy.Release.Steps.{
  release_unit, next, after_unit, release_round, release_pending, finish, release_all, completed,
  complete, abort,
}

-- A result that carries an error is terminal.
abbrev pub EndsWithError : {W : Type 0} → Result W → Type 0
EndsWithError (s, e) = is_some e ≡ true → s.outcome.terminal ≡ true

module _ {W : Type 0} (cfg : StreamConfig W) where
  pub observe-terminal :
      (s : StreamProcessor W) (stage : StreamStage)
      → ((observe cfg s stage).outcome ≡ s.outcome) × ((observe cfg s stage).sent ≡ s.sent)
  unfolding observe observe_outcome
  observe-terminal s stage = elim (Option-cases cfg.observer) [
    | inl e ↦ rw (e, observe_outcome) (refl, refl)
    | inr (o, e) ↦ rw (e, observe_outcome) (refl, refl)
  ]

  pub fail-terminal :
      (s : StreamProcessor W) (c : StreamCategory) (e : Error) (d : Decision)
      → (fail cfg s c e d).0.outcome.terminal ≡ true
  unfolding fail
  fail-terminal s c e d = ap (λ o. o.terminal) (observe-terminal _ _).0

module _ {W : Type 0} (encoding : Encoding) (cfg : StreamConfig W) where
  settle_write-EndsWithError :
      (s : StreamProcessor W) (value : List ℕ) (d : Decision) (stage : StreamStage) (count : ℤ)
      (err : Option Error)
      → EndsWithError (settle_write encoding cfg s value d stage count err)
  unfolding settle_write
  settle_write-EndsWithError s value d stage count err =
      elim (Option-cases (valid_count count (length value))) [
        | inl e ↦ rw (e, settle_write) (λ h. fail-terminal cfg s _ _ d)
        | inr (k, e) ↦
            rw (e, settle_write)
              (elim (Option-cases (write_error err k (length value))) [
                | inl w ↦ rw (w, settle_write) (λ h. cc)
                | inr (f, w) ↦ rw (w, settle_write) (λ h. fail-terminal cfg _ _ f d)
              ])
      ]

  settle-EndsWithError :
      (s : StreamProcessor W) (stage : StreamStage) (r : Approval × W)
      → EndsWithError (settle encoding cfg s stage r)
  unfolding settle
  settle-EndsWithError s stage (refused c e d, w) = λ h. fail-terminal cfg _ c e d
  settle-EndsWithError s stage (approved value d, w) =
      let ((count, err), v) = cfg.transport w value in
      settle_write-EndsWithError _ value d stage count err

  validate_and_release-EndsWithError :
      (s : StreamProcessor W) (value : List ℕ) (stage : StreamStage)
      → EndsWithError (validate_and_release encoding cfg s value stage)
  unfolding validate_and_release
  validate_and_release-EndsWithError s value stage = settle-EndsWithError s stage _

module _ {W : Type 0} (encoding : Encoding) (ctx_err : W → Option Error)
    (cfg : StreamConfig W) where
  after_unit-EndsWithError :
      (k : ℕ) (more : StreamProcessor W → Result W) (r : Result W)
      → ((t : StreamProcessor W) → EndsWithError (more t))
      → EndsWithError r
      → EndsWithError (after_unit encoding ctx_err cfg more k r)
  after_unit-EndsWithError k more (t, some e) h a = a
  after_unit-EndsWithError k more (t, none) h a = h _

  release_round-EndsWithError :
      (more : StreamProcessor W → Result W) (r : StreamProcessor W × NextUnit)
      → ((t : StreamProcessor W) → EndsWithError (more t))
      → EndsWithError (release_round encoding ctx_err cfg more r)
  unfolding release_round release_unit
  release_round-EndsWithError more (s, no_unit c e) h = λ k. fail-terminal cfg s c e no_decision
  release_round-EndsWithError more (s, unit k) h = elim (Bool-cases (k == 0)) [
    | inl z ↦ rw z (λ e. cc)
    | inr z ↦ rw z (elim (Bool-cases (ltb cfg.max_unit_bytes k)) [
      | inl l ↦ rw l (λ e. fail-terminal cfg s stream_limit unit_limit_error no_decision)
      | inr l ↦ rw l (
          after_unit-EndsWithError k more _ h
            (validate_and_release-EndsWithError encoding cfg _ _ _))
    ])
  ]

  release_pending-EndsWithError :
      (fuel : ℕ) (s : StreamProcessor W) (final : Bool)
      → EndsWithError (release_pending encoding ctx_err cfg fuel s final)
  unfolding release_pending
  release_pending-EndsWithError zero s final = λ e. cc
  release_pending-EndsWithError (suc fuel) s final = elim (Bool-cases (s.pending.size == 0)) [
    | inl z ↦ rw z (λ e. cc)
    | inr z ↦ rw z (
        release_round-EndsWithError _ (next encoding ctx_err cfg s final)
          (λ t. release_pending-EndsWithError fuel t final))
  ]

  release_all-EndsWithError :
      (s : StreamProcessor W) → EndsWithError (release_all encoding ctx_err cfg s)
  unfolding release_all
  release_all-EndsWithError s = elim (Bool-cases (is_whole_response cfg.profile)) [
    | inr e ↦ rw e (release_pending-EndsWithError s.pending.size s true)
    | inl e ↦ rw e (elim (Bool-cases (ltb cfg.max_unit_bytes s.pending.size)) [
      | inl f ↦ rw f (λ h. fail-terminal cfg s stream_limit unit_limit_error no_decision)
      | inr f ↦ rw f (validate_and_release-EndsWithError encoding cfg _ _ _)
    ])
  ]

  finish-terminal :
      (r : Result W) → EndsWithError r → (finish encoding ctx_err cfg r).0.outcome.terminal ≡ true
  finish-terminal (s, some e) h = h refl
  finish-terminal (s, none) h = ap (λ o. o.terminal) (observe-terminal cfg _ _).0

  completed-terminal :
      (s : StreamProcessor W) → (completed encoding ctx_err cfg s).0.outcome.terminal ≡ true
  unfolding completed
  completed-terminal s = elim (Option-cases (ctx_err s.world)) [
    | inr (err, f) ↦ rw (f, completed) (fail-terminal cfg s stream_timeout err no_decision)
    | inl f ↦ rw (f, completed) (finish-terminal _ (release_all-EndsWithError s))
  ]

  terminal-if :
      (b : Bool) (x y : Result W)
      → (b ≡ true → x.0.outcome.terminal ≡ true)
      → y.0.outcome.terminal ≡ true
      → (if b then x else y).0.outcome.terminal ≡ true
  terminal-if true x y h k = h refl
  terminal-if false x y h k = k

  -- Completing and aborting leave the processor terminal in every profile, whether they succeed or
  -- fail.
  pub complete-terminal :
      (s : StreamProcessor W) (cause : Option Error)
      → ((complete encoding ctx_err cfg s).0.outcome.terminal ≡ true)
        × ((abort encoding ctx_err cfg s cause).0.outcome.terminal ≡ true)
  unfolding complete abort
  complete-terminal s cause = (
    terminal-if s.outcome.terminal _ _ (λ e. e) (completed-terminal s),
    terminal-if s.outcome.terminal _ _ (λ e. e) (fail-terminal cfg s _ _ no_decision),
  )
