-- ===== src/Http/Released.antt =====
-- Which bodies are closed when the middleware has answered.
use guardy.Base.{
  ℕ, Bool, true, false, ◌||◌, inl, inr, Option, none, some, is_some, Bool-cases, Option-cases,
}
use guardy.Kinds.{redact, same_action}
use guardy.Fault.Tree.{Error}
use guardy.Fault.Walk.{callback_cancellation}
use guardy.Decision.{
  RunResult, decision_of, policy_decision, is_system_fault, is_terminal, is_retryable,
}
use guardy.Pipeline.Rules.{Outcome}
use guardy.Boundary.{ScopeAnswer, scoped, scope_failed}
use guardy.Ext.Bytes.{Bytes}
use guardy.Http.{
  Request, GuardConfig, Called, close_owned, adopt, finish_callback, restore_body,
  is_scope_incomplete,
}
use guardy.Http.Serve.{
  Host, Reading, content, unreadable, too_large, hand_off, after_finish, inject, deliver_request,
  after_run, after_scope, after_extract, extract, after_content, after_read, serve_guard,
  read_error,
}
use guardy.Http.Bodies.{
  Closed, ClosedBut, Tidy, finish-Closed, finish-Tidy, restore-but, restore-Tidy, borrow-but,
  adopt-but, close-Closed,
}

module _ {W T : Type 0} (host : Host W T) (cfg : GuardConfig W) where
  hand_off-Closed : (r : Request W) → Tidy r → Closed (hand_off host cfg r).1
  unfolding hand_off
  hand_off-Closed r h = close-Closed host.close_err _ _ (adopt-but host.close_err r h)

  finished-Closed :
      (p : Option Error × Request W) → Tidy p.1 → Closed (after_finish host cfg true p).1
  finished-Closed (none, r) h = hand_off-Closed r h
  finished-Closed (some e, r) h = finish-Closed host.close_err _ _ (adopt-but host.close_err r h)

  after_finish-Closed :
      (k : ℕ) (keep : Bool) (r : Request W)
      → ClosedBut k r
      → Closed (after_finish host cfg keep (finish_callback host.close_err k keep r)).1
  after_finish-Closed k false r h = finish-Closed host.close_err k r h
  after_finish-Closed k true r h = finished-Closed _ (finish-Tidy host.close_err k r h)

  inject-Closed :
      (k : ℕ) (answer : Called (Unit {0}) × W) (r : Request W)
      → ClosedBut k r
      → Closed (inject host cfg k answer r).1
  unfolding inject
  inject-Closed k (c, w) r h = after_finish-Closed k _ _ (borrow-but host.close_err k (c, w) r h)

  deliver-Closed :
      (text : Bytes) (result : RunResult T) (r : Request W)
      → Closed r
      → Closed (deliver_request host cfg text result r).1
  unfolding deliver_request
  deliver-Closed text result r h =
      elim (Bool-cases (same_action (decision_of result.reports).action redact)) [
        | inl e ↦ rw e (inject-Closed _ _ _ (restore-but host.close_err text r h))
        | inr e ↦ rw e (hand_off-Closed _ (restore-Tidy host.close_err text r h))
      ]

  after_run-Closed :
      (text : Bytes) (o : Outcome T × W) (r : Request W)
      → Closed r
      → Closed (after_run host cfg text o r).1
  unfolding after_run
  after_run-Closed text (o, w) r h = elim (Option-cases o.error) [
    | inr (e, q) ↦
        rw (q, after_run) (elim (Bool-cases (is_scope_incomplete e)) [ inl p ↦ h | inr p ↦ h ])
    | inl q ↦
        let d = policy_decision o.result in
        rw (q, after_run)
          (elim (Bool-cases (is_system_fault d)) [
            | inl f ↦ rw f h
            | inr f ↦ rw f (elim (Bool-cases (is_terminal d || is_retryable d)) [
              | inl t ↦ rw t h
              | inr t ↦ rw t (deliver-Closed text o.result (record r { world = w }) h)
            ])
          ])
  ]

  after_scope-Closed :
      (text : Bytes) (input : T) (answer : ScopeAnswer × W) (r : Request W)
      → Closed r
      → Closed (after_scope host cfg text input answer r).1
  after_scope-Closed text input (scope_failed e, w) r h = h
  after_scope-Closed text input (scoped s, w) r h = after_run-Closed text _ r h

  after_extract-Closed :
      (text : Bytes) (answer : Called T × W) (p : Option Error × Request W)
      → Closed p.1
      → Closed (after_extract host cfg text answer p).1
  after_extract-Closed text (c, w) (err, r) h =
      elim (Bool-cases (is_some (callback_cancellation (host.ctx_err w) c.error) || is_some err)) [
        | inl e ↦ rw e h
        | inr e ↦ rw e (elim (Bool-cases (is_some c.error)) [
          | inl f ↦ rw f h
          | inr f ↦ rw f (after_scope-Closed text c.value _ r h)
        ])
      ]

  extract-Closed : (text : Bytes) (r : Request W) → Closed r → Closed (extract host cfg text r).1
  unfolding extract
  extract-Closed text r h =
      let s = (restore_body host.close_err text r).1 in
      after_extract-Closed text (host.extractor s.world text) _ (
        finish-Closed host.close_err _ _ (
          borrow-but host.close_err _ (host.extractor s.world text) s
            (restore-but host.close_err text r h)))

  after_content-Closed :
      (reading : Reading) (r : Request W) → Closed r → Closed (after_content host cfg reading r).1
  after_content-Closed (content text) r h = extract-Closed text r h
  after_content-Closed (unreadable e) r h = h
  after_content-Closed too_large r h = h

  after_read-Closed :
      (k : ℕ) (reading : Reading) (r : Request W)
      → ClosedBut k r
      → Closed (after_read host cfg k reading r).1
  unfolding after_read
  after_read-Closed k reading r h =
      let shut = close-Closed host.close_err k r h in
      elim (Bool-cases (
        is_some (
          callback_cancellation (host.ctx_err (close_owned host.close_err k r).1.world)
            (read_error reading))
        || is_some (close_owned host.close_err k r).0)) [
          | inl e ↦ rw e shut
          | inr e ↦ rw e (after_content-Closed reading _ shut)
        ]

  -- However the request is answered, whatever the callbacks, the pipeline and the context do: every body
  -- that was wrapped is closed, the one handed to the next handler included. The request comes with
  -- no other open body than its own.
  pub serve_guard-Closed : (r : Request W) → Tidy r → Closed (serve_guard host cfg r).1
  unfolding serve_guard
  serve_guard-Closed r h =
      let but = adopt-but host.close_err r h in
      elim (Bool-cases (is_some (host.ctx_err (adopt host.close_err r).1.world))) [
        | inl e ↦ rw e (close-Closed host.close_err _ _ but)
        | inr e ↦ rw e (after_read-Closed _ _ _ but)
      ]
