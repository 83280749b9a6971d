-- ===== src/Http/Admitted.antt =====
-- Why the middleware answers as it does.
use guardy.Base.{
  ℕ, ◌≤◌, ltb, true, false, not, ◌||◌, ◌&&◌, ◌≡◌, inl, inr, refl, sym, subst, arith, Option, none,
  some, is_some, Bool-cases, Option-cases, length, ap, ◌∙◌,
}
use guardy.Kinds.{redact, same_action, FailureDisposition}
use guardy.Report.{zero_report}
use guardy.Report.Disposition.{effective_known}
use guardy.Fault.Tree.{Error}
use guardy.Fault.Walk.{callback_cancellation}
use guardy.Decision
use guardy.Decision.{
  Decision, RunResult, decision_of, policy_decision, is_system_fault, is_terminal, is_retryable,
}
use guardy.Boundary.{ScopeAnswer, scoped, scope_failed, scope_of}
use guardy.Ext.Bytes.{Bytes}
use guardy.Http.{
  Request, GuardConfig, Called, adopt, restore_body, is_scope_incomplete, json_scope_error,
  json_decision_error,
}
use guardy.Http.Serve.{
  Host, hand_off, after_finish, inject, deliver_request, after_run, after_scope, extract,
  after_content, after_read, serve_guard, limited, read_error,
}
use guardy.Http.Explained.{
  start, closing, read, arrived, lent, finished, Extracted, Run, outcome, Passing, Redacts,
  unreadable, not_extracted, scope_lacking, ended_early, reading_failed, extraction_failed,
  no_scope, run_failed, fault, not_handed_off, Explained, passed, refused, oversized, invalid,
  failed,
}

module _ {W T : Type 0} (host : Host W T) (cfg : GuardConfig W) (r : Request W) where
  module _ (text : Bytes) (run : Run host cfg r text) (p : Passing host cfg r run) where
    hand_off-Explained :
        (q : Request W)
        → (same_action (decision_of (outcome host cfg r run).result.reports).action redact ≡ false
            → (adopt host.close_err q).1.contents ≡ text)
        → Explained host cfg r (hand_off host cfg q).0
    unfolding hand_off
    hand_off-Explained q same =
        elim (Bool-cases (is_some (host.ctx_err (adopt host.close_err q).1.world))) [
          | inl e ↦ rw e (failed _ _ refl (not_handed_off text run p (inr (_, e))))
          | inr e ↦ rw e (passed text _ run p same)
        ]

    finished-Explained :
        (f : Option Error × Request W)
        → Redacts host cfg r run
        → Explained host cfg r (after_finish host cfg true f).0
    finished-Explained (none, q) e = hand_off-Explained q (λ f. cc)
    finished-Explained (some x, q) e = failed _ _ refl (not_handed_off text run p (inl e))

    inject-Explained :
        (k : ℕ) (answer : Called (Unit {0}) × W) (q : Request W)
        → Redacts host cfg r run
        → Explained host cfg r (inject host cfg k answer q).0
    unfolding inject
    inject-Explained k (c, w) q e =
        elim (Bool-cases (
          not (is_some (callback_cancellation (host.ctx_err w) c.error))
          && not (is_some c.error))) [
            | inl f ↦ rw f (finished-Explained _ e)
            | inr f ↦ rw f (failed _ _ refl (not_handed_off text run p (inl e)))
          ]

    deliver-Explained :
        (q : Request W)
        → Explained host cfg r (deliver_request host cfg text (outcome host cfg r run).result q).0
    unfolding deliver_request
    deliver-Explained q =
        elim (Bool-cases
          (same_action (decision_of (outcome host cfg r run).result.reports).action redact)) [
            | inl e ↦ rw e (inject-Explained _ _ _ e)
            | inr e ↦ rw e (
                hand_off-Explained (restore_body host.close_err text q).1
                  (λ f. unfold restore_body adopt in refl))
          ]

  passing :
      (d : Decision)
      → is_system_fault d ≡ false
      → (is_terminal d || is_retryable d) ≡ false
      → Decision.effective_disposition d ≡ FailureDisposition.none
  unfolding is_system_fault is_terminal is_retryable Decision.effective_disposition
  passing d f h = ground (
    arith,
    effective_known (record zero_report {
      action = d.action;
      disposition = d.disposition;
      payload_kind = d.payload_kind;
    }),
  )

  whole-fits :
      (text : Bytes)
      → Extracted host cfg r text
      → length (arrived host cfg r).0 ≤ cfg.max_body_bytes
  whole-fits text x =
      subst (λ (b : Bytes × Option Error). length b.0 ≤ cfg.max_body_bytes) (sym x.whole) x.fits

  after_run-Explained :
      (text : Bytes) (run : Run host cfg r text) (q : Request W)
      → Explained host cfg r
          (after_run host cfg text
            (host.run run.scope run.world
              (host.extractor (lent host cfg r text).1.world text).0.value)
            q).0
  unfolding after_run json_scope_error json_decision_error
  after_run-Explained text run q =
      let o = outcome host cfg r run in
      let d = policy_decision o.result in
      elim (Option-cases o.error) [
        | inr (e, k) ↦
            rw (k, after_run)
              (elim (Bool-cases (is_scope_incomplete e)) [
                | inl p ↦ rw p (
                    invalid _ _ refl (whole-fits text run.extracted) (scope_lacking text run e k p))
                | inr p ↦ rw p (failed _ _ refl (run_failed text run e k p))
              ])
        | inl k ↦
            rw (k, after_run)
              (elim (Bool-cases (is_system_fault d)) [
                | inl f ↦ rw f (failed _ _ refl (fault text run k f))
                | inr f ↦ rw f (elim (Bool-cases (is_terminal d || is_retryable d)) [
                  | inl t ↦ rw t (refused _ _ text run refl k f t)
                  | inr t ↦
                      rw t (
                        deliver-Explained text run (record { clean = k; passes = passing d f t }) _)
                ])
              ])
      ]

  after_scope-Explained :
      (text : Bytes) (answer : ScopeAnswer × W) (q : Request W)
      → Extracted host cfg r text
      → scope_of host.ctx_err cfg.scope_factory (finished host cfg r text).1.world ≡ answer
      → Explained host cfg r
          (after_scope host cfg text
            (host.extractor (lent host cfg r text).1.world text).0.value
            answer
            q).0
  after_scope-Explained text (scope_failed e, w) q x s = failed _ _ refl (no_scope text e w x s)
  after_scope-Explained text (scoped s, w) q x e =
      after_run-Explained text (record { extracted = x; scope = s; world = w; scope_given = e }) q

  is_some-none : {A : Type 0} (o : Option A) → is_some o ≡ false → o ≡ none
  is_some-none none e = refl
  is_some-none (some a) e = cc

  extract-Explained :
      (text : Bytes)
      → arrived host cfg r ≡ (text, none)
      → length text ≤ cfg.max_body_bytes
      → length (arrived host cfg r).0 ≤ cfg.max_body_bytes
      → Explained host cfg r (extract host cfg text (read host cfg r)).0
  unfolding extract
  extract-Explained text whole fits small =
      let (c, w) = host.extractor (lent host cfg r text).1.world text in
      elim (Bool-cases (
        is_some (callback_cancellation (host.ctx_err w) c.error)
        || is_some (finished host cfg r text).0)) [
          | inl e ↦ rw e (failed _ _ refl (extraction_failed text whole e))
          | inr e ↦ rw e (elim (Bool-cases (is_some c.error)) [
            | inl f ↦ rw f (invalid _ _ refl small (not_extracted text whole f))
            | inr f ↦ rw f (
                after_scope-Explained text _ _
                  (record { whole = whole; fits = fits; quiet = is_some-none _ f }) refl)
          ])
        ]

  limited-Explained :
      (got : Bytes × Option Error)
      → arrived host cfg r ≡ got
      → Explained host cfg r
          (after_content host cfg (limited cfg.max_body_bytes got) (read host cfg r)).0
  unfolding limited
  limited-Explained (text, err) e =
      let same : length (arrived host cfg r).0 ≡ length text =
        ap (λ (b : Bytes × Option Error). length b.0) e in
      elim (Bool-cases (ltb cfg.max_body_bytes (length text))) [
        | inl h ↦ rw h (oversized _ _ refl (ground (arith, same)))
        | inr h ↦ rw h (elim (Option-cases err) [
          | inl q ↦ rw q (extract-Explained text (rw (← q) e) (ground arith) (ground (arith, same)))
          | inr (x, q) ↦ rw q (
              invalid _ _ refl (ground (arith, same))
                (unreadable x (ap (λ (b : Bytes × Option Error). b.1) e ∙ q)))
        ])
      ]

  -- Every answer to a request is explained by that request. The handler is served only after a run of
  -- the pipeline, under the scope that the factory gave, over what the extractor made of the whole
  -- incoming body, which is within the limit; the run returned no error, its decision lets the request
  -- pass, and the contents are the bytes received unless the run redacted them. Status 422 answers such
  -- a run that denies or asks for a correction without a fault, 413 a body above the limit, and 400 a
  -- body within it that cannot be read or extracted or whose run finds its scope incomplete. Every
  -- other answer is a 500: the context had ended, reading, closing, extraction or the scope failed, the
  -- run failed or decided a fault, or a passing run could not be handed over, which takes a redaction
  -- or a context that has ended.
  pub serve_guard-Explained : Explained host cfg r (serve_guard host cfg r).0
  unfolding serve_guard after_read
  serve_guard-Explained = elim (Bool-cases (is_some (host.ctx_err (start host cfg r).world))) [
    | inl e ↦ rw e (failed _ _ refl (ended_early e))
    | inr e ↦
        rw e
          (elim (Bool-cases (
            is_some (
              callback_cancellation (host.ctx_err (read host cfg r).world)
                (read_error (limited cfg.max_body_bytes (arrived host cfg r))))
            || is_some (closing host cfg r).0)) [
              | inl f ↦ rw f (failed _ _ refl (reading_failed f))
              | inr f ↦ rw f (limited-Explained _ refl)
            ])
  ]
