-- ===== src/Http/Explained.antt =====
-- What an answer of the middleware says of the request that it answers.
use guardy.Base.{ℕ, ◌<◌, ◌≤◌, true, false, ◌||◌, ◌≡◌, ◌⊎◌, Option, none, some, is_some, length}
use guardy.Kinds.{redact, same_action, FailureDisposition}
use guardy.Fault.Tree.{Error}
use guardy.Fault.Walk.{callback_cancellation}
use guardy.Decision
use guardy.Decision.{
  RunResult, decision_of, policy_decision, is_system_fault, is_terminal, is_retryable,
}
use guardy.Pipeline.Rules.{Outcome}
use guardy.Scope.{Scope}
use guardy.Boundary.{scoped, scope_failed, scope_of}
use guardy.Ext.Bytes.{Bytes}
use guardy.Http.{
  Request, Response, served, answered, ErrorBody, GuardConfig, close_owned, adopt, drop_body,
  finish_callback, restore_body, borrow, is_scope_incomplete,
}
use guardy.Http.Serve.{Host, limited, read_error}

module _ {W T : Type 0} (host : Host W T) (cfg : GuardConfig W) (r : Request W) where
  -- The request with its body in a wrapper, and after that body was read, closed and dropped.
  abbrev pub start : Request W
  start = (adopt host.close_err r).1

  abbrev pub closing : Option Error × Request W
  closing =
      close_owned host.close_err (adopt host.close_err r).0
        (record start { world = (host.incoming start.world).1 })

  abbrev pub read : Request W
  read = drop_body host.close_err closing.1

  -- The bytes of the request, and the error that ends them.
  abbrev pub arrived : Bytes × Option Error
  arrived = (host.incoming start.world).0

  -- The request that is lent to the extractor, and what is left when the extractor is done.
  abbrev pub lent : Bytes → ℕ × Request W
  lent text = restore_body host.close_err text read

  abbrev pub finished : Bytes → Option Error × Request W
  finished text =
      let (borrowed, s) = lent text in
      finish_callback host.close_err borrowed false
        (borrow host.close_err borrowed (host.extractor s.world text) s)

  -- The body is the whole of what was received, within the limit, and the extractor takes it.
  pub record Extracted (text : Bytes) : Type 0 where
    pub whole : arrived ≡ (text, none)
    pub fits : length text ≤ cfg.max_body_bytes
    pub quiet : (host.extractor (lent text).1.world text).0.error ≡ none

  -- A run of the pipeline over what was extracted, under the scope of the factory.
  pub record Run (text : Bytes) : Type 0 where
    pub extracted : Extracted text
    pub scope : Option Scope
    pub world : W
    pub scope_given :
        scope_of host.ctx_err cfg.scope_factory (finished text).1.world ≡ (scoped scope, world)

  abbrev pub outcome : {text : Bytes} → Run text → Outcome T
  outcome {text} run =
      (host.run run.scope run.world (host.extractor (lent text).1.world text).0.value).0

  -- A run without an error whose decision lets the request pass.
  pub record Passing {text : Bytes} (run : Run text) : Type 0 where
    pub clean : (outcome run).error ≡ none
    pub passes :
        Decision.effective_disposition (policy_decision (outcome run).result)
        ≡ FailureDisposition.none

  abbrev pub Redacts : {text : Bytes} → Run text → Type 0
  Redacts run = same_action (decision_of (outcome run).result.reports).action redact ≡ true

  -- Why a status 400 is given.
  pub data Invalid : Type 0 where
    unreadable : (e : Error) → arrived.1 ≡ some e → Invalid
    not_extracted :
        (text : Bytes)
        → arrived ≡ (text, none)
        → is_some (host.extractor (lent text).1.world text).0.error ≡ true
        → Invalid
    scope_lacking :
        (text : Bytes) (run : Run text) (e : Error)
        → (outcome run).error ≡ some e
        → is_scope_incomplete e ≡ true
        → Invalid

  -- Why a status 500 is given.
  pub data Failure : Type 0 where
    ended_early : is_some (host.ctx_err start.world) ≡ true → Failure
    reading_failed :
        (is_some (
              callback_cancellation
                (host.ctx_err read.world)
                (read_error (limited cfg.max_body_bytes arrived)))
            || is_some closing.0)
          ≡ true
        → Failure
    extraction_failed :
        (text : Bytes)
        → arrived ≡ (text, none)
        → (let (c, w) = host.extractor (lent text).1.world text in
            is_some (callback_cancellation (host.ctx_err w) c.error) || is_some (finished text).0)
          ≡ true
        → Failure
    no_scope :
        (text : Bytes) (e : Error) (w : W)
        → Extracted text
        → scope_of host.ctx_err cfg.scope_factory (finished text).1.world ≡ (scope_failed e, w)
        → Failure
    run_failed :
        (text : Bytes) (run : Run text) (e : Error)
        → (outcome run).error ≡ some e
        → is_scope_incomplete e ≡ false
        → Failure
    fault :
        (text : Bytes) (run : Run text)
        → (outcome run).error ≡ none
        → is_system_fault (policy_decision (outcome run).result) ≡ true
        → Failure
    not_handed_off :
        (text : Bytes) (run : Run text)
        → Passing run
        → Redacts run ⊎ ((w : W) × (is_some (host.ctx_err w) ≡ true))
        → Failure

  -- The handler is served after a passing run, with the bytes received unless the run redacted them.
  pub data Explained : Response → Type 0 where
    passed :
        (text contents : Bytes) (run : Run text)
        → Passing run
        → (same_action (decision_of (outcome run).result.reports).action redact ≡ false
            → contents ≡ text)
        → Explained (served contents)
    refused :
        (status : ℕ) (body : ErrorBody) (text : Bytes) (run : Run text)
        → status ≡ 422
        → (outcome run).error ≡ none
        → is_system_fault (policy_decision (outcome run).result) ≡ false
        → (is_terminal (policy_decision (outcome run).result)
            || is_retryable (policy_decision (outcome run).result))
          ≡ true
        → Explained (answered status body)
    oversized :
        (status : ℕ) (body : ErrorBody)
        → status ≡ 413
        → cfg.max_body_bytes < length arrived.0
        → Explained (answered status body)
    invalid :
        (status : ℕ) (body : ErrorBody)
        → status ≡ 400
        → length arrived.0 ≤ cfg.max_body_bytes
        → Invalid
        → Explained (answered status body)
    failed :
        (status : ℕ) (body : ErrorBody) → status ≡ 500 → Failure → Explained (answered status body)
