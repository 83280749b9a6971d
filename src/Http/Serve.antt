-- ===== src/Http/Serve.antt =====
-- http_guard.go: `serveGuard` and `deliverHTTPRequest`.
use guardy.Base.{
  ℕ, ltb, Bool, true, false, not, ◌||◌, ◌&&◌, Option, none, some, is_some, if◌then◌else◌, length,
}
use guardy.Kinds.{redact, same_action}
use guardy.Decision.{
  RunResult, decision_of, policy_decision, is_system_fault, is_terminal, is_retryable,
}
use guardy.Fault.Tree.{Error, leaf}
use guardy.Fault.Walk.{callback_cancellation}
use guardy.Scope.{Scope}
use guardy.Pipeline.Rules.{Outcome}
use guardy.Boundary.{ScopeAnswer, scoped, scope_failed, scope_of}
use guardy.Ext.Bytes.{Bytes}
use guardy.Http.{
  Request, Response, served, GuardConfig, Called, close_owned, adopt, drop_body, finish_callback,
  restore_body, borrow, is_scope_incomplete, json_error, json_scope_error, json_decision_error,
  validation_failed,
}

-- What `io.ReadAll` of the limited body gives.
pub data Reading : Type 0 where
  content : Bytes → Reading
  unreadable : Error → Reading
  too_large : Reading

abbrev pub read_error : Reading → Option Error
read_error (content text) = none
read_error (unreadable e) = some e
read_error too_large = some (leaf "http: request body too large")

-- `http.MaxBytesReader` stops behind the limit, before it sees a later error.
unfoldable pub limited : ℕ → Bytes × Option Error → Reading
limited limit (text, err) =
    if ltb limit (length text)
    then too_large
    else elim err [ none ↦ content text | some e ↦ unreadable e ]

-- What the middleware is given: the context, what closing a wrapper returns, the bytes of the request
-- with the error that ends them, the callbacks and the pipeline under a scope.
pub record Host (W T : Type 0) : Type 0 where
  pub ctx_err : W → Option Error
  pub close_err : ℕ → Option Error
  pub incoming : W → (Bytes × Option Error) × W
  pub extractor : W → Bytes → Called T × W
  pub injector : W → T → Called (Unit {0}) × W
  pub run : Option Scope → W → T → Outcome T × W

module _ {W T : Type 0} (host : Host W T) (cfg : GuardConfig W) where
  abbrev pub Answered : Type 0
  Answered = Response × Request W

  -- The deferred close of the body that was handed off.
  abbrev pub closed_after : Response → ℕ → Request W → Answered
  closed_after response k r = (response, (close_owned host.close_err k r).1)

  unfoldable pub hand_off : Request W → Answered
  hand_off r =
      let (k, s) = adopt host.close_err r in
      closed_after (if is_some (host.ctx_err s.world) then validation_failed else served s.contents)
        k s

  abbrev pub inject_failed : Response
  inject_failed = json_error 500 "inject_failed" "injection failed"

  -- What follows an injection: `keep` tells whether it succeeded.
  abbrev pub after_finish : Bool → Option Error × Request W → Answered
  after_finish true (none, r) = hand_off r
  after_finish true (some e, r) =
      let (k, s) = adopt host.close_err r in
      (inject_failed, (finish_callback host.close_err k false s).1)
  after_finish false (err, r) = (inject_failed, r)

  unfoldable pub inject : ℕ → Called (Unit {0}) × W → Request W → Answered
  inject borrowed (c, w) r =
      let s = borrow host.close_err borrowed (c, w) r in
      let keep =
        not (is_some (callback_cancellation (host.ctx_err w) c.error)) && not (is_some c.error) in
      after_finish keep (finish_callback host.close_err borrowed keep s)

  unfoldable pub deliver_request : Bytes → RunResult T → Request W → Answered
  deliver_request text result r =
      let (borrowed, s) = restore_body host.close_err text r in
      if same_action (decision_of result.reports).action redact
      then inject borrowed (host.injector s.world result.output) s
      else hand_off s

  unfoldable pub after_run : Bytes → Outcome T × W → Request W → Answered
  after_run text (o, w) r =
      let s = record r { world = w } in
      elim o.error [
        | some e ↦ (if is_scope_incomplete e then json_scope_error e else validation_failed, s)
        | none ↦
            let d = policy_decision o.result in
            if is_system_fault d
            then (validation_failed, s)
            else if is_terminal d || is_retryable d
            then (json_decision_error d, s)
            else deliver_request text o.result s
      ]

  abbrev pub after_scope : Bytes → T → ScopeAnswer × W → Request W → Answered
  after_scope text input (scope_failed e, w) r = (validation_failed, record r { world = w })
  after_scope text input (scoped scope, w) r = after_run text (host.run scope w input) r

  abbrev pub after_extract : Bytes → Called T × W → Option Error × Request W → Answered
  after_extract text (c, w) (close_error, r) =
      if is_some (callback_cancellation (host.ctx_err w) c.error) || is_some close_error
      then (validation_failed, r)
      else if is_some c.error
      then (json_error 400 "invalid_input" "extraction failed", r)
      else after_scope text c.value (scope_of host.ctx_err cfg.scope_factory r.world) r

  unfoldable pub extract : Bytes → Request W → Answered
  extract text r =
      let (borrowed, s) = restore_body host.close_err text r in
      let answer = host.extractor s.world text in
      after_extract text answer
        (finish_callback host.close_err borrowed false (borrow host.close_err borrowed answer s))

  abbrev pub after_content : Reading → Request W → Answered
  after_content (content text) r = extract text r
  after_content (unreadable e) r = (json_error 400 "invalid_input" "request body invalid", r)
  after_content too_large r = (json_error 413 "input_too_large" "request body too large", r)

  unfoldable pub after_read : ℕ → Reading → Request W → Answered
  after_read original reading r =
      let (close_error, s) = close_owned host.close_err original r in
      let t = drop_body host.close_err s in
      if is_some (callback_cancellation (host.ctx_err t.world) (read_error reading))
        || is_some close_error
      then (validation_failed, t)
      else after_content reading t

  -- The request is answered with an error at once when its context has ended.
  unfoldable pub serve_guard : Request W → Answered
  serve_guard r =
      let (original, s) = adopt host.close_err r in
      if is_some (host.ctx_err s.world)
      then (validation_failed, drop_body host.close_err (close_owned host.close_err original s).1)
      else (let (reading, w) = host.incoming s.world in
          after_read original (limited cfg.max_body_bytes reading) (record s { world = w }))
