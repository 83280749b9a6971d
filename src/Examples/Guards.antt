-- ===== src/Examples/Guards.antt =====
-- A request whose run redacts its text, and one whose body is too large.
use guardy.Base.{
  ℕ, false, ◌≡◌, ◌↔◌, refl, String, List, [], ◌∷◌, Option, none, is_empty, arith, map,
}
use guardy.Kinds.{redact, safe_user_text}
use guardy.Report.{
  Report, zero_report, apply_control_defaults, derive_disposition, disposition_of_action, effective,
  finish_report, is_observation, normalize_report, orchestrator_message, out_of_range,
  public_message,
}
use guardy.Scope.{Scope}
use guardy.Pipeline.Rules.{Outcome}
use guardy.Ext.Bytes.{Bytes}
use guardy.Boundary.{compile_boundary_profile, scope_of}
use guardy.Boundary.Profile.{compile-IsCompiled, IsCompiled, AllKnown, AllIn}
use guardy.Http.{
  raw, Request, kept, plain_text_injector, GuardConfig, json_error, served, close_owned, adopt,
  borrow, finish_callback, restore_body,
}
use guardy.Http.Serve.{
  Host, serve_guard, after_read, after_run, deliver_request, extract, hand_off, inject, limited,
}
use guardy.Http.Bodies.{Closed, Tidy}
use guardy.Http.Released.{serve_guard-Closed}
use guardy.Http.Explained.{Explained}
use guardy.Http.Admitted.{serve_guard-Explained}
use guardy.Fault.Walk.{callback_cancellation, is_cancellation, is_context_error}
use guardy.Decision.{
  decision_from_report, decision_of, effective_disposition, enforced, is_retryable, is_system_fault,
  is_terminal, policy_decision, report_priority, select_from,
}

abbrev redaction : Report
redaction = record zero_report { action = redact }

-- The run puts a star for every byte.
abbrev starred : Option Scope → ℕ → Bytes → Outcome Bytes × ℕ
starred scope w text = (
  record {
    result = record {
      output = map (λ b. b'*') text;
      reports = redaction ∷ [];
      output_kind = safe_user_text;
    };
    error = none;
  },
  w,
)

-- The injector puts its text into a new body.
abbrev host : Bytes → Host ℕ Bytes
host incoming = record {
  ctx_err = λ w. none;
  close_err = λ k. none;
  incoming = λ w. ((incoming, none), w);
  extractor = λ w text. (record { value = text; error = none; left = kept; closes = false }, w);
  injector = plain_text_injector;
  run = starred;
}

abbrev config : GuardConfig ℕ
config = record { scope_factory = none; max_body_bytes = 3 }

abbrev request : Request ℕ
request = record {
  world = 0;
  body = raw;
  contents = b'a' ∷ b'b' ∷ [];
  content_length = 2;
  made = 0;
  closed = [];
}

abbrev small : Bytes
small = b'a' ∷ b'b' ∷ []

abbrev large : Bytes
large = b'a' ∷ b'b' ∷ b'c' ∷ b'd' ∷ []

serves_redacted : (serve_guard (host small) config request).0 ≡ served (b'*' ∷ b'*' ∷ [])
unfolding serve_guard after_read callback_cancellation limited close_owned extract finish_callback
    borrow restore_body scope_of after_run is_system_fault policy_decision decision_from_report
    decision_of select_from report_priority is_terminal effective_disposition enforced is_retryable
    is_cancellation is_context_error deliver_request hand_off inject adopt apply_control_defaults
    derive_disposition disposition_of_action effective finish_report is_observation normalize_report
    orchestrator_message out_of_range public_message
serves_redacted = refl

refuses_large :
    (serve_guard (host large) config request).0
    ≡ json_error 413 "input_too_large" "request body too large"
unfolding serve_guard after_read callback_cancellation limited is_cancellation is_context_error
    close_owned
refuses_large = refl

serve_guard-Explained_example :
    Explained (host small) config request (serve_guard (host small) config request).0
serve_guard-Explained_example = serve_guard-Explained (host small) config request

request-Tidy : Tidy request
request-Tidy j h = absurd (omega arith)

serve_guard-Closed_example : Closed (serve_guard (host small) config request).1
serve_guard-Closed_example = serve_guard-Closed (host small) config request request-Tidy

abbrev supported : List String
supported = "input" ∷ "delivery" ∷ []

compile-IsCompiled_example :
    IsCompiled (compile_boundary_profile "edge" supported ("delivery" ∷ []))
    ↔ ((is_empty "edge" ≡ false) × AllKnown supported × AllIn ("delivery" ∷ []) supported)
compile-IsCompiled_example = compile-IsCompiled "edge" supported ("delivery" ∷ [])
