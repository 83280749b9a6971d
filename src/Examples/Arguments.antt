-- ===== src/Examples/Arguments.antt =====
-- Arguments that a codec reads by their length, with a final guard.
use guardy.Base.{ℕ, true, false, ◌≡◌, refl, String, [], Option, none, some, is_some, if◌then◌else◌}
use text.Mathlib.Text.{◌==◌ as str_eq}
use guardy.Kinds.{safe_user_text, system_fault}
use guardy.Report.{
  effective, aggregate_from, aggregate_payload_kind, finish_report, is_observation,
  is_retryable_correction, is_system_fault, is_terminal_deny, normalize_report,
}
use guardy.Decision.{
  decision_of, decision_from_report, enforced, policy_decision, policy_decision_report, select_from,
}
use guardy.Fault.Tree.{Error, leaf}
use guardy.Scope.{Reflect, check_scope_requirements, merge_scope_requirements}
use guardy.Pipeline.Rules.{Outcome}
use guardy.Args.{
  TextGuard, Bound, plain, ArgsPipeline, args_from_run, invoke_post_bind, refresh, refresh_report,
}
use guardy.Args.Validation.{validate, after_final, after_raw, bind, finish}
use guardy.Args.Judged.{JudgedAnswer, validate-Judged}
use guardy.Fault.Outcome.{error_from_decision}
use guardy.Fault.Walk.{callback_cancellation, is_cancellation, is_context_error}

abbrev types : Reflect
types = record { implements = λ a b. false; is_interface = λ a. false; type_string = λ a. "string" }

abbrev passed : String → Outcome String
passed text = record {
  result = record { output = text; reports = []; output_kind = safe_user_text };
  error = none;
}

passed_closed :
    (text : String)
    → is_some (passed text).error ≡ true
    → effective (decision_of (passed text).result.reports) ≡ system_fault
passed_closed text e = cc

abbrev guard : TextGuard ℕ
guard = record {
  runner = λ scope. record {
    run = λ w text. (passed text, w);
    name = "text";
    fails_closed = λ w text. passed_closed text;
  };
  required_scope = [];
  name = "text";
}

-- The only arguments are "one".
abbrev read : ℕ → String → (ℕ × Option Error) × ℕ
read w text = if str_eq text "one" then ((1, none), w) else ((0, some (leaf "not a number")), w)

abbrev pipeline : ArgsPipeline ℕ ℕ
pipeline = record {
  raw = guard;
  final = some guard;
  require_final = true;
  decode = some read;
  encode = some (λ w n. (("one", none), w));
  identity = "numbers";
}

abbrev no_error : ℕ → Option Error
no_error w = none

abbrev looks : ℕ → Bound ℕ ℕ
looks n = plain

reads_one : (validate types looks no_error 0 pipeline none "one" 0).0.payload.value ≡ 1
unfolding validate check_scope_requirements merge_scope_requirements after_raw error_from_decision
    is_system_fault effective decision_of select_from finish_report is_retryable_correction
    is_terminal_deny callback_cancellation after_final refresh_report policy_decision_report refresh
    args_from_run bind finish invoke_post_bind decision_from_report enforced policy_decision
    normalize_report aggregate_payload_kind aggregate_from is_observation
reads_one = refl

rejects_two : is_some (validate types looks no_error 0 pipeline none "two" 0).0.error ≡ true
unfolding validate check_scope_requirements merge_scope_requirements after_raw error_from_decision
    is_system_fault effective decision_of select_from finish_report is_retryable_correction
    is_terminal_deny callback_cancellation is_cancellation is_context_error
rejects_two = refl

validate-Judged_example :
    JudgedAnswer types looks no_error 0 pipeline
      (validate types looks no_error 0 pipeline none "one" 0)
validate-Judged_example = validate-Judged types looks no_error 0 pipeline none "one" 0
