-- ===== src/Examples/Deliveries.antt =====
-- A delivery on the user channel whose value is technical and whose fallback is safe.
use guardy.Base.{
  ℕ, ◌==◌, true, ◌≡◌, refl, String, [], ◌∷◌, Option, none, some, is_some, if◌then◌else◌,
}
use guardy.Kinds.{safe_user_text, technical_payload, system_fault, payload_kind_priority}
use guardy.Report
use guardy.Report.{
  Report, zero_report, effective, finish_report, is_retryable_correction, is_terminal_deny,
  is_observation, normalize_report,
}
use guardy.Decision
use guardy.Decision.{
  RunResult, decision_of, select_from, decision_from_report, enforced, policy_decision,
  report_priority,
}
use guardy.Fault.Tree.{Error, leaf}
use guardy.Fault.Walk.{callback_cancellation}
use guardy.Fault.Outcome.{error_from_decision}
use guardy.Pipeline.Rules.{Outcome}
use guardy.Delivery.{
  after_run, after_policy, apply_delivery_policy, judge_kind, guarded_output_from_run,
  checked_delivery_fallback, deliver_kind, delivery_policy_allows, guard_candidate,
  suppress_delivery, take_candidate, undeliverable_report, Runner, classified, candidate,
  DeliveryPolicy, guard_delivery, validate_delivery_policy,
}
use guardy.Delivery.Origin.{Traced, guard_delivery-Traced}

abbrev keep : String → String
keep text = text

abbrev no_error : ℕ → Option Error
no_error w = none

-- Every run passes its value on without a report.
abbrev passed : ℕ → Outcome ℕ
passed input = record {
  result = record { output = input; reports = []; output_kind = safe_user_text };
  error = none;
}

passed_closed :
    (input : ℕ)
    → is_some (passed input).error ≡ true
    → effective (decision_of (passed input).result.reports) ≡ system_fault
passed_closed input e = cc

abbrev quiet : Runner ℕ ℕ
quiet = record {
  run = λ w input. (passed input, w);
  name = "quiet";
  fails_closed = λ w input. passed_closed input;
}

-- Every run fails.
abbrev broken : Report
broken = record zero_report { validator = "pipeline"; disposition = system_fault }

abbrev down : ℕ → Outcome ℕ
down input = record {
  result = record { output = input; reports = broken ∷ []; output_kind = safe_user_text };
  error = some (leaf "down");
}

down_closed : (input : ℕ) → effective (decision_of (down input).result.reports) ≡ system_fault
unfolding decision_of select_from is_observation effective report_priority normalize_report
down_closed input = refl

abbrev failing : Runner ℕ ℕ
failing = record {
  run = λ w input. (down input, w);
  name = "failing";
  fails_closed = λ w input e. down_closed input;
}

-- The value 7 is technical, every other is safe text.
abbrev user_text : DeliveryPolicy ℕ ℕ
user_text = record {
  channel = "user";
  allowed_payload_kinds = safe_user_text ∷ [];
  fallback = candidate 1;
  classifier =
      some (λ w value.
        (classified (if value == 7 then technical_payload else safe_user_text) none, w));
  configuration_err = none;
}

user_text_valid : validate_delivery_policy keep user_text ≡ none
unfolding validate_delivery_policy payload_kind_priority
user_text_valid = refl

falls_back : (guard_delivery 0 no_error quiet user_text keep 0 7).0.guarded.value ≡ 1
unfolding guard_delivery validate_delivery_policy payload_kind_priority after_run
    error_from_decision Report.is_system_fault effective decision_of select_from finish_report
    is_retryable_correction is_terminal_deny after_policy apply_delivery_policy judge_kind
    callback_cancellation guarded_output_from_run decision_from_report enforced
    Decision.is_system_fault policy_decision report_priority checked_delivery_fallback deliver_kind
    delivery_policy_allows guard_candidate suppress_delivery take_candidate undeliverable_report
    is_observation normalize_report
falls_back = refl

guard_delivery-Traced_example :
    Traced 0 no_error quiet user_text
      ((quiet.run 0 7).0.result.output)
      (guard_delivery 0 no_error quiet user_text keep 0 7).0.guarded
guard_delivery-Traced_example = guard_delivery-Traced 0 no_error quiet user_text keep 0 7
