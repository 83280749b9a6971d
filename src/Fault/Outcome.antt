-- ===== src/Fault/Outcome.antt =====
-- errors.go and decision.go: the errors and decisions made of reports.
use guardy.Base.{◌||◌, Option, none, some, if◌then◌else◌}
use guardy.Kinds.{pass, redact, FailureDisposition, system_fault, same_action, same_disposition}
use guardy.Report
use guardy.Report.{
  Report, zero_report, clone_without_state, normalize_report, effective, public_message,
  orchestrator_message,
}
use guardy.Decision.{Decision, decision_from_report}
use guardy.Fault.Tree.{
  validator_failed, Error, sentinel, leaf, wrapped, joined, panic_value, panic_error,
  validator_fault, observed, misconfigured, scope_missing, scope_type, unclassified, incomparable,
  block_error, retry_error, Errors, nil, cons, error_text,
}

-- `validatorFaultReport` of a cause that is not nil.
unfoldable pub validator_fault_report : Error → Report
validator_fault_report cause = record zero_report {
  validator = "pipeline";
  code = "VALIDATOR_FAILED";
  reason = error_text cause;
  disposition = system_fault;
}

-- `policyFailureFromReport`: the decision of a failure with a cause is never none.
unfoldable pub policy_failure_decision : Report → Decision
policy_failure_decision rep =
    let d = decision_from_report (some rep) in
    record d {
      disposition =
          if same_disposition d.disposition FailureDisposition.none
          then system_fault
          else d.disposition;
    }

-- `errorFromDecision` of a report that is not nil. The last case is that of an action that no
-- disposition covers.
unfoldable pub error_from_decision : Report → Option Error
error_from_decision rep =
    if Report.is_system_fault (some rep)
    then some (validator_fault (sentinel validator_failed) rep)
    else if Report.is_retryable_correction (some rep)
    then some (retry_error (normalize_report (some rep)))
    else if Report.is_terminal_deny (some rep)
    then some (block_error (normalize_report (some rep)))
    else if same_action rep.action pass || same_action rep.action redact
    then none
    else some (wrapped "guardy: unsupported pipeline action" (sentinel validator_failed))

abbrev pub or_else {ℓ} : {A : Type ℓ} → Option A → Option A → Option A
or_else none b = b
or_else (some a) b = some a

-- The decision that `errors.As` into `*PolicyFailure` finds first in an error, if any.
unfoldable mutual
  unfolding policy_failure_decision

  pub failure_decision : Error → Option Decision
  failure_decision (sentinel s) = none
  failure_decision (leaf text) = none
  failure_decision (wrapped text e) = failure_decision e
  failure_decision (joined es) = first_failure es
  failure_decision (panic_value n) = none
  failure_decision (panic_error e) = failure_decision e
  failure_decision (validator_fault e r) = some (policy_failure_decision r)
  failure_decision (observed e r) = failure_decision e
  failure_decision (misconfigured component field code) = none
  failure_decision (scope_missing keys) = none
  failure_decision (scope_type key) = none
  failure_decision (unclassified code) = none
  failure_decision (incomparable key) = none
  failure_decision (block_error r) = some (policy_failure_decision r)
  failure_decision (retry_error r) = some (policy_failure_decision r)

  pub first_failure : Errors → Option Decision
  first_failure nil = none
  first_failure (cons e es) = or_else (failure_decision e) (first_failure es)
