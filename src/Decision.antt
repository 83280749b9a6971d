-- ===== src/Decision.antt =====
-- guardy.go and decision.go: which report of a run decides, and the canonical decision made of it.
pub mod Priority
pub mod Canonical
pub mod Enforced
use guardy.Base.{
  ℕ, ◌<◌, leb, Bool, true, false, not, ◌&&◌, ◌||◌, String, List, [], ◌∷◌, Option, none, some,
  is_some, if◌then◌else◌,
}
use guardy.Kinds.{
  Action, pass, block, redact, retry, FailureDisposition, terminal_deny, retryable_correction,
  system_fault, PayloadKind, safe_user_text, same_action, same_disposition, same_kind,
}
use guardy.Report.{
  Report, Score, finite, zero_report, effective, is_observation, finish_report, spec_of,
  normalize_report, public_message, orchestrator_message, aggregate_payload_kind,
  clone_without_state,
}

-- `RunResult[T]`.
pub record RunResult (T : Type 0) : Type 0 where
  pub output : T
  pub reports : List Report
  pub output_kind : PayloadKind

-- The constants `priorityPass` to `priorityFault`.
abbrev pub priority_of : FailureDisposition → Action → ℕ
priority_of system_fault a = 7
priority_of terminal_deny block = 6
priority_of terminal_deny retry = 5
priority_of terminal_deny a = 4
priority_of retryable_correction a = 3
priority_of (FailureDisposition.unknown n) redact = 2
priority_of (FailureDisposition.unknown n) a = 1
priority_of FailureDisposition.none redact = 2
priority_of FailureDisposition.none a = 1

unfoldable pub report_priority : Report → ℕ
report_priority rep = priority_of (effective rep) rep.action

-- The loop of `Decision`, with `selected` and `priority` as arguments. An observation is skipped,
-- and of reports with one priority the last is taken.
unfoldable pub select_from : Option Report → ℕ → List Report → Option Report
select_from selected priority [] = selected
select_from selected priority (rep ∷ reps) =
    let skipped = select_from selected priority reps in
    let taken = select_from (some rep) (report_priority rep) reps in
    if is_observation (some rep)
    then skipped
    else if leb priority (report_priority rep)
    then taken
    else skipped

abbrev pub decide_by : Option Report → Report
decide_by (some selected) = normalize_report (some selected)
decide_by none = finish_report zero_report (spec_of pass)

-- `(*RunResult[T]).Decision`, which reads only the reports and never returns nil.
unfoldable pub decision_of : List Report → Report
decision_of reports = decide_by (select_from none 0 reports)

-- The loop of `ComposeReports`, which drops nil reports.
unfoldable pub completed_reports : List (Option Report) → List Report
completed_reports [] = []
completed_reports (none ∷ reps) = completed_reports reps
completed_reports (some rep ∷ reps) = normalize_report (some rep) ∷ completed_reports reps

unfoldable pub compose_reports : List (Option Report) → Report
compose_reports reports =
    let values = completed_reports reports in
    record (decision_of values) { payload_kind = aggregate_payload_kind values }

pub record Decision : Type 0 where
  pub action : Action
  pub disposition : FailureDisposition
  pub code : String
  pub safe_message : String
  pub retry_feedback : String
  pub payload_kind : PayloadKind
  pub validator : String
  pub severity : String

abbrev pub pass_decision : Decision
pass_decision = record {
  action = pass;
  disposition = FailureDisposition.none;
  code = "";
  safe_message = "";
  retry_feedback = "";
  payload_kind = safe_user_text;
  validator = "";
  severity = "";
}

-- An observation is reported to the host as a pass.
unfoldable pub enforced : Report → Report
unfolding is_observation
enforced rep =
    if is_observation (some rep)
    then record rep { action = pass; disposition = FailureDisposition.none }
    else rep

unfoldable pub decision_from_report : Option Report → Decision
unfolding enforced normalize_report public_message orchestrator_message
decision_from_report none = pass_decision
decision_from_report (some rep) =
    let cp = enforced (normalize_report (some rep)) in
    record {
      action = cp.action;
      disposition = cp.disposition;
      code = cp.code;
      safe_message = public_message (some cp);
      retry_feedback = orchestrator_message (some cp);
      payload_kind = cp.payload_kind;
      validator = cp.validator;
      severity = cp.severity;
    }

-- `Decision.effectiveDisposition` rebuilds a report of three fields.
unfoldable pub effective_disposition : Decision → FailureDisposition
unfolding effective
effective_disposition d = effective (record zero_report {
  action = d.action;
  disposition = d.disposition;
  payload_kind = d.payload_kind;
})

unfoldable pub is_terminal : Decision → Bool
unfolding effective_disposition
is_terminal d = same_disposition (effective_disposition d) terminal_deny

unfoldable pub is_retryable : Decision → Bool
unfolding effective_disposition
is_retryable d = same_disposition (effective_disposition d) retryable_correction

unfoldable pub is_system_fault : Decision → Bool
unfolding effective_disposition
is_system_fault d = same_disposition (effective_disposition d) system_fault

-- A kind computed for the whole run replaces the decision's own, unless only the latter says more.
abbrev pub merged_kind : PayloadKind → PayloadKind → PayloadKind
merged_kind output_kind own =
    if not (same_kind output_kind safe_user_text) || same_kind own safe_user_text
    then output_kind
    else own

unfoldable pub policy_decision : {T : Type 0} → RunResult T → Decision
policy_decision r =
    let d = decision_from_report (some (decision_of r.reports)) in
    record d { payload_kind = merged_kind r.output_kind d.payload_kind }

unfoldable pub policy_decision_report : List Report → PayloadKind → Report
policy_decision_report reports output_kind =
    let rep = decision_of reports in
    record rep { payload_kind = merged_kind output_kind rep.payload_kind }
