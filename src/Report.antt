-- ===== src/Report.antt =====
-- guardy.go, disposition.go, report_control.go, report_helpers.go and codes.go: the report of a
-- validator and how its fields decide the control flow. A `*Report` is an `Option Report`.
pub mod Disposition
pub mod Restrictive
use guardy.Base.{
  ℕ, Bool, true, false, not, ◌&&◌, ◌||◌, String, List, [], ◌∷◌, Option, some, is_empty,
  if◌then◌else◌,
}
use mathlib.Core.Option
use guardy.Kinds.{
  Action, pass, block, redact, retry, FailureDisposition, terminal_deny, retryable_correction,
  system_fault, PayloadKind, safe_user_text, same_action, same_disposition, same_kind,
  action_out_of_range, disposition_out_of_range, kind_out_of_range, more_restrictive,
}

-- A float64 by the classes that `math.IsNaN` and `math.IsInf` tell apart; the code only carries
-- the value of a finite one.
pub data Score : Type 0 where
  finite : ℕ → Score
  nan inf : Score

abbrev pub is_finite : Score → Bool
is_finite (finite n) = true
is_finite _ = false

pub record Report : Type 0 where
  pub action : Action
  pub validator : String
  pub code : String
  pub severity : String
  pub reason : String
  pub feedback : String
  pub score : Score
  pub shadow_mode : Bool
  pub mutated_text : String
  pub retryable : Bool
  pub fatal : Bool
  pub safe_user_message : String
  pub disposition : FailureDisposition
  pub payload_kind : PayloadKind

-- `Report{}`, on which the literals of the source set some fields.
abbrev pub zero_report : Report
zero_report = record {
  action = pass;
  validator = "";
  code = "";
  severity = "";
  reason = "";
  feedback = "";
  score = finite 0;
  shadow_mode = false;
  mutated_text = "";
  retryable = false;
  fatal = false;
  safe_user_message = "";
  disposition = FailureDisposition.none;
  payload_kind = safe_user_text;
}

-- `DeriveDisposition(rep, nil)` by the report's action; the other two cases are an error and a nil
-- report.
unfoldable pub disposition_of_action : Action → Bool → Bool → FailureDisposition
disposition_of_action block fatal retryable = terminal_deny
disposition_of_action retry fatal retryable =
    if fatal then terminal_deny else if retryable then retryable_correction else terminal_deny
disposition_of_action pass fatal retryable =
    if fatal then terminal_deny else FailureDisposition.none
disposition_of_action redact fatal retryable =
    if fatal then terminal_deny else FailureDisposition.none
disposition_of_action (Action.unknown n) fatal retryable = system_fault

unfoldable pub derive_disposition {ℓ} : {E : Type ℓ} → Option Report → Option E → FailureDisposition
unfolding disposition_of_action
derive_disposition rep (some err) = system_fault
derive_disposition Option.none Option.none = FailureDisposition.none
derive_disposition (some r) Option.none = disposition_of_action r.action r.fatal r.retryable

-- The first test of `effectiveDisposition`.
unfoldable pub out_of_range : Report → Bool
out_of_range r =
    action_out_of_range r.action
    || disposition_out_of_range r.disposition
    || kind_out_of_range r.payload_kind
    || not (is_finite r.score)

unfoldable pub effective : Report → FailureDisposition
unfolding out_of_range derive_disposition
effective r =
    if out_of_range r
    then system_fault
    else if same_disposition r.disposition system_fault
    then system_fault
    else if same_disposition r.disposition retryable_correction && not (same_action r.action retry)
    then system_fault
    else if r.fatal || same_disposition r.disposition terminal_deny
    then terminal_deny
    else if same_disposition r.disposition retryable_correction
    then retryable_correction
    else derive_disposition {E = Unit {0}} (some r) Option.none

unfoldable pub effective_disposition : Option Report → FailureDisposition
effective_disposition Option.none = FailureDisposition.none
effective_disposition (some r) = effective r

unfoldable pub is_observation : Option Report → Bool
is_observation Option.none = false
is_observation (some r) =
    r.shadow_mode
    && same_action r.action block
    && not r.fatal
    && same_disposition (effective r) terminal_deny

unfoldable pub is_terminal_deny : Option Report → Bool
unfolding effective_disposition
is_terminal_deny rep = same_disposition (effective_disposition rep) terminal_deny

unfoldable pub is_retryable_correction : Option Report → Bool
unfolding effective_disposition
is_retryable_correction rep = same_disposition (effective_disposition rep) retryable_correction

unfoldable pub is_system_fault : Option Report → Bool
unfolding effective_disposition
is_system_fault rep = same_disposition (effective_disposition rep) system_fault

-- A copy of a value is the value: `Clone` is the identity, and `CloneWithoutState` drops one field.
unfoldable pub clone_without_state : Option Report → Option Report
clone_without_state = Option.map {A = Report} λ r. record r { mutated_text = "" }

pub record ControlSpec : Type 0 where
  pub action : Action
  pub retryable : Option Bool
  pub fatal : Bool
  pub safe_user_message : String

-- `ControlSpec{Action: a}`.
abbrev pub spec_of : Action → ControlSpec
spec_of a = record { action = a; retryable = Option.none; fatal = false; safe_user_message = "" }

abbrev pub retryable_default : Option Bool → Action → Bool
retryable_default (some b) a = b
retryable_default Option.none a = same_action a retry

unfoldable pub apply_control_defaults : Report → ControlSpec → Report
apply_control_defaults rep spec = record rep {
  retryable = retryable_default spec.retryable spec.action;
  fatal = rep.fatal || spec.fatal;
  disposition = if same_action rep.action spec.action then rep.disposition else system_fault;
  safe_user_message =
      if is_empty spec.safe_user_message then rep.safe_user_message else spec.safe_user_message;
}

-- `FinishReport` of a report that is not nil.
unfoldable pub finish_report : Report → ControlSpec → Report
unfolding apply_control_defaults effective
finish_report rep spec =
    let r = apply_control_defaults rep spec in record r { disposition = effective r }

unfoldable pub normalize_report : Option Report → Report
normalize_report Option.none = zero_report
normalize_report (some r) = record r { disposition = effective r }

unfoldable pub public_message : Option Report → String
public_message Option.none = ""
public_message (some r) =
    if is_empty r.safe_user_message then "validation failed" else r.safe_user_message

unfoldable pub orchestrator_message : Option Report → String
orchestrator_message Option.none = ""
orchestrator_message (some r) =
    if same_action r.action retry && not (is_empty r.feedback)
    then r.feedback
    else if is_empty r.reason
    then ""
    else r.reason

-- One round of the loop of `AggregatePayloadKind`.
unfoldable pub narrow : PayloadKind → PayloadKind → PayloadKind
unfolding more_restrictive
narrow best k = if same_kind k safe_user_text then best else more_restrictive best k

-- `AggregatePayloadKind` with the loop's `best` as an argument.
unfoldable pub aggregate_from : PayloadKind → List Report → PayloadKind
unfolding narrow
aggregate_from best [] = best
aggregate_from best (r ∷ rs) = aggregate_from (narrow best r.payload_kind) rs

unfoldable pub aggregate_payload_kind : List Report → PayloadKind
unfolding aggregate_from
aggregate_payload_kind reports = aggregate_from safe_user_text reports
