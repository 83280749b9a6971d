-- ===== src/Decision/Enforced.antt =====
-- What a host reads off the decision made of a list of reports, and the error that stands for it.
use guardy.Base.{
  false, not, ◌||◌, leb, ◌≡◌, ◌≢◌, refl, ap, ◌∙◌, arith, List, [], ◌∷◌, ◌++◌, Option, none, some,
  if◌then◌else◌, Bool-cases, inl, inr, All,
}
use guardy.Kinds.{PayloadKind, safe_user_text, same_kind, FailureDisposition, kind_out_of_range}
use guardy.Report
use guardy.Report.{
  Report, zero_report, effective, is_observation, normalize_report, finish_report,
  aggregate_payload_kind, is_terminal_deny, is_retryable_correction, effective_disposition,
}
use guardy.Report.Disposition.{normalize_report_lem, effective_known, effective_stable}
use guardy.Decision.{
  decision_of, decide_by, select_from, report_priority, decision_from_report, merged_kind,
  policy_decision_report, policy_decision, RunResult,
}
use guardy.Decision.Priority.{Harmless, decision_of-none_iff}
use guardy.Decision.Canonical.{aggregate-in_range, effective-record_kind, decide_by-finished}
use guardy.Fault.Tree.{Error}
use guardy.Fault.Outcome.{error_from_decision}

abbrev NotObserved : Option Report → Type 0
NotObserved rep = is_observation rep ≡ false

select-NotObserved :
    (sel : Option Report) (n : _) (rs : List Report)
    → NotObserved sel
    → NotObserved (select_from sel n rs)
unfolding select_from
select-NotObserved sel n [] h = h
select-NotObserved sel n (r ∷ rs) h = elim (Bool-cases (is_observation (some r))) [
  | inl e ↦ rw e (select-NotObserved sel n rs h)
  | inr e ↦ rw e (elim (Bool-cases (leb n (report_priority r))) [
    | inl g ↦ rw g (select-NotObserved (some r) (report_priority r) rs e)
    | inr g ↦ rw g (select-NotObserved sel n rs h)
  ])
]

decide_by-NotObserved :
    (rep : Option Report) → NotObserved rep → is_observation (some (decide_by rep)) ≡ false
decide_by-NotObserved none h = unfold is_observation finish_report in refl
decide_by-NotObserved (some r) h = (normalize_report_lem r).1 ∙ h

pub decision_of-NotObserved : (rs : List Report) → is_observation (some (decision_of rs)) ≡ false
unfolding decision_of
decision_of-NotObserved rs =
    decide_by-NotObserved _ (select-NotObserved none 0 rs (unfold is_observation in refl))

-- A kind that is the report's own or in range keeps what a finished report decides.
merged-effective :
    (r : Report) (kind : PayloadKind)
    → kind_out_of_range kind ≡ false
    → effective r ≡ r.disposition
    → effective (record r { payload_kind = merged_kind kind r.payload_kind }) ≡ effective r
merged-effective r kind h e =
    elim (Bool-cases
      (not (same_kind kind safe_user_text) || same_kind r.payload_kind safe_user_text)) [
        | inl t ↦ rw t (effective-record_kind r kind h e)
        | inr t ↦ rw t
      ]

-- The report by which a list of reports is judged, with the kind that they make together.
abbrev pub judged : List Report → Report
judged rs = policy_decision_report rs (aggregate_payload_kind rs)

pub judged-effective : (rs : List Report) → effective (judged rs) ≡ effective (decision_of rs)
unfolding policy_decision_report decision_of
judged-effective rs =
    merged-effective (decide_by (select_from none 0 rs)) (aggregate_payload_kind rs)
      (aggregate-in_range rs) (decide_by-finished (select_from none 0 rs))

judged-NotObserved : (rs : List Report) → is_observation (some (judged rs)) ≡ false
unfolding policy_decision_report is_observation
judged-NotObserved rs = rw (judged-effective rs) (decision_of-NotObserved rs)

-- The disposition that a host reads.
pub from_report-disposition :
    (r : Report)
    → (decision_from_report (some r)).disposition
      ≡ (if is_observation (some r) then FailureDisposition.none else effective r)
unfolding decision_from_report is_observation
from_report-disposition r = ground (arith, effective_stable r)

pub judged-disposition :
    (rs : List Report)
    → (decision_from_report (some (judged rs))).disposition ≡ effective (decision_of rs)
judged-disposition rs =
    from_report-disposition (judged rs) ∙ rw (judged-NotObserved rs) (judged-effective rs)

pub policy_decision-disposition :
    {T : Type 0} (result : RunResult T)
    → (policy_decision result).disposition ≡ effective (decision_of result.reports)
unfolding policy_decision
policy_decision-disposition result =
    from_report-disposition (decision_of result.reports)
    ∙ ap (λ b. if b then FailureDisposition.none else effective (decision_of result.reports))
        (decision_of-NotObserved result.reports)

-- A report that is no observation lets the value pass exactly when it stands for no error.
pub error-none : (r : Report) → error_from_decision r ≡ none → effective r ≡ FailureDisposition.none
unfolding error_from_decision Report.is_system_fault is_retryable_correction is_terminal_deny
    effective_disposition
error-none r e = ground (arith, effective_known r)

pub error-some :
    (r : Report) (e : Error)
    → error_from_decision r ≡ some e
    → effective r ≢ FailureDisposition.none
unfolding error_from_decision Report.is_system_fault is_retryable_correction is_terminal_deny
    effective_disposition effective
error-some r e h n = ground arith

-- A report that is not harmless, wherever it stands, keeps the whole from passing.
pub harmful-append :
    (rs : List Report) (r : Report)
    → (Harmless r → ⊥)
    → effective (decision_of (rs ++ r ∷ [])) ≢ FailureDisposition.none
harmful-append rs r h e = h (last-Harmless rs ((decision_of-none_iff (rs ++ r ∷ [])).0 e))
  where
    last-Harmless : (xs : List Report) → All Harmless (xs ++ r ∷ []) → Harmless r
    last-Harmless [] k = k.0
    last-Harmless (x ∷ xs) k = last-Harmless xs k.1
