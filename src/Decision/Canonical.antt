-- ===== src/Decision/Canonical.antt =====
-- The canonical decision and the composed report decide what the reports decided.
use guardy.Base.{false, ◌≡◌, refl, List, [], ◌∷◌, Option, none, some, if◌then◌else◌, arith}
use guardy.Kinds.{PayloadKind, safe_user_text, FailureDisposition, kind_out_of_range}
use guardy.Report.{
  Report, effective, is_observation, normalize_report, aggregate_payload_kind, aggregate_from,
  narrow, finish_report,
}
use guardy.Report.Disposition.{effective_stable}
use guardy.Decision.{
  decision_from_report, effective_disposition, decision_of, compose_reports, completed_reports,
  select_from, decide_by,
}

-- The decision made of a report has the report's effective disposition, though it keeps neither the
-- fatal flag nor the score; that of an observation is none.
decision_from_report-effective :
    (r : Report)
    → effective_disposition (decision_from_report (some r))
      ≡ (if is_observation (some r) then FailureDisposition.none else effective r)
unfolding decision_from_report effective_disposition
decision_from_report-effective r = ground arith

in_range_from :
    (best : PayloadKind) (rs : List Report)
    → kind_out_of_range best ≡ false
    → kind_out_of_range (aggregate_from best rs) ≡ false
unfolding aggregate_from
in_range_from best [] h = h
in_range_from best (r ∷ rs) h = in_range_from (narrow best r.payload_kind) rs (keeps r.payload_kind)
  where
    keeps : (k : PayloadKind) → kind_out_of_range (narrow best k) ≡ false
    keeps k = unfold narrow in ground arith

-- The aggregated kind is one of the three that are declared.
pub aggregate-in_range : (rs : List Report) → kind_out_of_range (aggregate_payload_kind rs) ≡ false
unfolding aggregate_payload_kind
aggregate-in_range rs = in_range_from safe_user_text rs refl

-- Another kind that is in range does not change the disposition of a finished report.
pub effective-record_kind :
    (r : Report) (k : PayloadKind)
    → kind_out_of_range k ≡ false
    → effective r ≡ r.disposition
    → effective (record r { payload_kind = k }) ≡ effective r
unfolding effective
effective-record_kind r k h e = ground arith

pub decide_by-finished : (s : Option Report) → effective (decide_by s) ≡ (decide_by s).disposition
unfolding finish_report normalize_report
decide_by-finished none = refl
decide_by-finished (some r) = effective_stable r

-- Composing reports keeps the disposition that they decide together, and its kind is the most
-- restrictive of theirs.
compose_reports_lem :
    (reps : List (Option Report))
    → (effective (compose_reports reps) ≡ effective (decision_of (completed_reports reps)))
      × ((compose_reports reps).payload_kind ≡ aggregate_payload_kind (completed_reports reps))
unfolding compose_reports decision_of
compose_reports_lem reps = (
  effective-record_kind _ _ (unfold aggregate_payload_kind in in_range_from _ values refl)
      (decide_by-finished (select_from none 0 values)),
  refl,
)
  where
    values : List Report
    values = completed_reports reps
