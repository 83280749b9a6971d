-- ===== src/Fault/Walk.antt =====
-- errors.go and completed_observations.go: what is read off the tree of an error, and the
-- observations that a fault carries.
use guardy.Base.{
  Bool, true, false, ◌&&◌, ◌||◌, List, [], ◌∷◌, ◌++◌, Option, none, some, if◌then◌else◌,
}
use guardy.Report.{Report, clone_without_state, normalize_report}
use guardy.Decision.{compose_reports}
use guardy.Fault.Tree.{
  Sentinel, canceled, deadline_exceeded, Error, sentinel, leaf, wrapped, joined, panic_value,
  panic_error, validator_fault, observed, misconfigured, scope_missing, scope_type, unclassified,
  incomparable, block_error, retry_error, Errors, nil, cons, is_sentinel,
}

-- `errors.Is(err, context.Canceled)` for `canceled`, and for `deadline_exceeded` alike: some node of
-- the tree is that sentinel. A fault unwraps to its category joined with its cause.
unfoldable mutual
  pub is_context_error : Sentinel → Error → Bool
  is_context_error s (sentinel t) = is_sentinel s t
  is_context_error s (leaf text) = false
  is_context_error s (wrapped text e) = is_context_error s e
  is_context_error s (joined es) = any_is_context_error s es
  is_context_error s (panic_value n) = false
  is_context_error s (panic_error e) = is_context_error s e
  is_context_error s (validator_fault e r) = is_context_error s e
  is_context_error s (observed e r) = is_context_error s e
  is_context_error s (misconfigured component field code) = false
  is_context_error s (scope_missing keys) = false
  is_context_error s (scope_type key) = false
  is_context_error s (unclassified code) = false
  is_context_error s (incomparable key) = false
  is_context_error s (block_error r) = false
  is_context_error s (retry_error r) = false

  pub any_is_context_error : Sentinel → Errors → Bool
  any_is_context_error s nil = false
  any_is_context_error s (cons e es) = is_context_error s e || any_is_context_error s es

unfoldable pub is_cancellation : Error → Bool
is_cancellation e = is_context_error canceled e || is_context_error deadline_exceeded e

-- `cancellationOnly`.
abbrev pub has_children : Errors → Bool
has_children nil = false
has_children (cons e es) = true

unfoldable mutual
  pub cancellation_only : Error → Bool
  cancellation_only (sentinel s) = is_sentinel canceled s || is_sentinel deadline_exceeded s
  cancellation_only (leaf text) = false
  cancellation_only (wrapped text e) = cancellation_only e
  cancellation_only (joined es) = all_cancellation_only es && has_children es
  cancellation_only (panic_value n) = false
  cancellation_only (panic_error e) = false
  cancellation_only (validator_fault e r) = cancellation_only e
  cancellation_only (observed e r) = cancellation_only e
  cancellation_only (misconfigured component field code) = false
  cancellation_only (scope_missing keys) = false
  cancellation_only (scope_type key) = false
  cancellation_only (unclassified code) = false
  cancellation_only (incomparable key) = false
  cancellation_only (block_error r) = false
  cancellation_only (retry_error r) = false

  pub all_cancellation_only : Errors → Bool
  all_cancellation_only nil = true
  all_cancellation_only (cons e es) = cancellation_only e && all_cancellation_only es

-- `collectCompletedReports`: a carrier is not walked further.
unfoldable mutual
  unfolding clone_without_state

  pub collect_completed_reports : Error → List (Option Report)
  collect_completed_reports (sentinel s) = []
  collect_completed_reports (leaf text) = []
  collect_completed_reports (wrapped text e) = collect_completed_reports e
  collect_completed_reports (joined es) = collect_all es
  collect_completed_reports (panic_value n) = []
  collect_completed_reports (panic_error e) = collect_completed_reports e
  collect_completed_reports (validator_fault e r) = collect_completed_reports e
  collect_completed_reports (observed e r) = clone_without_state (some r) ∷ []
  collect_completed_reports (misconfigured component field code) = []
  collect_completed_reports (scope_missing keys) = []
  collect_completed_reports (scope_type key) = []
  collect_completed_reports (unclassified code) = []
  collect_completed_reports (incomparable key) = []
  collect_completed_reports (block_error r) = []
  collect_completed_reports (retry_error r) = []

  pub collect_all : Errors → List (Option Report)
  collect_all nil = []
  collect_all (cons e es) = collect_completed_reports e ++ collect_all es

abbrev pub composed : List (Option Report) → Option Report
composed [] = none
composed (r ∷ rs) = clone_without_state (some (compose_reports (r ∷ rs)))

unfoldable pub completed_report_from_error : Error → Option Report
completed_report_from_error cause = composed (collect_completed_reports cause)

abbrev pub any_present : List (Option Report) → Bool
any_present [] = false
any_present (none ∷ rs) = any_present rs
any_present (some r ∷ rs) = true

abbrev pub attach : Error → Option Report → Error
attach cause none = cause
attach cause (some r) = observed cause r

-- `WithCompletedObservations` of a cause that is not nil.
unfoldable pub with_completed_observations : Error → List (Option Report) → Error
with_completed_observations cause completed =
    let reports = completed ++ (completed_report_from_error cause ∷ []) in
    if any_present reports
    then attach cause (clone_without_state (some (compose_reports reports)))
    else cause

abbrev pub with_report : List Report → Option Report → List Report
with_report reports none = reports
with_report reports (some rep) = reports ++ (normalize_report (some rep) ∷ [])

unfoldable pub append_completed_observations : List Report → Error → List Report
append_completed_observations reports cause =
    with_report reports (completed_report_from_error cause)

-- `callbackCancellation`, given what `ctx.Err()` returns.
unfoldable pub callback_cancellation : Option Error → Option Error → Option Error
callback_cancellation none none = none
callback_cancellation none (some e) = if is_cancellation e then some e else none
callback_cancellation (some c) none = some c
callback_cancellation (some c) (some e) = some (joined (cons c (cons e nil)))
