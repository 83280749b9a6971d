-- ===== src/Examples/Decisions.antt =====
-- Concrete runs' reports, decisions, errors and scopes, and the theorems at them.
use mathlib.Core.List.{Permᴰ}
use guardy.Base.{
  ◌≤◌, ◌<◌, max, true, false, ◌&&◌, ◌≡◌, ◌⊎◌, ◌↔◌, refl, List, [], ◌∷◌, none, some, all, All,
}
use guardy.Kinds.{
  block, retry, FailureDisposition, retryable_correction, system_fault, technical_payload,
}
use guardy.Report.{Report, zero_report, effective, is_observation, normalize_report}
use guardy.Decision.{
  Decision, pass_decision, select_from, report_priority, decision_of, effective_disposition,
}
use guardy.Decision.Priority.{
  top_rank, Harmless, HasFault, decision_of-priority, decision_of-perm, decision_of-none_iff,
  decision_of-fault_iff,
}
use guardy.Route.{
  pos, fallback_delivery, terminal_deny, RemediationPolicy, route_decision, route_by,
}
use guardy.Route.Budget.{route_decision-retry}
use guardy.Fault.Tree.{canceled, Error, sentinel, wrapped, joined, panic_error, cons, nil}
use guardy.Fault.Walk.{cancellation_only}
use guardy.Fault.Cancellation.{causes, is_context_sentinel, cancellation_only-causes}
use guardy.Scope.{
  Reflect, Scope, value, accepts, ScopeRequirement, new_scope, check_scope_requirements,
  merge_scope_requirements, or_empty,
}
use guardy.Scope.Checking.{satisfied, check_scope_requirements-none_iff}
use guardy.Scope.Merging.{merge_scope_requirements_lem}

abbrev shadow_block : Report
shadow_block = record zero_report { action = block; shadow_mode = true }

abbrev correction : Report
correction = record zero_report { action = retry; retryable = true }

abbrev broken : Report
broken = record zero_report { validator = "pipeline"; disposition = system_fault }

-- The fault outranks the correction, and the observation is passed over.
abbrev mixed : List Report
mixed = shadow_block ∷ broken ∷ correction ∷ []

mixed_decides : (decision_of mixed).validator ≡ "pipeline"
unfolding decision_of select_from is_observation effective report_priority normalize_report
mixed_decides = refl

decision_of-priority_example : report_priority (decision_of mixed) ≡ max 1 (top_rank mixed)
decision_of-priority_example = decision_of-priority mixed

decision_of-perm_example :
    (effective (decision_of (broken ∷ correction ∷ []))
      ≡ effective (decision_of (correction ∷ broken ∷ [])))
    × (report_priority (decision_of (broken ∷ correction ∷ []))
        ≡ report_priority (decision_of (correction ∷ broken ∷ [])))
decision_of-perm_example =
    decision_of-perm {xs = broken ∷ correction ∷ []} {ys = correction ∷ broken ∷ []}
      ∣ Permᴰ.swap refl refl ∣₁

decision_of-none_iff_example :
    (effective (decision_of (shadow_block ∷ zero_report ∷ [])) ≡ FailureDisposition.none)
    ↔ All Harmless (shadow_block ∷ zero_report ∷ [])
decision_of-none_iff_example = decision_of-none_iff (shadow_block ∷ zero_report ∷ [])

decision_of-fault_iff_example : (effective (decision_of mixed) ≡ system_fault) ↔ HasFault mixed
decision_of-fault_iff_example = decision_of-fault_iff mixed

abbrev corrected : Decision
corrected = record pass_decision {
  action = retry;
  disposition = retryable_correction;
  payload_kind = technical_payload;
}

abbrev faulted : Decision
faulted = record pass_decision { action = block; disposition = system_fault }

abbrev spent : RemediationPolicy
spent = record {
  retry_attempt = pos 2;
  max_retries = pos 2;
  allow_fallback = true;
  fallback_message = "Sorry.";
}

spent_falls_back : (route_by corrected spent).safe_message ≡ "Sorry."
unfolding route_by
spent_falls_back = refl

route_decision-retry_example :
    (((route_by corrected spent).retryable ≡ true)
      ↔ ((effective_disposition corrected ≡ retryable_correction) × (2 < 2)))
    × (((route_by corrected spent).fallback ≡ true)
        ↔ ((effective_disposition corrected ≡ retryable_correction) × (2 ≤ 2) × (true ≡ true)))
    × ((effective_disposition corrected ≡ retryable_correction)
        → 2 ≤ 2
        → ((true ≡ true)
            × ((route_by corrected spent).outcome ≡ fallback_delivery)
            × ((route_by corrected spent).terminal ≡ false))
          ⊎ ((true ≡ false)
              × ((route_by corrected spent).outcome ≡ terminal_deny)
              × ((route_by corrected spent).terminal ≡ true)))
route_decision-retry_example =
    route_decision-retry corrected spent 2 2 (route_by corrected spent) refl refl
      (unfold route_decision in refl)

-- A cancellation joined with a panic.
abbrev stopped : Error
stopped =
    joined (
      cons (wrapped "rule stopped" (sentinel canceled))
        (cons (panic_error (sentinel canceled)) nil))

cancellation_only-causes_example :
    cancellation_only stopped ≡ all is_context_sentinel (causes stopped)
cancellation_only-causes_example = cancellation_only-causes stopped

-- One type, numbered 3, which is no interface.
abbrev types : Reflect
types = record { implements = λ a b. false; is_interface = λ a. false; type_string = λ a. "string" }

abbrev tenant : ScopeRequirement
tenant = record { key = "tenant"; contract = "string"; expected = some 3 }

abbrev any_tenant : ScopeRequirement
any_tenant = record { key = "tenant"; contract = ""; expected = none }

abbrev facts : Scope
facts = new_scope (("tenant", value 3 7) ∷ [])

facts_pass : check_scope_requirements types (some facts) (tenant ∷ any_tenant ∷ []) ≡ none
unfolding check_scope_requirements new_scope accepts
facts_pass = refl

check_scope_requirements-none_iff_example :
    (check_scope_requirements types (some facts) (tenant ∷ []) ≡ none)
    ↔ (all (satisfied types (or_empty (some facts))) (tenant ∷ []) ≡ true)
check_scope_requirements-none_iff_example =
    check_scope_requirements-none_iff types (some facts) (tenant ∷ [])

merge_scope_requirements_lem_example :
    all (satisfied types facts) (merge_scope_requirements (any_tenant ∷ []) (tenant ∷ []))
    ≡ (all (satisfied types facts) (any_tenant ∷ []) && all (satisfied types facts) (tenant ∷ []))
merge_scope_requirements_lem_example =
    merge_scope_requirements_lem types facts (any_tenant ∷ []) (tenant ∷ [])
