-- ===== src/Route/Budget.antt =====
-- Routing by the disposition and the host's retry budget.
use guardy.Base.{ℕ, ◌≤◌, ◌<◌, true, false, ◌≡◌, ◌⊎◌, inl, inr, ◌↔◌, Bool-cases, arith}
use guardy.Kinds.{FailureDisposition, retryable_correction, system_fault}
use guardy.Decision.{Decision, effective_disposition}
use guardy.Route.{
  allow, fallback_delivery, terminal_deny, pos, is_negative, RemediationPolicy, GuardRoute, ok,
  route_decision, route_by,
}

-- With counters that are not negative a route is returned, and it lets the value through exactly
-- when the decision's effective disposition is none.
route_decision-allow :
    (d : Decision) (policy : RemediationPolicy)
    → is_negative policy.retry_attempt ≡ false
    → is_negative policy.max_retries ≡ false
    → (route : GuardRoute) × (route_decision d policy ≡ ok route)
      × ((route.outcome ≡ allow) ↔ (effective_disposition d ≡ FailureDisposition.none))
unfolding route_decision
route_decision-allow d policy h k =
    (route_by d policy, ground arith, (λ e. ground arith, λ e. ground arith))

-- When a route is returned for counters that are not negative, a retry is offered exactly when the
-- disposition asks for a correction and the attempt lies within the budget; when the budget of a
-- correction is spent, fallback delivery is chosen, which is not terminal, if the policy allows it,
-- and otherwise the outcome is a terminal denial.
pub route_decision-retry :
    (d : Decision) (policy : RemediationPolicy) (attempt budget : ℕ) (route : GuardRoute)
    → policy.retry_attempt ≡ pos attempt
    → policy.max_retries ≡ pos budget
    → route_decision d policy ≡ ok route
    → ((route.retryable ≡ true)
        ↔ ((effective_disposition d ≡ retryable_correction) × (attempt < budget)))
      × ((route.fallback ≡ true) ↔ (
          (effective_disposition d ≡ retryable_correction)
          × (budget ≤ attempt)
          × (policy.allow_fallback ≡ true)))
      × ((effective_disposition d ≡ retryable_correction)
          → budget ≤ attempt
          → ((policy.allow_fallback ≡ true)
              × (route.outcome ≡ fallback_delivery)
              × (route.terminal ≡ false))
            ⊎ ((policy.allow_fallback ≡ false)
                × (route.outcome ≡ terminal_deny)
                × (route.terminal ≡ true)))
unfolding route_decision
route_decision-retry d policy attempt budget route a b e = (
  (λ h. (ground arith, ground arith), λ h. ground arith),
  (λ h. (ground arith, ground arith, ground arith), λ h. ground arith),
  λ h l. elim (Bool-cases policy.allow_fallback) [
    | inl t ↦ inl (t, ground arith, ground arith)
    | inr f ↦ inr (f, ground arith, ground arith)
  ],
)

-- When a route is returned, a fault is always terminal, is never retried and never falls back.
route_decision-fault :
    (d : Decision) (policy : RemediationPolicy) (route : GuardRoute)
    → route_decision d policy ≡ ok route
    → effective_disposition d ≡ system_fault
    → (route.system_fault ≡ true)
      × (route.terminal ≡ true)
      × (route.retryable ≡ false)
      × (route.fallback ≡ false)
unfolding route_decision
route_decision-fault d policy route e h = (ground arith, ground arith, ground arith, ground arith)
