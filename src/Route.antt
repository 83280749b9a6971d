-- ===== src/Route.antt =====
-- route.go: the routing outcome that the host acts on.
pub mod Budget
use guardy.Base.{
  ℕ, leb, ◌==◌, Bool, true, false, ◌||◌, String, is_empty, if◌then◌else◌, List, [], ◌∷◌,
}
use guardy.Kinds.{Action, block, PayloadKind, safe_user_text, same_action}
use guardy.Decision.{Decision, is_system_fault, is_retryable, is_terminal}

pub data GuardRouteOutcome : Type 0 where
  allow retry_correction terminal_deny system_fault fallback_delivery : GuardRouteOutcome

-- A Go int, signed: the counters are host values that may be negative.
pub data ℤ : Type 0 where
  pos : ℕ → ℤ
  negsuc : ℕ → ℤ

abbrev pub is_negative : ℤ → Bool
is_negative (pos n) = false
is_negative (negsuc n) = true

abbrev pub leb_ℤ : ℤ → ℤ → Bool
leb_ℤ (pos a) (pos b) = leb a b
leb_ℤ (pos a) (negsuc b) = false
leb_ℤ (negsuc a) (pos b) = true
leb_ℤ (negsuc a) (negsuc b) = leb b a

abbrev pub is_zero : ℤ → Bool
is_zero (pos n) = n == 0
is_zero (negsuc n) = false

pub record RemediationPolicy : Type 0 where
  pub retry_attempt : ℤ
  pub max_retries : ℤ
  pub allow_fallback : Bool
  pub fallback_message : String

pub record GuardRoute : Type 0 where
  pub outcome : GuardRouteOutcome
  pub retryable : Bool
  pub terminal : Bool
  pub system_fault : Bool
  pub fallback : Bool
  pub retry_exhausted : Bool
  pub safe_message : String
  pub retry_feedback : String
  pub code : String
  pub payload_kind : PayloadKind

-- The error is the field of the configuration error.
pub data Routed : Type 0 where
  ok : GuardRoute → Routed
  negative : String → Routed

abbrev pub first_non_empty : List String → String
first_non_empty [] = ""
first_non_empty (v ∷ vs) = if is_empty v then first_non_empty vs else v

unfoldable pub route_retry_correction : GuardRoute → RemediationPolicy → GuardRoute
route_retry_correction route policy =
    let r = record route { outcome = retry_correction; retryable = true } in
    let spent = record r { retry_exhausted = true; retryable = false } in
    if is_zero policy.max_retries || leb_ℤ policy.max_retries policy.retry_attempt
    then (if policy.allow_fallback
        then record spent {
          outcome = fallback_delivery;
          fallback = true;
          safe_message = first_non_empty (policy.fallback_message ∷ route.safe_message ∷ []);
        }
        else record spent { outcome = terminal_deny; terminal = true })
    else r

abbrev pub allowed : Decision → GuardRoute
allowed d = record {
  outcome = allow;
  retryable = false;
  terminal = false;
  system_fault = false;
  fallback = false;
  retry_exhausted = false;
  safe_message = d.safe_message;
  retry_feedback = d.retry_feedback;
  code = d.code;
  payload_kind = d.payload_kind;
}

-- The switch of `RouteDecision`.
unfoldable pub route_by : Decision → RemediationPolicy → GuardRoute
unfolding route_retry_correction is_system_fault is_retryable is_terminal
route_by d policy =
    if is_system_fault d
    then record (allowed d) {
      outcome = GuardRouteOutcome.system_fault;
      system_fault = true;
      terminal = true;
    }
    else if is_retryable d
    then route_retry_correction (allowed d) policy
    else if is_terminal d
    then record (allowed d) { outcome = terminal_deny; terminal = true }
    else if same_action d.action block
    then record (allowed d) { outcome = terminal_deny; terminal = true }
    else allowed d

unfoldable pub route_decision : Decision → RemediationPolicy → Routed
unfolding route_by
route_decision d policy =
    if is_negative policy.retry_attempt
    then negative "retry_attempt"
    else if is_negative policy.max_retries
    then negative "max_retries"
    else ok (route_by d policy)
