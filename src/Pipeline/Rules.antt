-- ===== src/Pipeline/Rules.antt =====
-- pipeline.go, validator.go, phase.go and observer.go: the rules of a pipeline and its middleware.
-- What the rules and the observer do to the rest of the program is
-- a change of a world `W`; `ctx_err` reads `ctx.Err()` off it. A panic is an outcome of a call.
use mathlib.Core.List.{reverse}
use guardy.Base.{
  Bool, true, false, ◌||◌, String, List, [], ◌∷◌, ◌++◌, Option, none, some, map, if◌then◌else◌,
}
use guardy.Report.{
  Report, normalize_report, is_observation, is_retryable_correction, is_terminal_deny,
  is_system_fault,
}
use guardy.Decision.{Decision, RunResult, decision_from_report}
use guardy.Fault.Tree.{Error, join}
use guardy.Scope.{Scope, ScopeRequirement}

pub data ValidationPhase : Type 0 where
  sequential policy parallel : ValidationPhase

-- What a rule reads off its context: the phase, and `ctx.Err()` at the call.
pub record Context : Type 0 where
  pub phase : ValidationPhase
  pub error : Option Error

-- A rule returns, or panics with the error that stands for the panic.
pub data Called (T : Type 0) : Type 0 where
  returned : T → Option Report → Option Error → Called T
  panicked : Error → Called T

-- A `Validator[T]`; an absent one is nil, or holds a nil pointer.
pub record Validator (W T : Type 0) : Type 0 where
  pub absent : Bool
  pub validate : Context → W → T → Called T × W

pub record PolicyValidator (W T : Type 0) : Type 0 where
  pub absent : Bool
  pub required_scope : List ScopeRequirement
  pub validate : Context → W → T → Scope → Called T × W

-- `GuardEvent`, of which the telemetry is a part of the decision.
pub record GuardEvent : Type 0 where
  pub scope : Scope
  pub decision : Decision
  pub report : Report
  pub phase : ValidationPhase
  pub pipeline_name : String

pub record Pipeline (W T : Type 0) : Type 0 where
  pub sequential_path : List (Validator W T)
  pub policy_validators : List (PolicyValidator W T)
  pub parallel_path : List (Validator W T)
  pub middlewares : List (Validator W T → Validator W T)
  pub observer : Option (W → GuardEvent → W)
  pub name : String
  pub required_keys : List String
  pub required_scope : List ScopeRequirement
  pub user_channel : Bool
  pub user_channel_fallback : String
  pub user_channel_fallback_set : Bool
  pub sequential_path_wrapped : List (Validator W T)
  pub parallel_path_wrapped : List (Validator W T)

pub record Call (T : Type 0) : Type 0 where
  pub output : T
  pub report : Option Report
  pub error : Option Error

-- A run returns a result beside its error.
pub record Outcome (T : Type 0) : Type 0 where
  pub result : RunResult T
  pub error : Option Error

-- How a phase goes on, or returns from `Run`.
pub data Next (W T : Type 0) : Type 0 where
  goes : T → List Report → W → Next W T
  ends : Outcome T → W → Next W T

-- A phase after another: a return from `Run` stays one.
abbrev pub and_then : {W T : Type 0} → Next W T → (T → List Report → W → Next W T) → Next W T
and_then (ends o w) k = ends o w
and_then (goes out reports w) k = k out reports w

unfoldable pub should_short_circuit : Option Report → Bool
should_short_circuit none = false
should_short_circuit (some rep) =
    if is_observation (some rep)
    then false
    else is_retryable_correction (some (normalize_report (some rep)))
      || is_terminal_deny (some (normalize_report (some rep)))
      || is_system_fault (some (normalize_report (some rep)))

-- The loop over the middlewares from the last to the first, which stops at a nil wrapper.
unfoldable pub wrap_from {ℓ} : {V : Type ℓ} → (V → Bool) → V → List (V → V) → V
wrap_from absent v [] = v
wrap_from absent v (mw ∷ mws) =
    let rest = wrap_from absent (mw v) mws in if absent (mw v) then mw v else rest

abbrev pub add_report : List Report → Option Report → List Report
add_report reports none = reports
add_report reports (some rep) = reports ++ (normalize_report (some rep) ∷ [])

abbrev pub join_ctx : Option Error → Option Error → Option Error
join_ctx err none = err
join_ctx err (some ctx) = some (join err ctx)

-- `newGuardEvent`: the decision is that of the report without its shadow mode.
unfoldable pub new_guard_event : Scope → Report → ValidationPhase → String → GuardEvent
new_guard_event scope rep phase name = record {
  scope = scope;
  decision = decision_from_report (some (record rep { shadow_mode = false }));
  report = rep;
  phase = phase;
  pipeline_name = name;
}

abbrev pub observe : {W : Type 0} → Option (W → GuardEvent → W) → W → GuardEvent → W
observe none w event = w
observe (some o) w event = o w event

module _ {W T : Type 0} where
  unfoldable pub notify_observer : Pipeline W T → Scope → Option Report → ValidationPhase → W → W
  notify_observer p scope none phase w = w
  notify_observer p scope (some rep) phase w =
      observe p.observer w (new_guard_event scope rep phase p.name)

  unfoldable pub wrap : Pipeline W T → Validator W T → Validator W T
  unfolding wrap_from
  wrap p v = wrap_from (λ u. u.absent) v (reverse p.middlewares)

  abbrev pub no_middlewares : List (Validator W T → Validator W T) → Bool
  no_middlewares [] = true
  no_middlewares (m ∷ ms) = false

  unfoldable pub sequential_chain : Pipeline W T → List (Validator W T)
  sequential_chain p =
      if no_middlewares p.middlewares then p.sequential_path else p.sequential_path_wrapped

  unfoldable pub parallel_chain : Pipeline W T → List (Validator W T)
  parallel_chain p =
      if no_middlewares p.middlewares then p.parallel_path else p.parallel_path_wrapped

  -- `policyValidatorAdapter`.
  unfoldable pub adapt : Scope → PolicyValidator W T → Validator W T
  adapt scope pv = record {
    absent = false;
    validate = λ ctx w input. pv.validate ctx w input scope;
  }

  unfoldable pub policy_chain : Pipeline W T → Scope → List (Validator W T)
  policy_chain p scope = map (λ pv. wrap p (adapt scope pv)) p.policy_validators
