-- ===== src/Boundary.antt =====
-- boundary.go: the scope factory of the wrappers, boundary profiles and the projection of a delivery.
pub mod Profile
use guardy.Base.{
  Bool, true, false, not, String, List, [], ◌∷◌, Option, none, some, is_empty, if◌then◌else◌, any,
}
use text.Mathlib.Text.{◌==◌ as str_eq}
use guardy.Fault.Tree.{Error, validator_fault}
use guardy.Fault.Outcome.{validator_fault_report}
use guardy.Report.{normalize_report}
use guardy.Scope.{Scope, empty_scope}
use guardy.Delivery.{GuardedDelivery}

-- What `ScopeFactory.scope` returns; the scope itself may be nil.
pub data ScopeAnswer : Type 0 where
  scoped : Option Scope → ScopeAnswer
  scope_failed : Error → ScopeAnswer

-- `validatorFaultError`.
unfoldable pub validator_fault_error : Error → Error
validator_fault_error cause =
    validator_fault cause (normalize_report (some (validator_fault_report cause)))

module _ {W : Type 0} (ctx_err : W → Option Error) where
  abbrev pub Factory : Type 0
  Factory = W → ScopeAnswer × W

  -- The context is asked once more after the factory.
  abbrev pub settled : ScopeAnswer × W → ScopeAnswer × W
  settled (scope_failed e, w) = (scope_failed (validator_fault_error e), w)
  settled (scoped s, w) = elim (ctx_err w) [
    | some e ↦ (scope_failed (validator_fault_error e), w)
    | none ↦ (scoped s, w)
  ]

  abbrev pub called : Option Factory → W → ScopeAnswer × W
  called none w = (scoped (some empty_scope), w)
  called (some f) w = settled (f w)

  unfoldable pub scope_of : Option Factory → W → ScopeAnswer × W
  unfolding validator_fault_error
  scope_of factory w = elim (ctx_err w) [
    | some e ↦ (scope_failed (validator_fault_error e), w)
    | none ↦ called factory w
  ]

-- A boundary is a string; these are known.
abbrev pub known_boundaries : List String
known_boundaries =
    "input" ∷ "arguments" ∷ "handler_result" ∷ "context" ∷ "persistence" ∷ "export" ∷ "delivery"
    ∷ []

abbrev pub member : String → List String → Bool
member b bs = any (λ k. str_eq k b) bs

unfoldable pub known_boundary : String → Bool
known_boundary b = member b known_boundaries

pub record BoundaryProfile : Type 0 where
  pub identity : String
  pub covered : List String

-- `BoundaryConfigurationError`, by the boundary and the code.
pub data Compiled : Type 0 where
  compiled : BoundaryProfile → Compiled
  rejected : String → String → Compiled

-- The two loops of `CompileBoundaryProfile`; what is covered so far is the argument.
abbrev pub require : String → List String → List String → Compiled
require identity covered [] = compiled (record { identity = identity; covered = covered })
require identity covered (b ∷ bs) =
    if member b covered
    then require identity covered bs
    else rejected b "unsupported_mandatory_boundary"

abbrev pub support : String → List String → List String → List String → Compiled
support identity mandatory covered [] = require identity covered mandatory
support identity mandatory covered (b ∷ bs) =
    let rest = support identity mandatory (b ∷ covered) bs in
    if known_boundary b then rest else rejected b "incompatible_boundary"

unfoldable pub compile_boundary_profile : String → List String → List String → Compiled
unfolding known_boundary
compile_boundary_profile identity supported mandatory =
    if is_empty identity
    then rejected "" "missing_identity"
    else support identity mandatory [] supported

unfoldable pub covers : BoundaryProfile → String → Bool
covers p b = member b p.covered

-- `DeliveryProjection`.
pub record DeliveryProjection (T : Type 0) : Type 0 where
  pub value : T
  pub channel : String
  pub fallback : Bool

-- `Projection`, which asks `DeliverableValue`.
unfoldable pub projection : {T : Type 0} → GuardedDelivery T → Option (DeliveryProjection T)
projection o =
    if o.deliverable
    then some (record { value = o.value; channel = o.channel; fallback = o.fallback })
    else none
