-- ===== src/Scope/Checking.antt =====
-- The scope check against its requirements one by one.
use guardy.Base.{
  Bool, true, false, ◌≡◌, ◌↔◌, List, [], ◌∷◌, ◌++◌, Option, none, some, is_empty, String,
  if◌then◌else◌, arith, all, not, ◌==◌, ◌||◌, ◌&&◌, Option-cases, inl, inr, ℕ,
}
use text.Mathlib.Text.{◌==◌ as str_eq}
use guardy.Scope.{
  Reflect, Scope, ScopeRequirement, Value, value, nil_value, accepts, check_from,
  check_scope_requirements, or_empty,
}

module _ (reflect : Reflect) where
  -- What a requirement that names a type asks of the type of a value: to implement the interface that
  -- is expected, to be the type that is expected, or else to have the name of the contract.
  abbrev pub fits_type : Option ℕ → String → ℕ → Bool
  fits_type none contract actual = str_eq (reflect.type_string actual) contract
  fits_type (some e) contract actual =
      (reflect.is_interface e && reflect.implements actual e)
      || (not (reflect.is_interface e) && actual == e)

  abbrev pub fits_value : ScopeRequirement → Value → Bool
  fits_value req nil_value = is_empty req.contract
  fits_value req (value t payload) = is_empty req.contract || fits_type req.expected req.contract t

  accepts-fits : (req : ScopeRequirement) (v : Value) → accepts reflect req v ≡ fits_value req v
  unfolding accepts
  accepts-fits req nil_value = ground arith
  accepts-fits req (value t payload) = elim (Option-cases req.expected) [
    | inl e ↦ rw e (ground arith)
    | inr (x, e) ↦ rw e (ground arith)
  ]

  -- A requirement is met by a value of its key that fits it; one of the empty key is void.
  abbrev pub satisfied : Scope → ScopeRequirement → Bool
  satisfied scope req =
      if is_empty req.key
      then true
      else elim (scope req.key) [ none ↦ false | some v ↦ fits_value req v ]

  not-none :
      (scope : Scope) (missing : List String) (key : String) (reqs : List ScopeRequirement)
      → check_from reflect scope (missing ++ key ∷ []) reqs ≡ none
      → ⊥
  unfolding check_from
  not-none scope [] key [] e = cc
  not-none scope (m ∷ ms) key [] e = cc
  not-none scope missing key (req ∷ reqs) e =
      ground
        (arith, not-none scope missing key reqs, not-none scope (missing ++ key ∷ []) req.key reqs)

  check_from-none :
      (scope : Scope) (reqs : List ScopeRequirement)
      → (check_from reflect scope [] reqs ≡ none) ↔ (all (satisfied scope) reqs ≡ true)
  unfolding check_from
  check_from-none scope [] = (λ e. ground arith, λ e. ground arith)
  check_from-none scope (req ∷ reqs) = elim (Option-cases (scope req.key)) [
    | inl h ↦ (
      λ e. ground (arith, not-none scope [] req.key reqs, check_from-none scope reqs),
      λ e. ground (arith, check_from-none scope reqs),
    )
    | inr (v, h) ↦ (
      λ e. ground (arith, check_from-none scope reqs, accepts-fits req v),
      λ e. ground (arith, check_from-none scope reqs, accepts-fits req v),
    )
  ]

  -- The check passes exactly when every requirement is met, with a nil scope as one that holds
  -- nothing.
  pub check_scope_requirements-none_iff :
      (scope : Option Scope) (reqs : List ScopeRequirement)
      → (check_scope_requirements reflect scope reqs ≡ none)
        ↔ (all (satisfied (or_empty scope)) reqs ≡ true)
  unfolding check_scope_requirements
  check_scope_requirements-none_iff scope reqs = check_from-none (or_empty scope) reqs
