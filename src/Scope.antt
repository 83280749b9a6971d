-- ===== src/Scope.antt =====
-- scope.go: the typed facts that a pipeline needs from its caller. A Go value of type `any` is nil or
-- has a dynamic type, which is a number; what `reflect` says of the types is a parameter.
pub mod Merging
pub mod Checking
use text.Mathlib.Text.{◌==◌ as str_eq}
use guardy.Base.{
  ℕ, ◌==◌, Bool, true, false, not, ◌&&◌, ◌||◌, String, List, [], ◌∷◌, ◌++◌, Option, none, some,
  is_empty, if◌then◌else◌, any,
}
use guardy.Fault.Tree.{Error, scope_missing, scope_type, misconfigured}

pub data Value : Type 0 where
  nil_value : Value
  value : ℕ → ℕ → Value

pub record Reflect : Type 0 where
  pub implements : ℕ → ℕ → Bool
  pub is_interface : ℕ → Bool
  pub type_string : ℕ → String

-- `ExecutionScope`, by its method; a nil scope is `none` where the source allows it.
abbrev pub Scope : Type 0
Scope = String → Option Value

-- `MapScope{}`, and `NewScope()`.
abbrev pub empty_scope : Scope
empty_scope key = none

pub record ScopeRequirement : Type 0 where
  pub key : String
  pub contract : String
  pub expected : Option ℕ

-- `NewScope` keeps the last binding of a key and drops those of the empty key.
unfoldable pub new_scope : List (String × Value) → Scope
new_scope [] k = none
new_scope ((key, v) ∷ bindings) k = elim (new_scope bindings k) [
  | some w ↦ some w
  | none ↦ if is_empty key then none else if str_eq key k then some v else none
]

abbrev pub same_type : Option ℕ → Option ℕ → Bool
same_type none none = true
same_type (some a) (some b) = a == b
same_type _ _ = false

-- Equality of `requirementID`.
abbrev pub same_requirement : ScopeRequirement → ScopeRequirement → Bool
same_requirement a b =
    str_eq a.key b.key && str_eq a.contract b.contract && same_type a.expected b.expected

abbrev pub or_empty : Option Scope → Scope
or_empty none = empty_scope
or_empty (some s) = s

module _ (reflect : Reflect) where
  -- `accepts` of a requirement that names a type, at a value of that dynamic type.
  abbrev pub accepts_type : ScopeRequirement → Option ℕ → ℕ → Bool
  accepts_type r none actual = str_eq (reflect.type_string actual) r.contract
  accepts_type r (some e) actual =
      if reflect.is_interface e then reflect.implements actual e else actual == e

  abbrev pub accepts_value : ScopeRequirement → Value → Bool
  accepts_value r nil_value = false
  accepts_value r (value t payload) = accepts_type r r.expected t

  unfoldable pub accepts : ScopeRequirement → Value → Bool
  accepts r v = if is_empty r.contract then true else accepts_value r v

  -- The end of `checkScopeRequirements`: the keys that were missing, if any.
  abbrev pub missing_error : List String → Option Error
  missing_error [] = none
  missing_error (k ∷ ks) = some (scope_missing (k ∷ ks))

  -- The loop of `checkScopeRequirements`, with `missing` as an argument.
  unfoldable pub check_from : Scope → List String → List ScopeRequirement → Option Error
  check_from scope missing [] = missing_error missing
  check_from scope missing (req ∷ reqs) =
      let next = check_from scope missing reqs in
      let absent = check_from scope (missing ++ req.key ∷ []) reqs in
      if is_empty req.key then next else elim (scope req.key) [
        | none ↦ absent
        | some v ↦ if accepts req v then next else some (scope_type req.key)
      ]

  unfoldable pub check_scope_requirements : Option Scope → List ScopeRequirement → Option Error
  unfolding check_from
  check_scope_requirements scope reqs = check_from (or_empty scope) [] reqs

-- The first loop of `mergeScopeRequirements`: what was put out is what was seen.
unfoldable pub gather : List ScopeRequirement → List ScopeRequirement → List ScopeRequirement
gather out [] = out
gather out (req ∷ reqs) =
    gather
      (if is_empty req.key || any (λ r. same_requirement r req) out then out else out ++ req ∷ [])
      reqs

-- `typed[key]`: some requirement of that key names a type.
unfoldable pub typed : List ScopeRequirement → String → Bool
typed out key = any (λ r. not (is_empty r.contract) && str_eq r.key key) out

-- The second loop: a requirement by name alone yields to a typed one.
unfoldable pub filtered : List ScopeRequirement → List ScopeRequirement → List ScopeRequirement
filtered out [] = []
filtered out (req ∷ reqs) =
    if is_empty req.contract && typed out req.key
    then filtered out reqs
    else req ∷ filtered out reqs

abbrev pub merge_next : List ScopeRequirement → List ScopeRequirement → List ScopeRequirement
merge_next existing [] = existing
merge_next existing (req ∷ reqs) =
    let out = gather (gather [] existing) (req ∷ reqs) in filtered out out

unfoldable pub merge_scope_requirements :
    List ScopeRequirement → List ScopeRequirement → List ScopeRequirement
merge_scope_requirements existing next = merge_next existing next

-- `validateScopeDeclarations`.
unfoldable pub validate_scope_declarations : List ScopeRequirement → Option Error
validate_scope_declarations [] = none
validate_scope_declarations (req ∷ reqs) =
    if is_empty req.key
    then some (misconfigured "policy" "requirements.key" "empty")
    else if not (is_empty req.contract) && same_type req.expected none
    then some (misconfigured "policy" "requirements.type" "requires_scope_key")
    else validate_scope_declarations reqs

-- The two loops of `mergeRequiredKeys`.
unfoldable pub add_keys : List String → List String → List String
add_keys out [] = out
add_keys out (k ∷ ks) = add_keys (if any (λ j. str_eq j k) out then out else out ++ k ∷ []) ks

abbrev pub merge_keys : List String → List String → List String
merge_keys existing [] = existing
merge_keys existing (k ∷ ks) = add_keys (add_keys [] existing) (k ∷ ks)

abbrev pub keys_of : List ScopeRequirement → List String
keys_of [] = []
keys_of (req ∷ reqs) = if is_empty req.key then keys_of reqs else req.key ∷ keys_of reqs

unfoldable pub scope_requirement_keys : List ScopeRequirement → List String
unfolding add_keys
scope_requirement_keys reqs = merge_keys [] (keys_of reqs)
