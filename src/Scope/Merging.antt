-- ===== src/Scope/Merging.antt =====
-- Merging requirements loses none: a scope meets the merged list exactly when it meets both.
use text.Mathlib.TextEquality.{eq_iff}
use guardy.Base.{
  ℕ, Bool, true, ◌≡◌, ◌&&◌, ◌||◌, List, [], ◌∷◌, ◌++◌, Option, none, some, is_empty, refl, ap, ◌∙◌,
  arith, all, any, Bool-cases, inl, inr,
}
use guardy.Scope.{
  Reflect, Scope, ScopeRequirement, accepts, same_requirement, same_type, gather, typed, filtered,
  merge_scope_requirements,
}
use guardy.Scope.Checking.{satisfied}

same_type-eq : (a b : Option ℕ) → same_type a b ≡ true → a ≡ b
same_type-eq none none e = refl
same_type-eq none (some b) e = cc
same_type-eq (some a) none e = cc
same_type-eq (some a) (some b) e = ground arith

same_requirement-eq : (a b : ScopeRequirement) → same_requirement a b ≡ true → a ≡ b
same_requirement-eq a b e =
    ground
      (arith, eq_iff a.key b.key, eq_iff a.contract b.contract, same_type-eq a.expected b.expected)

module _ (p : ScopeRequirement → Bool) where
  all-append : (xs ys : List ScopeRequirement) → all p (xs ++ ys) ≡ (all p xs && all p ys)
  all-append [] ys = refl
  all-append (x ∷ xs) ys = ground (arith, all-append xs ys)

  all-any :
      (out : List ScopeRequirement) (r : ScopeRequirement)
      → any (λ x. same_requirement x r) out ≡ true
      → all p out ≡ true
      → p r ≡ true
  all-any [] r e h = cc
  all-any (x ∷ out) r e h = elim (Bool-cases (same_requirement x r)) [
    | inl same ↦ rw (← same_requirement-eq x r same) (ground arith)
    | inr other ↦ all-any out r (ground arith) (ground arith)
  ]

  -- What the first loop drops is void or was seen.
  gather-all :
      (void : (r : ScopeRequirement) → is_empty r.key ≡ true → p r ≡ true)
      (out reqs : List ScopeRequirement)
      → all p (gather out reqs) ≡ (all p out && all p reqs)
  unfolding gather
  gather-all void out [] = ground arith
  gather-all void out (r ∷ reqs) = ground (
    arith,
    void r,
    all-any out r,
    all-append out (r ∷ []),
    gather-all void out reqs,
    gather-all void (out ++ r ∷ []) reqs,
  )

  abbrev typed_or : ScopeRequirement → Bool
  typed_or r = is_empty r.contract || p r

  filtered-typed :
      (out reqs : List ScopeRequirement)
      → all p (filtered out reqs) ≡ true
      → all typed_or reqs ≡ true
  unfolding filtered
  filtered-typed out [] h = refl
  filtered-typed out (r ∷ reqs) h = ground (arith, filtered-typed out reqs)

  all-filtered :
      (out reqs : List ScopeRequirement) → all p reqs ≡ true → all p (filtered out reqs) ≡ true
  unfolding filtered
  all-filtered out [] h = refl
  all-filtered out (r ∷ reqs) h = ground (arith, all-filtered out reqs)

  module _
      (named : (r t : ScopeRequirement)
        → is_empty r.contract ≡ true
        → t.key ≡ r.key
        → p t ≡ true
        → p r ≡ true) where
    typed-met :
        (out : List ScopeRequirement) (r : ScopeRequirement)
        → is_empty r.contract ≡ true
        → typed out r.key ≡ true
        → all typed_or out ≡ true
        → p r ≡ true
    unfolding typed
    typed-met [] r n t h = cc
    typed-met (x ∷ out) r n t h = ground (arith, named r x, typed-met out r, eq_iff x.key r.key)

    filtered-all :
        (out reqs : List ScopeRequirement)
        → all typed_or out ≡ true
        → all p (filtered out reqs) ≡ true
        → all p reqs ≡ true
    unfolding filtered
    filtered-all out [] t h = refl
    filtered-all out (r ∷ reqs) t h = ground (arith, typed-met out r, filtered-all out reqs)

Bool-iff : (a b : Bool) → (a ≡ true → b ≡ true) → (b ≡ true → a ≡ true) → a ≡ b
Bool-iff a b f g = ground arith

module _ (reflect : Reflect) (scope : Scope) where
  void : (r : ScopeRequirement) → is_empty r.key ≡ true → satisfied reflect scope r ≡ true
  void r e = ground arith

  named :
      (r t : ScopeRequirement)
      → is_empty r.contract ≡ true
      → t.key ≡ r.key
      → satisfied reflect scope t ≡ true
      → satisfied reflect scope r ≡ true
  named r t n k h = unfold accepts in ground (arith, ap scope k)

  merge_next_lem :
      (existing : List ScopeRequirement) (req : ScopeRequirement) (reqs : List ScopeRequirement)
      → let p = satisfied reflect scope in
        all p (merge_scope_requirements existing (req ∷ reqs))
        ≡ (all p existing && all p (req ∷ reqs))
  unfolding merge_scope_requirements
  merge_next_lem existing req reqs =
      let p : ScopeRequirement → Bool = satisfied reflect scope in
      let out : List ScopeRequirement = gather (gather [] existing) (req ∷ reqs) in
      Bool-iff _ _ (λ h. filtered-all p named out out (filtered-typed p out out h) h)
        (λ h. all-filtered p out out h)
      ∙ gather-all p void (gather [] existing) (req ∷ reqs)
      ∙ ap (λ b. b && all p (req ∷ reqs)) (gather-all p void [] existing)

  -- A scope meets a merged list of requirements exactly when it meets both lists: dropping
  -- duplicates, and names that a typed requirement covers, loses no requirement.
  pub merge_scope_requirements_lem :
      (existing next : List ScopeRequirement)
      → let p = satisfied reflect scope in
        all p (merge_scope_requirements existing next) ≡ (all p existing && all p next)
  merge_scope_requirements_lem existing [] = unfold merge_scope_requirements in ground arith
  merge_scope_requirements_lem existing (req ∷ reqs) = merge_next_lem existing req reqs
