-- ===== src/Pipeline/Built.antt =====
-- What the construction of a pipeline guarantees to its runs.
use guardy.Base.{
  ℕ, ◌+◌, Bool, true, false, not, ◌&&◌, ◌≡◌, ◌↔◌, inl, inr, refl, sym, ◌∙◌, String, List, [], ◌∷◌,
  Option, none, some, any, all, Option-cases, Bool-cases, arith,
}
use guardy.Scope.{
  Reflect, Scope, validate_scope_declarations, merge_scope_requirements, check_scope_requirements,
  or_empty,
}
use guardy.Scope.Checking.{satisfied, check_scope_requirements-none_iff}
use guardy.Scope.Merging.{merge_scope_requirements_lem}
use guardy.Pipeline.Rules.{PolicyValidator, Pipeline}
use guardy.Pipeline.Build.{
  Built, built, first_nil, PipelineOption, new, apply_option, apply_options, nil_at, compile_scope,
  check_pipeline, new_pipeline,
}

first_nil-none {ℓ} :
    {A : Type ℓ} (absent : A → Bool) (i : ℕ) (xs : List A)
    → first_nil absent i xs ≡ none
    → any absent xs ≡ false
first_nil-none absent i [] e = refl
first_nil-none absent i (x ∷ xs) e = elim (Bool-cases (absent x)) [
  | inl h ↦ ground arith
  | inr h ↦ ground (arith, first_nil-none absent (i + 1) xs)
]

module _ {W T : Type 0} where
  -- Every requirement of every policy is met.
  abbrev pub policies_met : Reflect → Scope → List (PolicyValidator W T) → Bool
  policies_met reflect scope [] = true
  policies_met reflect scope (rule ∷ rules) =
      all (satisfied reflect scope) rule.required_scope && policies_met reflect scope rules

  nil_at-built :
      (o : Option ℕ) (text : String) (next : Built W T) (p : Pipeline W T)
      → nil_at o text next ≡ built p
      → (o ≡ none) × (next ≡ built p)
  nil_at-built none text next p e = (refl, e)
  nil_at-built (some i) text next p e = cc

  option_scope :
      (p : Pipeline W T) (o : PipelineOption W T)
      → (apply_option p o).required_scope ≡ p.required_scope
  unfolding apply_option
  option_scope p o = ground arith

  options_scope :
      (p : Pipeline W T) (opts : List (PipelineOption W T))
      → (apply_options p opts).required_scope ≡ p.required_scope
  unfolding apply_options
  options_scope p [] = refl
  options_scope p (o ∷ opts) = options_scope (apply_option p o) opts ∙ option_scope p o

  -- What compiling the scope keeps, and what it asks for.
  record Compiled (reflect : Reflect) (scope : Scope) (rules : List (PolicyValidator W T))
      (p q : Pipeline W T) : Type 0 where
    asks :
        all (satisfied reflect scope) q.required_scope
        ≡ (all (satisfied reflect scope) p.required_scope && policies_met reflect scope rules)
    same_sequential : q.sequential_path ≡ p.sequential_path
    same_parallel : q.parallel_path ≡ p.parallel_path
    same_policies : q.policy_validators ≡ p.policy_validators

  compile_scope-Compiled :
      (reflect : Reflect) (scope : Scope) (rules : List (PolicyValidator W T)) (p q : Pipeline W T)
      → compile_scope p rules ≡ built q
      → Compiled reflect scope rules p q
  unfolding compile_scope
  compile_scope-Compiled reflect scope [] p q e = record {
    asks = ground arith;
    same_sequential = ground arith;
    same_parallel = ground arith;
    same_policies = ground arith;
  }
  compile_scope-Compiled reflect scope (rule ∷ rules) p q e =
      elim (Option-cases (validate_scope_declarations rule.required_scope)) [
        | inr (err, h) ↦ ground arith
        | inl h ↦
            let c =
              compile_scope-Compiled reflect scope rules
                (record p {
                  required_scope = merge_scope_requirements p.required_scope rule.required_scope;
                })
                q (ground arith) in
            record {
              asks = ground (
                arith,
                c.asks,
                merge_scope_requirements_lem reflect scope p.required_scope rule.required_scope,
              );
              same_sequential = c.same_sequential;
              same_parallel = c.same_parallel;
              same_policies = c.same_policies;
            }
      ]

  check_pipeline-built :
      (p q : Pipeline W T)
      → check_pipeline p ≡ built q
      → ((p.user_channel_fallback_set && not p.user_channel) ≡ false)
        × (any (λ v. v.absent) p.sequential_path ≡ false)
        × (any (λ v. v.absent) p.parallel_path ≡ false)
        × (any (λ v. v.absent) p.policy_validators ≡ false)
        × (compile_scope p p.policy_validators ≡ built q)
  unfolding check_pipeline
  check_pipeline-built p q e =
      elim (Bool-cases (p.user_channel_fallback_set && not p.user_channel)) [
        | inl h ↦ ground arith
        | inr h ↦
            let (a, e') =
              nil_at-built (first_nil (λ v. v.absent) 0 p.sequential_path) "sequential" _ q
                (ground arith) in
            let (b, e'') =
              nil_at-built (first_nil (λ v. v.absent) 0 p.parallel_path) "parallel" _ q e' in
            let (c, f) =
              nil_at-built (first_nil (λ v. v.absent) 0 p.policy_validators) "policy" _ q e'' in
            (
              h,
              first_nil-none (λ v. v.absent) 0 p.sequential_path a,
              first_nil-none (λ v. v.absent) 0 p.parallel_path b,
              first_nil-none (λ v. v.absent) 0 p.policy_validators c,
              f,
            )
      ]

  -- A pipeline that was built holds no nil rule of any of its three kinds, and the check of its scope passes exactly when every
  -- requirement of every one of its policies is met.
  pub new_pipeline-built :
      (reflect : Reflect) (scope : Option Scope) (opts : List (PipelineOption W T))
      (p : Pipeline W T)
      → new_pipeline opts ≡ built p
      → (any (λ v. v.absent) p.sequential_path ≡ false)
        × (any (λ v. v.absent) p.parallel_path ≡ false)
        × (any (λ v. v.absent) p.policy_validators ≡ false)
        × ((check_scope_requirements reflect scope p.required_scope ≡ none)
            ↔ (policies_met reflect (or_empty scope) p.policy_validators ≡ true))
  unfolding new_pipeline
  new_pipeline-built reflect scope opts p e =
      let q : Pipeline W T = apply_options new opts in
      let (n, e') = nil_at-built _ "options" (check_pipeline q) p e in
      let (f, a, b, n', g) = check_pipeline-built q p e' in
      let c = compile_scope-Compiled reflect (or_empty scope) q.policy_validators q p g in
      let none_asked : q.required_scope ≡ [] = options_scope new opts in
      let asks : all (satisfied reflect (or_empty scope)) p.required_scope
          ≡ policies_met reflect (or_empty scope) p.policy_validators =
        ground (arith, c.asks, none_asked, c.same_policies) in
      let check = check_scope_requirements-none_iff reflect scope p.required_scope in
      (
        rw (c.same_sequential) a,
        rw (c.same_parallel) b,
        rw (c.same_policies) n',
        (λ h. sym asks ∙ check.0 h, λ h. check.1 (asks ∙ h)),
      )
