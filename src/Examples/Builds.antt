-- ===== src/Examples/Builds.antt =====
-- A pipeline built of options, with a policy that needs a tenant.
use guardy.Base.{ℕ, ◌+◌, true, false, ◌≡◌, ◌↔◌, refl, List, [], ◌∷◌, none, some, any}
use guardy.Scope.{
  Reflect, Scope, value, new_scope, check_scope_requirements, or_empty, validate_scope_declarations,
  merge_scope_requirements, gather, typed, filtered, scope_requirement_keys, add_keys,
}
use guardy.Pipeline.Rules.{returned, Validator, PolicyValidator, Pipeline}
use guardy.Pipeline.Build.{
  Built, built, rejected, PipelineOption, with_sequential, with_policy_validators,
  with_user_channel_fallback, new, new_pipeline, apply_options, apply_option, check_pipeline,
  compile_scope, decimal_from,
}
use guardy.Pipeline.Built.{policies_met, new_pipeline-built}
use guardy.Fault.Tree.{misconfigured}

abbrev types : Reflect
types = record { implements = λ a b. false; is_interface = λ a. false; type_string = λ a. "string" }

abbrev passing : Validator ℕ ℕ
passing = record { absent = false; validate = λ ctx w input. (returned (input + 1) none none, w) }

abbrev nil_rule : Validator ℕ ℕ
nil_rule = record passing { absent = true }

abbrev tenant_policy : PolicyValidator ℕ ℕ
tenant_policy = record {
  absent = false;
  required_scope = record { key = "tenant"; contract = "string"; expected = some 3 } ∷ [];
  validate = λ ctx w input scope. (returned input none none, w);
}

abbrev options : List (PipelineOption ℕ ℕ)
options = with_sequential (passing ∷ []) ∷ with_policy_validators (tenant_policy ∷ []) ∷ []

abbrev facts : Scope
facts = new_scope (("tenant", value 3 7) ∷ [])

abbrev pipeline_of : Built ℕ ℕ → Pipeline ℕ ℕ
pipeline_of (built p) = p
pipeline_of (rejected e) = new

abbrev tenant_pipeline : Pipeline ℕ ℕ
tenant_pipeline = pipeline_of (new_pipeline options)

nil_rule_rejected :
    new_pipeline (with_sequential (passing ∷ nil_rule ∷ []) ∷ [])
    ≡ rejected (misconfigured "pipeline" "sequential[1]" "nil")
unfolding new_pipeline apply_options apply_option check_pipeline compile_scope decimal_from
    validate_scope_declarations merge_scope_requirements gather typed filtered
    scope_requirement_keys add_keys
nil_rule_rejected = refl

fallback_rejected :
    new_pipeline {W = ℕ} {T = ℕ} (with_user_channel_fallback "Sorry." ∷ [])
    ≡ rejected (misconfigured "pipeline" "fallback" "requires_user_channel")
unfolding new_pipeline apply_options apply_option check_pipeline compile_scope decimal_from
    validate_scope_declarations merge_scope_requirements gather typed filtered
    scope_requirement_keys add_keys
fallback_rejected = refl

new_pipeline-built_example :
    (any (λ v. v.absent) tenant_pipeline.sequential_path ≡ false)
    × (any (λ v. v.absent) tenant_pipeline.parallel_path ≡ false)
    × (any (λ v. v.absent) tenant_pipeline.policy_validators ≡ false)
    × ((check_scope_requirements types (some facts) tenant_pipeline.required_scope ≡ none)
        ↔ (policies_met types (or_empty (some facts)) tenant_pipeline.policy_validators ≡ true))
new_pipeline-built_example = new_pipeline-built types (some facts) options tenant_pipeline (
    unfold new_pipeline apply_options apply_option check_pipeline compile_scope decimal_from
      validate_scope_declarations merge_scope_requirements gather typed filtered
      scope_requirement_keys add_keys in
    refl)
