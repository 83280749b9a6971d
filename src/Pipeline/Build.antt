-- ===== src/Pipeline/Build.antt =====
-- pipeline.go: `NewPipeline` with its options, and `Use`. The layers that `Use` keeps for streaming
-- are looked through for nil and then dropped.
use Prim.Native.String
use mathlib.Core.List.{reverse}
use guardy.Base.{
  ℕ, zero, suc, ◌+◌, ◌/◌, ◌%◌, ltb, ◌==◌, Bool, true, false, not, ◌&&◌, String, List, [], ◌∷◌, ◌++◌,
  Option, none, some, map, if◌then◌else◌, any,
}
use guardy.Fault.Tree.{Error, misconfigured}
use guardy.Scope.{
  validate_scope_declarations, merge_scope_requirements, scope_requirement_keys, empty_scope,
}
use guardy.Pipeline.Rules.{GuardEvent, Validator, PolicyValidator, Pipeline, wrap, adapt}

-- `fmt.Sprintf("%s[%d]", text, n)`. A number has at most as many digits as one above it counts.
abbrev pub digit : ℕ → String
digit n =
    if n == 0
    then "0"
    else if n == 1
    then "1"
    else if n == 2
    then "2"
    else if n == 3
    then "3"
    else if n == 4
    then "4"
    else if n == 5
    then "5"
    else if n == 6
    then "6"
    else if n == 7
    then "7"
    else if n == 8
    then "8"
    else "9"

unfoldable pub decimal_from : ℕ → ℕ → String
decimal_from zero n = ""
decimal_from (suc fuel) n =
    let rest = decimal_from fuel (n / 10) in
    if ltb n 10 then digit n else String.◌++◌ rest (digit (n % 10))

abbrev pub indexed : String → ℕ → String
indexed text n = String.◌++◌ text (String.◌++◌ "[" (String.◌++◌ (decimal_from (n + 1) n) "]"))

-- A pipeline, or the error of its configuration.
pub data Built (W T : Type 0) : Type 0 where
  built : Pipeline W T → Built W T
  rejected : Error → Built W T

-- The first place from `i` on at which a list holds nil.
abbrev pub first_nil {ℓ} : {A : Type ℓ} → (A → Bool) → ℕ → List A → Option ℕ
first_nil absent i [] = none
first_nil absent i (x ∷ xs) =
    let rest = first_nil absent (i + 1) xs in if absent x then some i else rest

-- `PipelineOption`, by its constructor; the observer may be nil.
pub data PipelineOption (W T : Type 0) : Type 0 where
  nil_option with_user_channel : PipelineOption W T
  with_observer : Option (W → GuardEvent → W) → PipelineOption W T
  with_pipeline_name with_user_channel_fallback : String → PipelineOption W T
  with_sequential with_parallel : List (Validator W T) → PipelineOption W T
  with_policy_validators : List (PolicyValidator W T) → PipelineOption W T

-- `new(Pipeline[T])`.
abbrev pub new : {W T : Type 0} → Pipeline W T
new = record {
  sequential_path = [];
  policy_validators = [];
  parallel_path = [];
  middlewares = [];
  observer = none;
  name = "";
  required_keys = [];
  required_scope = [];
  user_channel = false;
  user_channel_fallback = "";
  user_channel_fallback_set = false;
  sequential_path_wrapped = [];
  parallel_path_wrapped = [];
}

module _ {W T : Type 0} where
  unfoldable pub apply_option : Pipeline W T → PipelineOption W T → Pipeline W T
  apply_option p nil_option = p
  apply_option p with_user_channel = record p { user_channel = true }
  apply_option p (with_observer o) = record p { observer = o }
  apply_option p (with_pipeline_name name) = record p { name = name }
  apply_option p (with_user_channel_fallback msg) = record p {
    user_channel_fallback = msg;
    user_channel_fallback_set = true;
  }
  apply_option p (with_sequential v) = record p { sequential_path = p.sequential_path ++ v }
  apply_option p (with_parallel v) = record p { parallel_path = p.parallel_path ++ v }
  apply_option p (with_policy_validators pv) = record p {
    policy_validators = p.policy_validators ++ pv;
  }

  abbrev pub is_nil_option : PipelineOption W T → Bool
  is_nil_option nil_option = true
  is_nil_option _ = false

  unfoldable pub apply_options : Pipeline W T → List (PipelineOption W T) → Pipeline W T
  apply_options p [] = p
  apply_options p (opt ∷ opts) = apply_options (apply_option p opt) opts

  abbrev pub nil_at : Option ℕ → String → Built W T → Built W T
  nil_at none text next = next
  nil_at (some i) text next = rejected (misconfigured "pipeline" (indexed text i) "nil")

  -- The loop that compiles the scope requirements of the policies.
  unfoldable pub compile_scope : Pipeline W T → List (PolicyValidator W T) → Built W T
  compile_scope p [] = built (record p { required_keys = scope_requirement_keys p.required_scope })
  compile_scope p (rule ∷ rules) =
      let rest =
        compile_scope
          (record p {
            required_scope = merge_scope_requirements p.required_scope rule.required_scope;
          })
          rules in
      elim (validate_scope_declarations rule.required_scope) [ some e ↦ rejected e | none ↦ rest ]

  -- `NewPipeline` after the options were applied.
  unfoldable pub check_pipeline : Pipeline W T → Built W T
  check_pipeline p =
      if p.user_channel_fallback_set && not p.user_channel
      then rejected (misconfigured "pipeline" "fallback" "requires_user_channel")
      else nil_at (first_nil (λ v. v.absent) 0 p.sequential_path) "sequential" (
          nil_at (first_nil (λ v. v.absent) 0 p.parallel_path) "parallel" (
            nil_at (first_nil (λ v. v.absent) 0 p.policy_validators) "policy"
              (compile_scope p p.policy_validators)))

  unfoldable pub new_pipeline : List (PipelineOption W T) → Built W T
  new_pipeline opts =
      nil_at (first_nil is_nil_option 0 opts) "options" (check_pipeline (apply_options new opts))

  -- The layers of a rule under the middlewares from the last to the first, up to a nil one.
  unfoldable pub layers_from :
      Validator W T → List (Validator W T → Validator W T) → List (Validator W T)
  layers_from v [] = []
  layers_from v (mw ∷ mws) =
      let rest = layers_from (mw v) mws in if (mw v).absent then mw v ∷ [] else mw v ∷ rest

  abbrev pub has_nil_layer : Pipeline W T → List (Validator W T) → Bool
  has_nil_layer p rules =
      any (λ v. any (λ u. u.absent) (layers_from v (reverse p.middlewares))) rules

  abbrev pub is_nil_middleware : Option (Validator W T → Validator W T) → Bool
  is_nil_middleware none = true
  is_nil_middleware (some mw) = false

  abbrev pub present :
      List (Option (Validator W T → Validator W T)) → List (Validator W T → Validator W T)
  present [] = []
  present (none ∷ mws) = present mws
  present (some mw ∷ mws) = mw ∷ present mws

  -- `Use` with the middlewares found not nil; without any the pipeline itself is returned.
  unfoldable pub add_middlewares : Pipeline W T → List (Validator W T → Validator W T) → Built W T
  add_middlewares p [] = built p
  add_middlewares p (mw ∷ mws) =
      let next : Pipeline W T = record p { middlewares = p.middlewares ++ mw ∷ mws } in
      if has_nil_layer next
        (p.sequential_path ++ p.parallel_path ++ map (adapt empty_scope) p.policy_validators)
      then rejected (misconfigured "pipeline" "middleware.wrapper" "nil")
      else built (record next {
        sequential_path_wrapped = map (wrap next) p.sequential_path;
        parallel_path_wrapped = map (wrap next) p.parallel_path;
      })

  unfoldable pub use_middlewares :
      Pipeline W T → List (Option (Validator W T → Validator W T)) → Built W T
  use_middlewares p mws =
      nil_at (first_nil is_nil_middleware 0 mws) "middleware" (add_middlewares p (present mws))
