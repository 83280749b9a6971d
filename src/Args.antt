-- ===== src/Args.antt =====
-- args.go and decode.go: typed arguments, which a pipeline checks as raw text, a codec binds and encodes
-- again, and a final pipeline checks in their canonical form.
pub mod Validation
pub mod Corrections
pub mod Judged
use text.Mathlib.Text.{◌==◌ as str_eq}
use guardy.Base.{
  ℕ, ◌+◌, Bool, true, false, not, ◌||◌, ◌&&◌, String, List, [], ◌∷◌, ◌++◌, Option, none, some,
  is_some, if◌then◌else◌, ◌≡◌,
}
use guardy.Kinds.{retry, system_fault, PayloadKind, safe_user_text}
use guardy.Report.{
  Report, zero_report, finish_report, normalize_report, spec_of, effective, aggregate_payload_kind,
}
use guardy.Decision.{
  Decision, RunResult, decision_of, pass_decision, decision_from_report, policy_decision,
  policy_decision_report,
}
use guardy.Fault.Tree.{Error, leaf, misconfigured, validator_fault, retry_error, error_text}
use guardy.Fault.Walk.{callback_cancellation}
use guardy.Fault.Outcome.{validator_fault_report, error_from_decision}
use guardy.Scope.{
  Reflect, Scope, ScopeRequirement, check_scope_requirements, merge_scope_requirements,
  scope_requirement_keys,
}
use guardy.Delivery.{Runner}
use guardy.Pipeline.Build.{indexed}

-- A pipeline over texts as its clients see it: a run under each scope, and what it requires.
pub record TextGuard (W : Type 0) : Type 0 where
  pub runner : Option Scope → Runner W String
  pub required_scope : List ScopeRequirement
  pub name : String

-- A value by what `invokePostBind` finds as it follows pointers and interfaces.
pub data Bound (W T : Type 0) : Type 0 where
  invalid nil_pointer plain : Bound W T
  pointer interface : Bound W T → Bound W T
  validating : (W → (T × Option Error) × W) → Bound W T

module _ {W T : Type 0} where
  unfoldable pub invoke_post_bind : Bound W T → T → W → (T × Option Error) × W
  invoke_post_bind invalid value w = ((value, none), w)
  invoke_post_bind plain value w = ((value, none), w)
  invoke_post_bind nil_pointer value w =
      ((value, some (leaf "guardy: null argument cannot be validated")), w)
  invoke_post_bind (pointer b) value w = invoke_post_bind b value w
  invoke_post_bind (interface b) value w = invoke_post_bind b value w
  invoke_post_bind (validating f) value w = f w

pub record ArgsPipeline (W T : Type 0) : Type 0 where
  pub raw : TextGuard W
  pub final : Option (TextGuard W)
  pub require_final : Bool
  -- The codec of the caller; what it decodes is a value, maybe beside an error.
  pub decode : Option (W → String → (T × Option Error) × W)
  pub encode : Option (W → T → (String × Option Error) × W)
  pub identity : String

pub record GuardedArgs (T : Type 0) : Type 0 where
  pub value : T
  pub raw : String
  pub sanitized_raw : String
  pub reports : List Report
  pub decision : Decision
  pub payload_kind : PayloadKind
  pub configuration_id : String

-- A payload is returned beside its error.
pub record Validated (T : Type 0) : Type 0 where
  pub payload : GuardedArgs T
  pub error : Option Error

pub data ArgsOption (W T : Type 0) : Type 0 where
  nil_option : ArgsOption W T
  with_configuration_id : String → ArgsOption W T
  with_final_guard : Option (TextGuard W) → ArgsOption W T
  with_codec :
      Option (W → String → (T × Option Error) × W)
      → Option (W → T → (String × Option Error) × W)
      → ArgsOption W T

pub data Compiled (W T : Type 0) : Type 0 where
  compiled : ArgsPipeline W T → Compiled W T
  rejected : Error → Compiled W T

abbrev pub required_with :
    {W : Type 0} → List ScopeRequirement → Option (TextGuard W) → List ScopeRequirement
required_with raw none = raw
required_with raw (some final) = merge_scope_requirements raw final.required_scope

module _ {W T : Type 0} where
  -- The loop over the options, from the index `i` on.
  unfoldable pub apply_options : ℕ → ArgsPipeline W T → List (ArgsOption W T) → Compiled W T
  apply_options i p [] = compiled p
  apply_options i p (nil_option ∷ opts) =
      rejected (misconfigured "args" (indexed "options" i) "required")
  apply_options i p (with_configuration_id identity ∷ opts) =
      apply_options (i + 1) (record p { identity = identity }) opts
  apply_options i p (with_final_guard final ∷ opts) =
      apply_options (i + 1) (record p { final = final; require_final = true }) opts
  apply_options i p (with_codec decode encode ∷ opts) =
      apply_options (i + 1) (record p { decode = decode; encode = encode }) opts

  abbrev pub checked : Compiled W T → Compiled W T
  checked (rejected e) = rejected e
  checked (compiled p) =
      if not (is_some p.decode) || not (is_some p.encode)
      then rejected (misconfigured "args" "codec" "incomplete")
      else if p.require_final && not (is_some p.final)
      then rejected (misconfigured "args" "final" "required")
      else compiled p

  -- `CompileArgs` with the JSON codec, which an option replaces.
  unfoldable pub compile_args :
      (W → String → (T × Option Error) × W)
      → (W → T → (String × Option Error) × W)
      → Option (TextGuard W)
      → List (ArgsOption W T)
      → Compiled W T
  unfolding apply_options
  compile_args bind marshal none opts = rejected (misconfigured "args" "raw" "required")
  compile_args bind marshal (some raw) opts = checked (
      apply_options 0
        (record {
          raw = raw;
          final = none;
          require_final = false;
          decode = some bind;
          encode = some marshal;
          identity = raw.name;
        })
        opts)

  unfoldable pub required_scope : ArgsPipeline W T → List ScopeRequirement
  required_scope p = required_with p.raw.required_scope p.final

  unfoldable pub required_scope_keys : ArgsPipeline W T → List String
  unfolding required_scope
  required_scope_keys p = scope_requirement_keys (required_scope p)

-- `refreshGuardedArgsDecision`: the report that judges the reports, with the payload that shows it.
unfoldable pub refresh_report : List Report → Report
refresh_report reports = policy_decision_report reports (aggregate_payload_kind reports)

module _ {T : Type 0} where
  unfoldable pub refresh : GuardedArgs T → GuardedArgs T
  unfolding refresh_report
  refresh args = record args {
    payload_kind = aggregate_payload_kind args.reports;
    decision = decision_from_report (some (refresh_report args.reports));
  }

  abbrev pub add_reports : GuardedArgs T → List Report → GuardedArgs T
  add_reports args reports = record args { reports = args.reports ++ reports }

  unfoldable pub args_fault : GuardedArgs T → Error → Validated T
  unfolding refresh refresh_report
  args_fault payload cause =
      let args = add_reports payload (validator_fault_report cause ∷ []) in
      record {
        payload = refresh args;
        error =
            some (validator_fault cause (normalize_report (some (refresh_report args.reports))));
      }

  unfoldable pub args_from_run : T → String → String → RunResult String → GuardedArgs T
  args_from_run origin identity raw result = record {
    value = origin;
    raw = raw;
    sanitized_raw = result.output;
    reports = result.reports;
    decision = policy_decision result;
    payload_kind = result.output_kind;
    configuration_id = identity;
  }

  -- `GuardedArgs[T]{}` with the raw text and the identity.
  abbrev pub empty_args : T → String → String → GuardedArgs T
  empty_args origin identity raw = record {
    value = origin;
    raw = raw;
    sanitized_raw = "";
    reports = [];
    decision = pass_decision;
    payload_kind = safe_user_text;
    configuration_id = identity;
  }

-- The report of a correction that `bind` asks for.
unfoldable pub bind_report : String → String → Error → Report
bind_report code reason e =
    finish_report
      (record zero_report { action = retry; code = code; reason = reason; feedback = error_text e })
      (spec_of retry)

-- What `bind` returns: a value, a report that asks for a correction, or a fault.
pub data Binding (T : Type 0) : Type 0 where
  bound : T → Binding T
  corrects : Report → Binding T
  faults : Error → Binding T
