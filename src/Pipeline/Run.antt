-- ===== src/Pipeline/Run.antt =====
-- pipeline.go and validator_panic.go: the guarded call of a rule, the result of a run and its two
-- sequential phases.
use guardy.Base.{Bool, not, ◌&&◌, ◌||◌, List, [], ◌∷◌, ◌++◌, Option, none, some, map, if◌then◌else◌}
use guardy.Kinds.{block, PayloadKind, safe_user_text, same_kind}
use guardy.Report.{
  Report, zero_report, normalize_report, finish_report, spec_of, is_observation, is_terminal_deny,
  is_system_fault, aggregate_payload_kind,
}
use guardy.Decision.{RunResult, decision_of, policy_decision_report}
use guardy.Fault.Tree.{Error, misconfigured, validator_fault}
use guardy.Fault.Walk.{append_completed_observations, with_completed_observations}
use guardy.Fault.Outcome.{validator_fault_report}
use guardy.Scope.{Scope}
use guardy.Pipeline.Rules.{
  ValidationPhase, sequential, policy, Context, Called, returned, panicked, Validator,
  PolicyValidator, Pipeline, Call, Outcome, Next, goes, ends, and_then, should_short_circuit,
  add_report, join_ctx, notify_observer, no_middlewares, sequential_chain, policy_chain,
}

module _ {W T : Type 0} where
  -- The report that `finalizeResult` adds on the user channel.
  unfoldable pub user_channel_report : Pipeline W T → PayloadKind → Report
  user_channel_report p kind =
      finish_report
        (record zero_report {
          action = block;
          validator = "user_channel";
          code = "POLICY_VIOLATION";
          reason = "output not safe for user channel";
          safe_user_message = p.user_channel_fallback;
          payload_kind = kind;
        })
        (spec_of block)

  -- The output kind is not fit for the user channel.
  unfoldable pub unsafe : Pipeline W T → List Report → Bool
  unsafe p reports =
      p.user_channel && not (same_kind (aggregate_payload_kind reports) safe_user_text)

  unfoldable pub channel_reports : Pipeline W T → List Report → List Report
  channel_reports p reports =
      if unsafe p reports
      then reports ++ (user_channel_report p (aggregate_payload_kind reports) ∷ [])
      else reports

  unfoldable pub denied : Pipeline W T → List Report → Bool
  denied p reports =
      p.user_channel
      && (is_terminal_deny (some (decision_of reports))
          || is_system_fault (some (decision_of reports)))

module _ {W T : Type 0} (origin : T) where
  abbrev pub recovered : Called T × W → Call T × W
  recovered (returned out rep err, w) = (record { output = out; report = rep; error = err }, w)
  recovered (panicked e, w) = (record { output = origin; report = none; error = some e }, w)

  unfoldable pub validate_safely : Validator W T → Context → W → T → Call T × W
  validate_safely v ctx w input =
      if v.absent
      then (
        record {
          output = origin;
          report = none;
          error = some (misconfigured "pipeline" "runtime_wrapper" "nil");
        },
        w,
      )
      else recovered (v.validate ctx w input)

  unfoldable pub validate_policy_safely : PolicyValidator W T → Context → Scope → W → T → Call T × W
  validate_policy_safely pv ctx scope w input = recovered (pv.validate ctx w input scope)

  unfoldable pub finalize_result : Pipeline W T → T → List Report → RunResult T
  finalize_result p output reports =
      let all = channel_reports p reports in
      record {
        output = if unsafe p reports || denied p all then origin else output;
        reports = all;
        output_kind = aggregate_payload_kind all;
      }

  abbrev pub finalized : Pipeline W T → T → List Report → Outcome T
  finalized p output reports = record { result = finalize_result p output reports; error = none }

-- `validatorFaultResult`: the completed reports go with the cause, and the fault is the last report.
unfoldable pub validator_fault_result : {T : Type 0} → T → List Report → Error → Outcome T
validator_fault_result output reports cause =
    let carried = with_completed_observations cause (map some reports) in
    let all = reports ++ (validator_fault_report carried ∷ []) in
    let kind = aggregate_payload_kind all in
    record {
      result = record { output = output; reports = all; output_kind = kind };
      error =
          some
            (validator_fault carried (normalize_report (some (policy_decision_report all kind))));
    }

module _ {W T : Type 0} (ctx_err : W → Option Error) (origin : T) (p : Pipeline W T)
    (scope : Scope) where
  -- What `Run` does with a call that returned no error.
  unfoldable pub after_report : ValidationPhase → Call T → List Report → W → Next W T
  after_report phase call reports w =
      let all = add_report reports call.report in
      if should_short_circuit call.report
      then ends (finalized origin p call.output all) w
      else if is_observation call.report
      then goes call.output all (notify_observer p scope call.report phase w)
      else goes call.output all w

  unfoldable pub after_call : ValidationPhase → T → List Report → Call T × W → Next W T
  after_call phase current reports (call, w) = elim (join_ctx call.error (ctx_err w)) [
    | some e ↦ ends (validator_fault_result current (append_completed_observations reports e) e) w
    | none ↦ after_report phase call reports w
  ]

  -- The loop of a sequential phase over its rules, each a call of a rule under `recover`.
  unfoldable pub run_rules :
      ValidationPhase → List (Context → W → T → Call T × W) → T → List Report → W → Next W T
  run_rules phase [] current reports w = goes current reports w
  run_rules phase (rule ∷ rules) current reports w = elim (ctx_err w) [
    | some e ↦ ends (validator_fault_result current reports e) w
    | none ↦
        and_then
          (after_call phase current reports
            (rule (record { phase = phase; error = none }) w current))
          (λ out all v. run_rules phase rules out all v)
  ]

  abbrev pub sequential_rules : List (Context → W → T → Call T × W)
  sequential_rules = map (λ v. validate_safely origin v) (sequential_chain p)

  -- Without middleware the policies are called directly.
  abbrev pub policy_rules : List (Context → W → T → Call T × W)
  policy_rules =
      if no_middlewares p.middlewares
      then map (λ pv ctx w x. validate_policy_safely origin pv ctx scope w x) p.policy_validators
      else map (λ v. validate_safely origin v) (policy_chain p scope)

  -- The two sequential phases of `Run`.
  unfoldable pub run_sequential : T → W → Next W T
  run_sequential input w =
      and_then (run_rules sequential sequential_rules input [] w)
        (λ out reports v. run_rules policy policy_rules out reports v)
