-- ===== src/Delivery/Runs.antt =====
-- How a delivery meets the pipeline: the runs of a pipeline fill the interface that delivery uses, and
-- a run that failed is never delivered.
use guardy.Base.{ℕ, false, ◌≡◌, refl, String, List, Option, none, some, is_some, arith, ap}
use guardy.Kinds.{system_fault}
use guardy.Report.{Report, effective, is_observation, normalize_report}
use guardy.Report.Disposition.{effective_stable}
use guardy.Decision.{decision_from_report, policy_decision}
use guardy.Fault.Tree.{Error}
use guardy.Scope.{Reflect, Scope}
use guardy.Pipeline.Rules.{Pipeline, Outcome}
use guardy.Pipeline.Parallel.{run}
use guardy.Pipeline.Schedules.{run-fault}
use guardy.Delivery.{
  Runner, DeliveryPolicy, guard_delivery, after_run, guarded_output_from_run, suppress_delivery,
  validate_delivery_policy,
}

-- The runs of a pipeline under a scheduler that finishes the parallel phase.
abbrev pub pipeline_runner :
    {W T : Type 0} (reflect : Reflect) (ctx_err : W → Option Error) (origin : T) (p : Pipeline W T)
    (scope : Option Scope) (pick : W → T → List ℕ)
    → ((w : W) (input : T)
        → (r : Outcome T × W) × (run reflect ctx_err origin p scope input (pick w input) w
            ≡ some r))
    → Runner W T
pipeline_runner reflect ctx_err origin p scope pick finishes = record {
  run = λ w input. (finishes w input).0;
  name = p.name;
  fails_closed = λ w input e.
      run-fault reflect ctx_err origin p scope input (pick w input) w _ _ (finishes w input).1 e;
}

fault-decision :
    (r : Report)
    → effective r ≡ system_fault
    → (decision_from_report (some r)).disposition ≡ system_fault
unfolding decision_from_report is_observation normalize_report
fault-decision r e = ground (arith, effective_stable r)

module _ {W T : Type 0} (origin : T) (ctx_err : W → Option Error) (runner : Runner W T)
    (policy : DeliveryPolicy W T) where
  -- When the policy is valid and the run returns an error, nothing is delivered, not even a fallback:
  -- the value is the zero value, the error is that of the run, and the decision is a fault.
  guard_delivery-run_error :
      (trim_space : String → String) (w : W) (output : T) (err : Error)
      → validate_delivery_policy trim_space policy ≡ none
      → (runner.run w output).0.error ≡ some err
      → let d = guard_delivery origin ctx_err runner policy trim_space w output in
        (d.0.guarded.deliverable ≡ false)
        × (d.0.guarded.fallback ≡ false)
        × (d.0.guarded.value ≡ origin)
        × (d.0.error ≡ some err)
        × (d.0.guarded.decision.disposition ≡ system_fault)
  unfolding guard_delivery after_run suppress_delivery guarded_output_from_run policy_decision
  guard_delivery-run_error trim_space w output err v e =
      rw (v, guard_delivery, e, after_run)
        (refl, refl, refl, refl, fault-decision _ (runner.fails_closed w output (ap is_some e)))
