-- ===== src/Pipeline/Parallel.antt =====
-- pipeline.go: the parallel phase and `Run`. Each goroutine is a task that takes one step at a time,
-- where a step is a call of its rule, a test of the context or one section under the mutex; which
-- task steps is the scheduler's choice. The group of `errgroup` keeps the first error that a task
-- returned and cancels the group's context.
use guardy.Base.{
  ℕ, zero, suc, Bool, true, false, not, ◌&&◌, ◌||◌, List, [], ◌∷◌, ◌++◌, Option, none, some, map,
  if◌then◌else◌, is_some,
}
use guardy.Kinds.{redact, same_action}
use guardy.Report.{
  Report, normalize_report, is_observation, is_retryable_correction, is_terminal_deny,
  is_system_fault,
}
use guardy.Fault.Tree.{Error, sentinel, canceled, validator_failed, wrapped}
use guardy.Fault.Walk.{append_completed_observations, is_context_error, cancellation_only}
use guardy.Scope.{Scope, Reflect, check_scope_requirements, or_empty}
use guardy.Pipeline.Rules.{
  parallel, Pipeline, Validator, Call, Outcome, goes, ends, should_short_circuit, join_ctx,
  notify_observer, parallel_chain,
}
use guardy.Pipeline.Run.{validate_safely, finalized, validator_fault_result, run_sequential}

-- Where a goroutine stands: its rule is to be called; the call has returned; a failure is to be
-- recorded, judged, blamed on the run, and returned to the group; a report is to be appended, to
-- decide, or to be shown to the observer.
pub data Task (W T : Type 0) : Type 0 where
  ready : Validator W T → Task W T
  answered : Call T → Task W T
  recording judging excusing blaming failing : Error → Task W T
  appending deciding observing : Report → Task W T
  finished : Task W T

-- The variables that the goroutines share.
pub record Group : Type 0 where
  pub slow_reports : List Report
  pub deny : Option Report
  pub retry : Option Report
  pub first_error : Option Error
  pub group_error : Option Error
  pub cancelled : Option Error

abbrev pub fresh_group : Group
fresh_group = record {
  slow_reports = [];
  deny = none;
  retry = none;
  first_error = none;
  group_error = none;
  cancelled = none;
}

abbrev pub or_else {ℓ} : {A : Type ℓ} → Option A → Option A → Option A
or_else none b = b
or_else (some a) b = some a

-- `recordParallelDecision` without its call of `cancel`.
unfoldable pub record_decision : Report → Group → Group
record_decision rep g =
    let nr : Option Report = some (normalize_report (some rep)) in
    if is_retryable_correction nr
    then record g { retry = or_else g.retry (some rep) }
    else if is_terminal_deny nr || is_system_fault nr
    then record g { deny = or_else g.deny (some rep) }
    else g

pub record State (W : Type 0) : Type 0 where
  pub world : W
  pub group : Group

module _ {W T : Type 0} where
  -- A task after a call whose context shows no error.
  abbrev pub on_report : Option Report → Task W T
  on_report none = finished
  on_report (some rep) =
      if same_action rep.action redact
      then blaming (
          wrapped "guardy: validator failed: parallel phase validator must not return ActionRedact"
            (sentinel validator_failed))
      else appending rep

  abbrev pub on_call : Option Error → Option Report → Task W T
  on_call (some e) rep = recording e
  on_call none rep = on_report rep

  abbrev pub on_appended : Report → Task W T
  on_appended rep =
      if should_short_circuit (some rep)
      then deciding rep
      else if is_observation (some rep)
      then observing rep
      else finished

  abbrev pub all_finished : List (Task W T) → Bool
  all_finished [] = true
  all_finished (finished ∷ ts) = all_finished ts
  all_finished (t ∷ ts) = false

module _ {W T : Type 0} (ctx_err : W → Option Error) (origin : T) (p : Pipeline W T) (scope : Scope)
    (current : T) where
  -- `gctx.Err()`: once the group is cancelled its error stays.
  abbrev pub group_err : State W → Option Error
  group_err s = or_else s.group.cancelled (ctx_err s.world)

  -- `cancelPhase2`, which also serves for the cancellation by `errgroup`.
  abbrev pub cancel : State W → State W
  cancel s = record s {
    group = record (s.group) { cancelled = or_else (group_err s) (some (sentinel canceled)) };
  }

  -- A deny or a fault cancels the group when it is the first.
  unfoldable pub decide : Report → State W → State W
  decide rep s =
      let t : State W = record s { group = record_decision rep s.group } in
      if is_some t.group.deny && not (is_some s.group.deny) then cancel t else t

  -- A failure that is mere cancellation, while the run's own context is live.
  abbrev pub excusable : Error → State W → Bool
  excusable e s =
      is_context_error canceled e && cancellation_only e && not (is_some (ctx_err s.world))

  unfoldable pub act : Task W T → State W → Task W T × State W
  act (ready v) s =
      let (call, w) =
        validate_safely origin v (record { phase = parallel; error = group_err s }) s.world
          current in
      (answered call, record s { world = w })
  act (answered call) s = (on_call (join_ctx call.error (group_err s)) call.report, s)
  act (recording e) s = (
    judging e,
    record s {
      group = record (s.group) {
        slow_reports = append_completed_observations s.group.slow_reports e;
      };
    },
  )
  act (judging e) s = (if excusable e s then excusing e else blaming e, s)
  -- A sibling's deny or retry excuses it.
  act (excusing e) s =
      (if is_some s.group.deny || is_some s.group.retry then finished else blaming e, s)
  act (blaming e) s = (
    failing e,
    record s { group = record (s.group) { first_error = or_else s.group.first_error (some e) } },
  )
  act (failing e) s = (
    finished,
    if is_some s.group.group_error
        then s
        else cancel (record s { group = record (s.group) { group_error = some e } }),
  )
  act (appending rep) s = (
    on_appended rep,
    record s {
      group = record (s.group) {
        slow_reports = s.group.slow_reports ++ (normalize_report (some rep) ∷ []);
      };
    },
  )
  act (deciding rep) s = (finished, decide rep s)
  act (observing rep) s =
      (finished, record s { world = notify_observer p scope (some rep) parallel s.world })
  act finished s = (finished, s)

  -- The scheduler lets the task at a place step; a place that is not there does nothing.
  unfoldable pub step_at : ℕ → List (Task W T) → State W → List (Task W T) × State W
  step_at n [] s = ([], s)
  step_at zero (t ∷ ts) s = let (t', s') = act t s in (t' ∷ ts, s')
  step_at (suc n) (t ∷ ts) s = let (ts', s') = step_at n ts s in (t ∷ ts', s')

  unfoldable pub run_tasks : List ℕ → List (Task W T) → State W → List (Task W T) × State W
  run_tasks [] ts s = (ts, s)
  run_tasks (n ∷ schedule) ts s = let (ts', s') = step_at n ts s in run_tasks schedule ts' s'

  -- After `g.Wait()`: the first error of the group, of a task, or of the context is a fault.
  unfoldable pub after_wait : List Report → State W → Outcome T
  after_wait reports s =
      let g : Group = s.group in
      let all = reports ++ g.slow_reports in
      elim (or_else g.group_error (or_else g.first_error (ctx_err s.world))) [
        | some e ↦ validator_fault_result current all e
        | none ↦ finalized origin p current all
      ]

abbrev pub is_empty_list {ℓ} : {A : Type ℓ} → List A → Bool
is_empty_list [] = true
is_empty_list (x ∷ xs) = false

module _ {W T : Type 0} (ctx_err : W → Option Error) (origin : T) (p : Pipeline W T) where
  unfoldable pub waited :
      Scope → T → List Report → List (Task W T) × State W → Option (Outcome T × W)
  waited scope current reports (ts, s) =
      if all_finished ts
      then some (after_wait ctx_err origin p scope current reports s, s.world)
      else none

  -- The parallel phase under a schedule; `none` if it leaves a goroutine unfinished.
  unfoldable pub run_parallel : Scope → List ℕ → T → List Report → W → Option (Outcome T × W)
  run_parallel scope schedule current reports w =
      if is_empty_list p.parallel_path
      then elim (ctx_err w) [
        | some e ↦ some (validator_fault_result current reports e, w)
        | none ↦ some (finalized origin p current reports, w)
      ]
      else waited scope current reports (
          run_tasks ctx_err origin p scope current schedule (map ready (parallel_chain p))
            (record { world = w; group = fresh_group }))

module _ {W T : Type 0} (reflect : Reflect) (ctx_err : W → Option Error) (origin : T)
    (p : Pipeline W T) where
  unfoldable pub run : Option Scope → T → List ℕ → W → Option (Outcome T × W)
  run scope input schedule w = elim (check_scope_requirements reflect scope p.required_scope) [
    | some e ↦ some (validator_fault_result input [] e, w)
    | none ↦ elim (run_sequential ctx_err origin p (or_empty scope) input w) [
      | ends o v ↦ some (o, v)
      | goes out reports v ↦ run_parallel ctx_err origin p (or_empty scope) schedule out reports v
    ]
  ]
