-- ===== src/Pipeline/Schedules.antt =====
-- The parallel phase ends: every step of a goroutine brings it nearer to its end, so some schedule
-- finishes all of them, from every state and whatever the rules answer. And a run that returns an
-- error decides a fault, under every schedule.
use guardy.Base.{
  ℕ, zero, suc, ◌≤◌, ◌<◌, true, ◌≡◌, ◌⊎◌, inl, inr, refl, ap, subst, List, [], ◌∷◌, ◌++◌, Option,
  none, some, is_some, map, arith, Bool-cases, Option-cases,
}
use guardy.Kinds.{system_fault}
use guardy.Report.{Report, effective}
use guardy.Decision.{decision_of}
use guardy.Fault.Tree.{Error}
use guardy.Scope.{Scope, Reflect, check_scope_requirements, or_empty}
use guardy.Pipeline.Rules.{Pipeline, Outcome, Next, goes, ends, join_ctx}
use guardy.Pipeline.FailClosed.{
  validator_fault_result-fault, run_sequential-GoesHarmless, GoesHarmless,
}
use guardy.Pipeline.Parallel.{
  Task, ready, answered, recording, judging, excusing, blaming, failing, appending, deciding,
  observing, finished, State, act, step_at, run_tasks, all_finished, run_parallel, run, after_wait,
  waited, on_call, or_else, is_empty_list,
}

-- How many steps a task takes at most.
abbrev pub steps_left : {W T : Type 0} → Task W T → ℕ
steps_left (ready v) = 7
steps_left (answered call) = 6
steps_left (recording e) = 5
steps_left (judging e) = 4
steps_left (excusing e) = 3
steps_left (blaming e) = 2
steps_left (failing e) = 1
steps_left (appending rep) = 3
steps_left (deciding rep) = 1
steps_left (observing rep) = 1
steps_left finished = 0

steps_left_bound : {W T : Type 0} (t : Task W T) → steps_left t ≤ 7
steps_left_bound t = ground arith

module _ {W T : Type 0} (ctx_err : W → Option Error) (origin : T) (p : Pipeline W T) (scope : Scope)
    (current : T) where
  on_call-steps :
      (e : Option Error) (r : Option Report) → steps_left {W = W} {T = T} (on_call e r) ≤ 5
  on_call-steps none none = omega arith
  on_call-steps none (some r) = ground arith
  on_call-steps (some e) r = omega arith

  -- A step brings every task that is not finished nearer to its end.
  pub act-steps :
      (t : Task W T) (s : State W)
      → (steps_left (act ctx_err origin p scope current t s).0 < steps_left t) ⊎ (t ≡ finished)
  unfolding act
  act-steps (ready v) s = inl (ground arith)
  act-steps (answered call) s = inl (
      ground (
        arith,
        on_call-steps (join_ctx call.error (or_else s.group.cancelled (ctx_err s.world)))
            call.report,
      ))
  act-steps (recording e) s = inl (ground arith)
  act-steps (judging e) s = inl (ground arith)
  act-steps (excusing e) s = inl (ground arith)
  act-steps (blaming e) s = inl (ground arith)
  act-steps (failing e) s = inl (ground arith)
  act-steps (appending rep) s = inl (ground arith)
  act-steps (deciding rep) s = inl (ground arith)
  act-steps (observing rep) s = inl (ground arith)
  act-steps finished s = inr refl

  abbrev runs : List ℕ → List (Task W T) → State W → List (Task W T) × State W
  runs = run_tasks ctx_err origin p scope current

  run_tasks-append :
      (a b : List ℕ) (ts : List (Task W T)) (s : State W)
      → runs (a ++ b) ts s ≡ runs b (runs a ts s).0 (runs a ts s).1
  unfolding run_tasks
  run_tasks-append [] b ts s = refl
  run_tasks-append (n ∷ a) b ts s = run_tasks-append a b _ _

  run_tasks-suc :
      (a : List ℕ) (t : Task W T) (ts : List (Task W T)) (s : State W)
      → runs (map suc a) (t ∷ ts) s ≡ (t ∷ (runs a ts s).0, (runs a ts s).1)
  unfolding run_tasks step_at
  run_tasks-suc [] t ts s = refl
  run_tasks-suc (n ∷ a) t ts s = run_tasks-suc a t _ _

  finish_first :
      (k : ℕ) (t : Task W T) (ts : List (Task W T)) (s : State W)
      → steps_left t ≤ k
      → (a : List ℕ) × (s' : State W) × (runs a (t ∷ ts) s ≡ (finished ∷ ts, s'))
  unfolding run_tasks step_at
  finish_first zero t ts s h = elim (act-steps t s) [
    | inl less ↦ absurd (omega arith)
    | inr done ↦ ([], s, ap (λ u. (u ∷ ts, s)) done)
  ]
  finish_first (suc k) t ts s h = elim (act-steps t s) [
    | inl less ↦
        let (t', s') = act ctx_err origin p scope current t s in
        let (a, u, e) = finish_first k t' ts s' (omega arith) in (0 ∷ a, u, e)
    | inr done ↦ ([], s, ap (λ u. (u ∷ ts, s)) done)
  ]

  -- From every state of the group some schedule finishes all the goroutines, whatever the rules and
  -- the context do.
  run_tasks-finishes :
      (ts : List (Task W T)) (s : State W)
      → (a : List ℕ) × (all_finished (run_tasks ctx_err origin p scope current a ts s).0 ≡ true)
  run_tasks-finishes [] s = ([], unfold run_tasks in refl)
  run_tasks-finishes (t ∷ ts) s =
      let (a, s', e) = finish_first 7 t ts s (steps_left_bound t) in
      let (b, done) = run_tasks-finishes ts s' in
      (
        a ++ map suc b,
        rw (run_tasks-append a (map suc b) (t ∷ ts) s, e)
            (rw (run_tasks-suc b finished ts s') done),
      )

abbrev FaultIfError : {T : Type 0} → Outcome T → Type 0
FaultIfError o = is_some o.error ≡ true → effective (decision_of o.result.reports) ≡ system_fault

-- A run that is finished, if it returns an error, decides a fault.
abbrev FaultIfErrors : {W T : Type 0} → Option (Outcome T × W) → Type 0
FaultIfErrors none = Unit {0}
FaultIfErrors (some (o, v)) = FaultIfError o

module _ {W T : Type 0} (ctx_err : W → Option Error) (origin : T) (p : Pipeline W T) where
  after_wait-FaultIfError :
      (scope : Scope) (current : T) (reports : List Report) (s : State W)
      → FaultIfError (after_wait ctx_err origin p scope current reports s)
  unfolding after_wait
  after_wait-FaultIfError scope current reports s =
      elim (Option-cases
        (or_else s.group.group_error (or_else s.group.first_error (ctx_err s.world)))) [
          | inl e ↦ rw (e, after_wait) (λ h. cc)
          | inr (err, e) ↦ rw (e, after_wait) (λ h. (validator_fault_result-fault current _ err).0)
        ]

  waited-FaultIfErrors :
      (scope : Scope) (current : T) (reports : List Report) (r : List (Task W T) × State W)
      → FaultIfErrors (waited ctx_err origin p scope current reports r)
  unfolding waited
  waited-FaultIfErrors scope current reports (ts, s) = elim (Bool-cases (all_finished ts)) [
    | inl done ↦ rw (done, waited) (after_wait-FaultIfError scope current reports s)
    | inr undone ↦ rw (undone, waited) tt
  ]

  run_parallel-FaultIfErrors :
      (scope : Scope) (schedule : List ℕ) (current : T) (reports : List Report) (w : W)
      → FaultIfErrors (run_parallel ctx_err origin p scope schedule current reports w)
  unfolding run_parallel
  run_parallel-FaultIfErrors scope schedule current reports w =
      elim (Bool-cases (is_empty_list p.parallel_path)) [
        | inl empty ↦
            rw (empty, run_parallel)
              (elim (Option-cases (ctx_err w)) [
                | inl e ↦ rw (e, run_parallel) (λ h. cc)
                | inr (err, e) ↦
                    rw (e, run_parallel) (λ h. (validator_fault_result-fault current reports err).0)
              ])
        | inr some_path ↦
            rw (some_path, run_parallel) (waited-FaultIfErrors scope current reports _)
      ]

  closed-FaultIfErrors :
      (scope : Scope) (schedule : List ℕ) (n : Next W T)
      → GoesHarmless n
      → FaultIfErrors (elim n [
        | ends o v ↦ some (o, v)
        | goes out reports v ↦ run_parallel ctx_err origin p scope schedule out reports v
      ])
  closed-FaultIfErrors scope schedule (ends o v) h = h.0
  closed-FaultIfErrors scope schedule (goes out reports v) h =
      run_parallel-FaultIfErrors scope schedule out reports v

module _ {W T : Type 0} (reflect : Reflect) (ctx_err : W → Option Error) (origin : T)
    (p : Pipeline W T) where
  run-FaultIfErrors :
      (scope : Option Scope) (input : T) (schedule : List ℕ) (w : W)
      → FaultIfErrors (run reflect ctx_err origin p scope input schedule w)
  unfolding run
  run-FaultIfErrors scope input schedule w =
      elim (Option-cases (check_scope_requirements reflect scope p.required_scope)) [
        | inl e ↦
            rw (e, run)
              (closed-FaultIfErrors ctx_err origin p (or_empty scope) schedule _
                (run_sequential-GoesHarmless ctx_err origin p (or_empty scope) input w))
        | inr (err, e) ↦ rw (e, run) (λ h. (validator_fault_result-fault input [] err).0)
      ]

  -- When `Run` returns an error, the decision of the reports that it returns is a system fault, for
  -- every schedule of the parallel phase and whatever the rules, the observer and the context do.
  pub run-fault :
      (scope : Option Scope) (input : T) (schedule : List ℕ) (w v : W) (o : Outcome T)
      → run reflect ctx_err origin p scope input schedule w ≡ some (o, v)
      → is_some o.error ≡ true
      → effective (decision_of o.result.reports) ≡ system_fault
  run-fault scope input schedule w v o e =
      subst FaultIfErrors e (run-FaultIfErrors scope input schedule w)
