-- ===== src/Pipeline/Shown.antt =====
-- What `Run` of pipeline.go shows on the user channel.
use guardy.Base.{
  ℕ, Bool, true, false, ◌≡◌, ◌≢◌, ◌⊎◌, inl, inr, sym, subst, List, [], ◌∷◌, Option, none, some,
  if◌then◌else◌, Option-cases, Bool-cases,
}
use guardy.Kinds.{safe_user_text, same_kind, terminal_deny, system_fault}
use guardy.Report.{Report, effective, aggregate_payload_kind, is_observation}
use guardy.Decision.{decision_of}
use guardy.Fault.Tree.{Error}
use guardy.Scope.{Reflect, Scope, check_scope_requirements, or_empty}
use guardy.Pipeline.Rules.{
  Context, Call, Pipeline, Outcome, Next, goes, ends, and_then, ValidationPhase, sequential, policy,
  should_short_circuit, join_ctx,
}
use guardy.Pipeline.Run.{
  finalized, validator_fault_result, after_report, after_call, run_rules, sequential_rules,
  policy_rules, run_sequential,
}
use guardy.Pipeline.Parallel.{
  Task, State, after_wait, waited, run_parallel, run, or_else, all_finished, is_empty_list,
}
use guardy.Pipeline.UserChannel.{finalize_result-output}

module _ {W T : Type 0} (ctx_err : W → Option Error) (origin : T) (p : Pipeline W T)
    (user : p.user_channel ≡ true) where
  -- Without an error the value is the zero value, or its reports call it safe user text and decide
  -- neither a denial nor a fault.
  abbrev pub Shown : Outcome T → Type 0
  Shown o =
      o.error ≡ none
      → (o.result.output ≡ origin)
        ⊎ ((same_kind (aggregate_payload_kind o.result.reports) safe_user_text ≡ true)
            × (effective (decision_of o.result.reports) ≢ terminal_deny)
            × (effective (decision_of o.result.reports) ≢ system_fault))

  abbrev ShownNext : Next W T → Type 0
  ShownNext (goes out reports w) = Unit {0}
  ShownNext (ends o w) = Shown o

  abbrev pub ShownIfDone : Option (Outcome T × W) → Type 0
  ShownIfDone none = Unit {0}
  ShownIfDone (some (o, w)) = Shown o

  finalized-Shown : (out : T) (reports : List Report) → Shown (finalized origin p out reports)
  finalized-Shown out reports h = elim (finalize_result-output origin p out reports user) [
    | inl e ↦ inl e
    | inr (same_output, same, kind, deny, fault) ↦ inr (
      subst (λ rs. same_kind (aggregate_payload_kind rs) safe_user_text ≡ true) (sym same) kind,
      deny,
      fault,
    )
  ]

  fault-Shown :
      (out : T) (reports : List Report) (e : Error) → Shown (validator_fault_result out reports e)
  unfolding validator_fault_result
  fault-Shown out reports e h = cc

  ShownNext-if :
      (b : Bool) (x y : Next W T) → ShownNext x → ShownNext y → ShownNext (if b then x else y)
  ShownNext-if true x y h k = h
  ShownNext-if false x y h k = k

  ShownNext-and_then :
      (n : Next W T) (k : T → List Report → W → Next W T)
      → ShownNext n
      → ((out : T) (reports : List Report) (w : W) → ShownNext (k out reports w))
      → ShownNext (and_then n k)
  ShownNext-and_then (ends o w) k h g = h
  ShownNext-and_then (goes out reports w) k h g = g out reports w

  module _ (scope : Scope) where
    after_report-Shown :
        (phase : ValidationPhase) (call : Call T) (reports : List Report) (w : W)
        → ShownNext (after_report ctx_err origin p scope phase call reports w)
    unfolding after_report
    after_report-Shown phase call reports w =
        ShownNext-if (should_short_circuit call.report) _ _ (finalized-Shown call.output _)
          (ShownNext-if (is_observation call.report) _ _ tt tt)

    after_call-Shown :
        (phase : ValidationPhase) (current : T) (reports : List Report) (r : Call T × W)
        → ShownNext (after_call ctx_err origin p scope phase current reports r)
    unfolding after_call
    after_call-Shown phase current reports (call, w) =
        elim (Option-cases (join_ctx call.error (ctx_err w))) [
          | inl e ↦ rw (e, after_call) (after_report-Shown phase call reports w)
          | inr (err, e) ↦ rw (e, after_call) (fault-Shown current _ err)
        ]

    run_rules-Shown :
        (phase : ValidationPhase) (rules : List (Context → W → T → Call T × W)) (current : T)
        (reports : List Report) (w : W)
        → ShownNext (run_rules ctx_err origin p scope phase rules current reports w)
    unfolding run_rules
    run_rules-Shown phase [] current reports w = tt
    run_rules-Shown phase (rule ∷ rules) current reports w = elim (Option-cases (ctx_err w)) [
      | inr (err, e) ↦ rw (e, run_rules) (fault-Shown current reports err)
      | inl e ↦
          rw (e, run_rules)
            (ShownNext-and_then _ (run_rules ctx_err origin p scope phase rules)
              (after_call-Shown phase current reports _) (run_rules-Shown phase rules))
    ]

    run_sequential-Shown :
        (input : T) (w : W) → ShownNext (run_sequential ctx_err origin p scope input w)
    unfolding run_sequential
    run_sequential-Shown input w =
        ShownNext-and_then _
          (λ out reports v.
            run_rules ctx_err origin p scope policy (policy_rules ctx_err origin p scope) out
              reports v)
          (run_rules-Shown sequential (sequential_rules ctx_err origin p scope) input [] w)
          (run_rules-Shown policy (policy_rules ctx_err origin p scope))

    after_wait-Shown :
        (current : T) (reports : List Report) (s : State W)
        → Shown (after_wait ctx_err origin p scope current reports s)
    unfolding after_wait
    after_wait-Shown current reports s =
        elim (Option-cases
          (or_else s.group.group_error (or_else s.group.first_error (ctx_err s.world)))) [
            | inl e ↦ rw (e, after_wait) (finalized-Shown current _)
            | inr (err, e) ↦ rw (e, after_wait) (fault-Shown current _ err)
          ]

    waited-Shown :
        (current : T) (reports : List Report) (r : List (Task W T) × State W)
        → ShownIfDone (waited ctx_err origin p scope current reports r)
    unfolding waited
    waited-Shown current reports (ts, s) = elim (Bool-cases (all_finished ts)) [
      | inl done ↦ rw (done, waited) (after_wait-Shown current reports s)
      | inr undone ↦ rw (undone, waited) tt
    ]

    run_parallel-Shown :
        (schedule : List ℕ) (current : T) (reports : List Report) (w : W)
        → ShownIfDone (run_parallel ctx_err origin p scope schedule current reports w)
    unfolding run_parallel
    run_parallel-Shown schedule current reports w =
        elim (Bool-cases (is_empty_list p.parallel_path)) [
          | inl empty ↦
              rw (empty, run_parallel)
                (elim (Option-cases (ctx_err w)) [
                  | inl e ↦ rw (e, run_parallel) (finalized-Shown current reports)
                  | inr (err, e) ↦ rw (e, run_parallel) (fault-Shown current reports err)
                ])
          | inr some_path ↦ rw (some_path, run_parallel) (waited-Shown current reports _)
        ]

    then_parallel-Shown :
        (schedule : List ℕ) (n : Next W T)
        → ShownNext n
        → ShownIfDone (elim n [
          | ends o v ↦ some (o, v)
          | goes out reports v ↦ run_parallel ctx_err origin p scope schedule out reports v
        ])
    then_parallel-Shown schedule (ends o v) h = h
    then_parallel-Shown schedule (goes out reports v) h = run_parallel-Shown schedule out reports v

  -- On the user channel, whatever the rules, the observer and the context do and for every schedule of
  -- the parallel phase: a run that finishes without an error returns the zero value, or else its
  -- reports call the value safe user text and decide neither a denial nor a fault.
  pub run-Shown :
      (reflect : Reflect) (scope : Option Scope) (input : T) (schedule : List ℕ) (w : W)
      → ShownIfDone (run reflect ctx_err origin p scope input schedule w)
  unfolding run
  run-Shown reflect scope input schedule w =
      elim (Option-cases (check_scope_requirements reflect scope p.required_scope)) [
        | inl e ↦
            rw (e, run)
              (then_parallel-Shown (or_empty scope) schedule _
                (run_sequential-Shown (or_empty scope) input w))
        | inr (err, e) ↦ rw (e, run) (fault-Shown input [] err)
      ]
