-- ===== src/Examples/Runs.antt =====
-- A pipeline of a rule that passes, a rule that panics beside a rule that blocks, and the theorems
-- at its runs. The world counts the events that the observer was shown.
use guardy.Base.{ℕ, ◌+◌, true, false, ◌≡◌, ◌⊎◌, refl, List, [], ◌∷◌, Option, none, some}
use guardy.Kinds.{block, terminal_deny, system_fault, technical_payload}
use guardy.Report.{
  Report, zero_report, effective, aggregate_payload_kind, is_observation, is_terminal_deny,
  is_retryable_correction, is_system_fault, normalize_report,
}
use guardy.Decision.{decision_of, select_from, report_priority}
use guardy.Fault.Tree.{Error, leaf, panic_value}
use guardy.Fault.Walk.{is_context_error}
use guardy.Scope.{check_scope_requirements, Reflect, empty_scope}
use guardy.Pipeline.Rules.{
  sequential_chain, policy_chain, parallel_chain, returned, panicked, Validator, Pipeline, Outcome,
  should_short_circuit,
}
use guardy.Pipeline.Run
use guardy.Pipeline.Run.{
  run_rules, validate_safely, after_call, after_report, finalize_result, validator_fault_result,
  run_sequential,
}
use guardy.Pipeline.Parallel.{
  step_at, act, decide, record_decision, waited, after_wait, run_parallel, run_tasks, run,
}
use guardy.Pipeline.FailClosed.{GoesHarmless, run_sequential-GoesHarmless}
use guardy.Pipeline.UserChannel.{finalize_result-unsafe}
use guardy.Pipeline.Schedules.{run-fault}
use guardy.Pipeline.Shown.{ShownIfDone, run-Shown}

abbrev types : Reflect
types = record { implements = λ a b. false; is_interface = λ a. false; type_string = λ a. "" }

abbrev no_ctx_error : ℕ → Option Error
no_ctx_error w = none

abbrev passing : Validator ℕ ℕ
passing = record {
  absent = false;
  validate = λ ctx w input. (returned (input + 1) (some zero_report) none, w);
}

abbrev technical_block : Report
technical_block = record zero_report { action = block; payload_kind = technical_payload }

abbrev blocking : Validator ℕ ℕ
blocking = record {
  absent = false;
  validate = λ ctx w input. (returned input (some technical_block) none, w);
}

abbrev panicking : Validator ℕ ℕ
panicking = record { absent = false; validate = λ ctx w input. (panicked (panic_value 0), w) }

abbrev chat : Pipeline ℕ ℕ
chat = record {
  sequential_path = passing ∷ [];
  policy_validators = [];
  parallel_path = panicking ∷ blocking ∷ [];
  middlewares = [];
  observer = some (λ w event. w + 1);
  name = "chat";
  required_keys = [];
  required_scope = [];
  user_channel = true;
  user_channel_fallback = "Not available.";
  user_channel_fallback_set = true;
  sequential_path_wrapped = [];
  parallel_path_wrapped = [];
}

-- Both goroutines in turn, the blocking one first.
abbrev schedule : List ℕ
schedule = 1 ∷ 0 ∷ 1 ∷ 0 ∷ 1 ∷ 0 ∷ 1 ∷ 0 ∷ 0 ∷ 0 ∷ 0 ∷ 0 ∷ 1 ∷ 1 ∷ []

abbrev finished_run : Option (Outcome ℕ × ℕ) → Outcome ℕ
finished_run (some (o, w)) = o
finished_run none = validator_fault_result 0 [] (leaf "unfinished")

abbrev result : Outcome ℕ
result = finished_run (run types no_ctx_error 0 chat none 5 schedule 0)

run-fault_example : effective (decision_of result.result.reports) ≡ system_fault
unfolding is_context_error
run-fault_example =
    run-fault types no_ctx_error 0 chat none 5 schedule 0 0 result
      (unfold run run_sequential run_rules sequential_chain policy_chain validate_safely after_call
          after_report should_short_circuit is_observation effective is_terminal_deny
          is_retryable_correction is_system_fault normalize_report run_parallel parallel_chain
          run_tasks step_at act decide record_decision waited after_wait check_scope_requirements in
        refl)
      (unfold run run_sequential run_rules sequential_chain policy_chain validate_safely after_call
          after_report should_short_circuit is_observation effective is_terminal_deny
          is_retryable_correction is_system_fault normalize_report run_parallel parallel_chain
          run_tasks step_at act decide record_decision waited after_wait check_scope_requirements
          validator_fault_result in
        refl)

run_sequential-GoesHarmless_example :
    GoesHarmless (run_sequential no_ctx_error 0 chat empty_scope 5 0)
run_sequential-GoesHarmless_example =
    run_sequential-GoesHarmless no_ctx_error 0 chat empty_scope 5 0

finalize_result-unsafe_example :
    ((finalize_result 0 chat 7 (technical_block ∷ [])).output ≡ 0)
    × ((effective (decision_of (finalize_result 0 chat 7 (technical_block ∷ [])).reports)
          ≡ terminal_deny)
        ⊎ (effective (decision_of (finalize_result 0 chat 7 (technical_block ∷ [])).reports)
            ≡ system_fault))
finalize_result-unsafe_example =
    finalize_result-unsafe 0 chat 7 (technical_block ∷ []) refl
      (unfold aggregate_payload_kind in refl)

-- The passing rule alone.
abbrev calm : Pipeline ℕ ℕ
calm = record chat { parallel_path = [] }

run-Shown_example : ShownIfDone no_ctx_error 0 calm refl (run types no_ctx_error 0 calm none 5 [] 0)
run-Shown_example = run-Shown no_ctx_error 0 calm refl types none 5 [] 0

calm_shows : (finished_run (run types no_ctx_error 0 calm none 5 [] 0)).result.output ≡ 6
unfolding run run_sequential run_rules sequential_chain policy_chain validate_safely after_call
    after_report should_short_circuit is_observation effective is_terminal_deny
    is_retryable_correction is_system_fault normalize_report run_parallel finalize_result
    check_scope_requirements aggregate_payload_kind decision_of Run.unsafe Run.denied select_from
    Run.channel_reports report_priority
calm_shows = refl
