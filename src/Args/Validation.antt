-- ===== src/Args/Validation.antt =====
-- args.go: `Validate` and `bind`. The caller's codec and post-bind hook act on the world.
use text.Mathlib.Text.{◌==◌ as str_eq}
use guardy.Base.{String, [], ◌∷◌, Option, none, some, if◌then◌else◌}
use guardy.Report.{normalize_report}
use guardy.Decision.{decision_of}
use guardy.Fault.Tree.{Error, leaf, retry_error, error_text}
use guardy.Fault.Walk.{callback_cancellation}
use guardy.Fault.Outcome.{error_from_decision}
use guardy.Scope.{Reflect, Scope, check_scope_requirements}
use guardy.Pipeline.Rules.{Outcome}
use guardy.Args.{
  TextGuard, Bound, invoke_post_bind, ArgsPipeline, GuardedArgs, Validated, required_scope,
  refresh_report, refresh, add_reports, args_fault, args_from_run, empty_args, bind_report, Binding,
  bound, corrects, faults,
}

module _ {W T : Type 0} (reflect : Reflect) (reflect_on : T → Bound W T)
    (ctx_err : W → Option Error) (origin : T) (p : ArgsPipeline W T) where
  -- A codec that is nil is not called by a pipeline that was compiled; the call would panic.
  abbrev pub decode : W → String → (T × Option Error) × W
  decode w raw = elim p.decode [ some f ↦ f w raw | none ↦ ((origin, some (leaf "nil codec")), w) ]

  abbrev pub encode : W → T → (String × Option Error) × W
  encode w value = elim p.encode [ some f ↦ f w value | none ↦ (("", some (leaf "nil codec")), w) ]

  abbrev pub judge_hook : T → Option Error → Option Error → Binding T
  judge_hook value err ctx = elim (callback_cancellation ctx err) [
    | some e ↦ faults e
    | none ↦ elim err [
      | none ↦ bound value
      | some e ↦ corrects (bind_report "POST_BIND_VIOLATION" (error_text e) e)
    ]
  ]

  abbrev pub after_hook : (T × Option Error) × W → Binding T × W
  after_hook ((value, err), w) = (judge_hook value err (ctx_err w), w)

  abbrev pub run_hook : T → W → Binding T × W
  run_hook value w = elim (ctx_err w) [
    | some e ↦ (faults e, w)
    | none ↦ after_hook (invoke_post_bind (reflect_on value) value w)
  ]

  abbrev pub after_decode : (T × Option Error) × W → Binding T × W
  after_decode ((value, err), w) = elim (callback_cancellation (ctx_err w) err) [
    | some e ↦ (faults e, w)
    | none ↦ elim err [
      | some e ↦ (corrects (bind_report "JSON_INVALID" "invalid JSON for decode" e), w)
      | none ↦ run_hook value w
    ]
  ]

  unfoldable pub bind : W → String → Binding T × W
  unfolding invoke_post_bind
  bind w raw = elim (ctx_err w) [ some e ↦ (faults e, w) | none ↦ after_decode (decode w raw) ]

  abbrev pub Answer : Type 0
  Answer = Validated T × W

  unfoldable pub finish : GuardedArgs T → T → W → Answer
  finish payload value w = elim (ctx_err w) [
    | some e ↦ (args_fault payload e, w)
    | none ↦ (record { payload = record payload { value = value }; error = none }, w)
  ]

  -- After the final guard, whose reports are in the payload.
  unfoldable pub after_final : String → T → GuardedArgs T → Outcome String × W → Answer
  after_final canonical value args (o, w) =
      let payload = refresh (add_reports args o.result.reports) in
      elim o.error [
        | some e ↦ (args_fault payload e, w)
        | none ↦ elim (error_from_decision (refresh_report payload.reports)) [
          | some e ↦ (record { payload = payload; error = some e }, w)
          | none ↦ if str_eq o.result.output canonical then finish payload value w else (
            args_fault payload (leaf "guardy: final args guard mutated canonical payload"),
            w,
          )
        ]
      ]

  abbrev pub check_final :
      Option Scope → String → T → GuardedArgs T → Option (TextGuard W) → W → Answer
  check_final scope canonical value args none w = finish args value w
  check_final scope canonical value args (some final) w =
      after_final canonical value args ((final.runner scope).run w canonical)

  abbrev pub after_encode : Option Scope → T → GuardedArgs T → (String × Option Error) × W → Answer
  after_encode scope value args ((canonical, err), w) =
      elim (callback_cancellation (ctx_err w) err) [
        | some e ↦ (args_fault args e, w)
        | none ↦ elim err [
          | some e ↦ (args_fault args e, w)
          | none ↦
              check_final scope canonical value (record args { sanitized_raw = canonical }) p.final
                w
        ]
      ]

  abbrev pub after_bind : Option Scope → GuardedArgs T → Binding T × W → Answer
  after_bind scope args (corrects rep, w) =
      let payload = refresh (add_reports args (rep ∷ [])) in
      (
        record {
          payload = payload;
          error = some (retry_error (normalize_report (some (refresh_report payload.reports))));
        },
        w,
      )
  after_bind scope args (faults e, w) = (args_fault args e, w)
  after_bind scope args (bound value, w) = elim (ctx_err w) [
    | some e ↦ (args_fault args e, w)
    | none ↦ after_encode scope value args (encode w value)
  ]

  unfoldable pub after_raw : Option Scope → String → Outcome String × W → Answer
  unfolding bind
  after_raw scope raw (o, w) =
      let args = args_from_run origin p.identity raw o.result in
      elim o.error [
        | some e ↦ (record { payload = args; error = some e }, w)
        | none ↦ elim (error_from_decision (decision_of o.result.reports)) [
          | some e ↦ (record { payload = args; error = some e }, w)
          | none ↦ after_bind scope args (bind w o.result.output)
        ]
      ]

  -- `Validate` of a pipeline that is not nil.
  unfoldable pub validate : Option Scope → String → W → Answer
  unfolding required_scope
  validate scope raw w = elim (check_scope_requirements reflect scope (required_scope p)) [
    | some e ↦ (args_fault (empty_args origin p.identity raw) e, w)
    | none ↦ after_raw scope raw ((p.raw.runner scope).run w raw)
  ]

-- `Validate` of a nil pipeline, which is refused.
unfoldable pub validate_nil : {T : Type 0} → T → String → Validated T
validate_nil origin raw = record {
  payload = record (empty_args origin "" raw) { sanitized_raw = raw };
  error = some (leaf "guardy: args pipeline requires non-nil raw pipeline");
}
