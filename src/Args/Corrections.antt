-- ===== src/Args/Corrections.antt =====
-- What `bind` asks for when it corrects.
use guardy.Base.{String, Option, Option-cases, inl, inr}
use guardy.Report.{effective, is_observation, finish_report}
use guardy.Decision.Priority.{Harmless}
use guardy.Fault.Tree.{Error}
use guardy.Fault.Walk.{callback_cancellation}
use guardy.Scope.{Reflect}
use guardy.Args.{Bound, ArgsPipeline, bind_report, Binding, bound, corrects, faults}
use guardy.Args.Validation.{judge_hook, run_hook, after_decode, bind}

correction-harmful : (code reason : String) (e : Error) → Harmless (bind_report code reason e) → ⊥
unfolding bind_report is_observation effective finish_report
correction-harmful code reason e (inl h) = cc
correction-harmful code reason e (inr h) = cc

module _ {W T : Type 0} (reflect : Reflect) (reflect_on : T → Bound W T)
    (ctx_err : W → Option Error) (origin : T) (p : ArgsPipeline W T) where
  -- A correction that binding asks for is no harmless report.
  abbrev pub Asks : Binding T → Type 0
  Asks (bound value) = Unit
  Asks (corrects rep) = Harmless rep → ⊥
  Asks (faults e) = Unit

  judge_hook-Asks :
      (value : T) (err ctx : Option Error)
      → Asks (judge_hook reflect reflect_on ctx_err origin p value err ctx)
  judge_hook-Asks value err ctx = elim (Option-cases (callback_cancellation ctx err)) [
    | inr (e, q) ↦ rw (q, judge_hook) tt
    | inl q ↦
        rw (q, judge_hook)
          (elim (Option-cases err) [
            | inl g ↦ rw (g, judge_hook) tt
            | inr (e, g) ↦ rw (g, judge_hook) (correction-harmful _ _ e)
          ])
  ]

  run_hook-Asks :
      (value : T) (w : W) → Asks (run_hook reflect reflect_on ctx_err origin p value w).0
  run_hook-Asks value w = elim (Option-cases (ctx_err w)) [
    | inr (e, q) ↦ rw (q, run_hook) tt
    | inl q ↦ rw (q, run_hook) (judge_hook-Asks _ _ _)
  ]

  after_decode-Asks :
      (answer : (T × Option Error) × W)
      → Asks (after_decode reflect reflect_on ctx_err origin p answer).0
  after_decode-Asks ((value, err), w) =
      elim (Option-cases (callback_cancellation (ctx_err w) err)) [
        | inr (e, q) ↦ rw (q, after_decode) tt
        | inl q ↦
            rw (q, after_decode)
              (elim (Option-cases err) [
                | inr (e, g) ↦ rw (g, after_decode) (correction-harmful _ _ e)
                | inl g ↦ rw (g, after_decode) (run_hook-Asks value w)
              ])
      ]

  pub bind-Asks : (w : W) (text : String) → Asks (bind reflect reflect_on ctx_err origin p w text).0
  unfolding bind
  bind-Asks w text = elim (Option-cases (ctx_err w)) [
    | inr (e, q) ↦ rw (q, bind) tt
    | inl q ↦ rw (q, bind) (after_decode-Asks _)
  ]
