-- ===== src/Args/Judged.antt =====
-- What validated arguments promise, with an error and without one.
use text.Mathlib.Text.{◌==◌ as str_eq}
use text.Mathlib.TextEquality.{eq_iff}
use guardy.Base.{
  true, ◌≡◌, ◌≢◌, refl, sym, ap, ◌∙◌, String, [], ◌∷◌, Option, none, some, is_some, Bool-cases,
  Option-cases, inl, inr,
}
use guardy.Kinds.{FailureDisposition, system_fault}
use guardy.Report.{Report, effective, is_observation}
use guardy.Decision.{decision_of, policy_decision}
use guardy.Decision.Enforced.{
  judged, judged-effective, judged-disposition, policy_decision-disposition, error-none, error-some,
  harmful-append,
}
use guardy.Decision.Priority.{Harmless}
use guardy.Delivery.Judged.{policy_decision-passes}
use guardy.Fault.Tree.{Error}
use guardy.Fault.Walk.{callback_cancellation}
use guardy.Fault.Outcome.{validator_fault_report, error_from_decision}
use guardy.Scope.{Reflect, Scope, check_scope_requirements}
use guardy.Pipeline.Rules.{Outcome}
use guardy.Args.{
  TextGuard, Bound, ArgsPipeline, GuardedArgs, Validated, required_scope, refresh_report, refresh,
  add_reports, args_fault, args_from_run, Binding, bound, corrects, faults,
}
use guardy.Args.Validation.{
  encode, bind, finish, after_final, check_final, after_encode, after_bind, after_raw, validate,
}
use guardy.Args.Corrections.{Asks, bind-Asks}

refresh-disposition :
    {T : Type 0} (args : GuardedArgs T)
    → (refresh args).decision.disposition ≡ effective (decision_of args.reports)
unfolding refresh refresh_report
refresh-disposition args = judged-disposition args.reports

fault-harmful : (e : Error) → Harmless (validator_fault_report e) → ⊥
unfolding validator_fault_report is_observation effective
fault-harmful e (inl h) = cc
fault-harmful e (inr h) = cc

module _ {W T : Type 0} (reflect : Reflect) (reflect_on : T → Bound W T)
    (ctx_err : W → Option Error) (origin : T) (p : ArgsPipeline W T) where
  -- The final guard, if there is one, ran over the canonical text without an error and left it as it is.
  abbrev pub FinalChecked : Option (TextGuard W) → String → Type 0
  FinalChecked none text = Unit
  FinalChecked (some final) text =
      (scope : Option Scope) × (w : W) × (((final.runner scope).run w text).0.error ≡ none)
      × (((final.runner scope).run w text).0.result.output ≡ text)

  -- Accepted arguments: the decision lets them pass, the value was bound, its encoding is the canonical
  -- text, and that text was checked.
  pub record Accepted (args : GuardedArgs T) : Type 0 where
    pub passes : args.decision.disposition ≡ FailureDisposition.none
    pub binds :
        (w : W) × (text : String) × ((bind reflect reflect_on ctx_err origin p w text).0
          ≡ bound args.value)
    pub encodes :
        (w : W) × ((encode reflect reflect_on ctx_err origin p w args.value).0
          ≡ (args.sanitized_raw, none))
    pub checked : FinalChecked p.final args.sanitized_raw

  -- There is no value, and the decision lets nothing pass.
  abbrev pub Blocked : GuardedArgs T → Type 0
  Blocked args = (args.value ≡ origin) × (args.decision.disposition ≢ FailureDisposition.none)

  abbrev pub Judged : Option Error → GuardedArgs T → Type 0
  Judged (some e) args = Blocked args
  Judged none args = Accepted args

  abbrev pub JudgedAnswer : Validated T × W → Type 0
  JudgedAnswer (v, w) = Judged v.error v.payload

  fault-Judged :
      (args : GuardedArgs T) (e : Error) (w : W)
      → args.value ≡ origin
      → JudgedAnswer (args_fault args e, w)
  unfolding args_fault refresh
  fault-Judged args e w h = (
    h,
    λ q.
        harmful-append args.reports (validator_fault_report e) (fault-harmful e)
          (sym (refresh-disposition (add_reports args (validator_fault_report e ∷ []))) ∙ q),
  )

  -- The refreshed payload of a correction.
  correction-Judged :
      (args : GuardedArgs T) (rep : Report)
      → (Harmless rep → ⊥)
      → args.value ≡ origin
      → Blocked (refresh (add_reports args (rep ∷ [])))
  unfolding refresh
  correction-Judged args rep bad h = (
    h,
    λ q.
        harmful-append args.reports rep bad
          (sym (refresh-disposition (add_reports args (rep ∷ []))) ∙ q),
  )

  module _ (value : T) (w₀ : W) (text : String)
      (binding : (bind reflect reflect_on ctx_err origin p w₀ text).0 ≡ bound value) where
    -- The encoding that gave a text.
    abbrev Encodes : String → Type 0
    Encodes canonical =
        (w : W) × ((encode reflect reflect_on ctx_err origin p w value).0 ≡ (canonical, none))

    finish-Judged :
        (payload : GuardedArgs T) (w : W)
        → payload.value ≡ origin
        → Encodes payload.sanitized_raw
        → payload.decision.disposition ≡ FailureDisposition.none
        → FinalChecked p.final payload.sanitized_raw
        → JudgedAnswer (finish reflect reflect_on ctx_err origin p payload value w)
    unfolding finish
    finish-Judged payload w h enc pass final = elim (Option-cases (ctx_err w)) [
      | inr (e, q) ↦ rw (q, finish) (fault-Judged payload e w h)
      | inl q ↦
          rw (q, finish)
            (record { passes = pass; binds = (w₀, text, binding); encodes = enc; checked = final })
    ]

    after_final-Judged :
        (final : TextGuard W) (scope : Option Scope) (args : GuardedArgs T) (w : W)
        → p.final ≡ some final
        → args.value ≡ origin
        → Encodes args.sanitized_raw
        → JudgedAnswer (
            after_final reflect reflect_on ctx_err origin p args.sanitized_raw value args
              ((final.runner scope).run w args.sanitized_raw))
    unfolding after_final refresh refresh_report
    after_final-Judged final scope args w f h enc =
        let canonical = args.sanitized_raw in
        let o = ((final.runner scope).run w canonical).0 in
        let v = ((final.runner scope).run w canonical).1 in
        let payload = refresh (add_reports args o.result.reports) in
        let settled = refresh-disposition (add_reports args o.result.reports) in
        elim (Option-cases o.error) [
          | inr (e, q) ↦ rw (q, after_final) (fault-Judged payload e v h)
          | inl q ↦
              rw (q, after_final)
                (elim (Option-cases (error_from_decision (judged payload.reports))) [
                  | inr (e, g) ↦
                      rw (g, after_final)
                        (
                          h,
                          λ d.
                              error-some (judged payload.reports) e g
                                (judged-effective payload.reports ∙ sym settled ∙ d),
                        )
                  | inl g ↦
                      rw (g, after_final)
                        (elim (Bool-cases (str_eq o.result.output canonical)) [
                          | inr t ↦ rw t (fault-Judged payload _ v h)
                          | inl t ↦ rw t (
                              finish-Judged payload v h enc
                                (settled
                                  ∙ sym (judged-effective payload.reports)
                                  ∙ error-none (judged payload.reports) g)
                                (rw f (scope, w, q, (eq_iff o.result.output canonical).0 t)))
                        ])
                ])
        ]

    check_final-Judged :
        (g : Option (TextGuard W)) (scope : Option Scope) (args : GuardedArgs T) (w : W)
        → p.final ≡ g
        → args.value ≡ origin
        → args.decision.disposition ≡ FailureDisposition.none
        → Encodes args.sanitized_raw
        → JudgedAnswer (
            check_final reflect reflect_on ctx_err origin p scope args.sanitized_raw value args g w)
    check_final-Judged none scope args w f h pass enc = finish-Judged args w h enc pass (rw f tt)
    check_final-Judged (some final) scope args w f h pass enc =
        after_final-Judged final scope args w f h enc

    after_encode-Judged :
        (scope : Option Scope) (args : GuardedArgs T) (w : W)
        → args.value ≡ origin
        → args.decision.disposition ≡ FailureDisposition.none
        → JudgedAnswer (
            after_encode reflect reflect_on ctx_err origin p scope value args
              (encode reflect reflect_on ctx_err origin p w value))
    after_encode-Judged scope args w h pass =
        let ((canonical, err), v) = encode reflect reflect_on ctx_err origin p w value in
        elim (Option-cases (callback_cancellation (ctx_err v) err)) [
          | inr (e, q) ↦ rw (q, after_encode) (fault-Judged args e v h)
          | inl q ↦
              rw (q, after_encode)
                (elim (Option-cases err) [
                  | inr (e, g) ↦ rw (g, after_encode) (fault-Judged args e v h)
                  | inl g ↦
                      rw (g, after_encode)
                        (check_final-Judged p.final scope
                          (record args { sanitized_raw = canonical }) v refl h pass
                          (w, (ap (λ (x : Option Error). (canonical, x)) g)))
                ])
        ]

  after_bind-Judged :
      (w₀ : W) (text : String) (scope : Option Scope) (args : GuardedArgs T) (b : Binding T) (w : W)
      → (bind reflect reflect_on ctx_err origin p w₀ text).0 ≡ b
      → Asks reflect reflect_on ctx_err origin p b
      → args.value ≡ origin
      → args.decision.disposition ≡ FailureDisposition.none
      → JudgedAnswer (after_bind reflect reflect_on ctx_err origin p scope args (b, w))
  after_bind-Judged w₀ text scope args (corrects rep) w e bad h pass =
      correction-Judged args rep bad h
  after_bind-Judged w₀ text scope args (faults x) w e bad h pass = fault-Judged args x w h
  after_bind-Judged w₀ text scope args (bound value) w e bad h pass =
      elim (Option-cases (ctx_err w)) [
        | inr (x, q) ↦ rw (q, after_bind) (fault-Judged args x w h)
        | inl q ↦ rw (q, after_bind) (after_encode-Judged value w₀ text e scope args w h pass)
      ]

  run_error-blocks :
      (o : Outcome String) (e : Error)
      → error_from_decision (decision_of o.result.reports) ≡ some e
      → (policy_decision o.result).disposition ≢ FailureDisposition.none
  run_error-blocks o e q d =
      error-some (decision_of o.result.reports) e q (sym (policy_decision-disposition o.result) ∙ d)

  run_fault-blocks :
      (o : Outcome String)
      → effective (decision_of o.result.reports) ≡ system_fault
      → (policy_decision o.result).disposition ≢ FailureDisposition.none
  run_fault-blocks o f d = cc (f, policy_decision-disposition o.result, d)

  after_raw-Judged :
      (scope : Option Scope) (raw : String) (o : Outcome String) (w : W)
      → (is_some o.error ≡ true → effective (decision_of o.result.reports) ≡ system_fault)
      → JudgedAnswer (after_raw reflect reflect_on ctx_err origin p scope raw (o, w))
  unfolding after_raw args_from_run
  after_raw-Judged scope raw o w closed = elim (Option-cases o.error) [
    | inr (e, q) ↦ rw (q, after_raw) (refl, run_fault-blocks o (closed (ap is_some q)))
    | inl q ↦
        rw (q, after_raw)
          (elim (Option-cases (error_from_decision (decision_of o.result.reports))) [
            | inr (e, g) ↦ rw (g, after_raw) (refl, run_error-blocks o e g)
            | inl g ↦
                rw (g, after_raw)
                  (after_bind-Judged w o.result.output scope _ _ _ refl
                    (bind-Asks reflect reflect_on ctx_err origin p w o.result.output) refl
                    (policy_decision-passes o.result g))
          ])
  ]

  -- Whatever the guards, the codec, the hook and the context do: arguments with an error hold no value
  -- and a decision that lets nothing pass; without an error the decision is a pass, the value is the
  -- one that was bound, its encoding is the canonical text, and the final guard, if there is one, ran
  -- over that text without an error and left it as it is.
  pub validate-Judged :
      (scope : Option Scope) (raw : String) (w : W)
      → JudgedAnswer (validate reflect reflect_on ctx_err origin p scope raw w)
  unfolding validate
  validate-Judged scope raw w =
      elim (Option-cases (check_scope_requirements reflect scope (required_scope p))) [
        | inr (e, q) ↦ rw (q, validate) (fault-Judged _ e w refl)
        | inl q ↦
            rw (q, validate)
              (after_raw-Judged scope raw ((p.raw.runner scope).run w raw).0 _
                ((p.raw.runner scope).fails_closed w raw))
      ]
