-- ===== src/Delivery/Checked.antt =====
-- What a delivery promises, whatever the rules, the classifier and the context do.
use guardy.Base.{◌≢◌, refl, Option, some, Bool-cases, Option-cases, inl, inr}
use guardy.Kinds.{system_fault}
use guardy.Decision.{decision_of, policy_decision, is_system_fault}
use guardy.Fault.Tree.{Error}
use guardy.Fault.Outcome.{error_from_decision}
use guardy.Pipeline.Rules.{Outcome}
use guardy.Delivery.{
  Runner, DeliveryPolicy, GuardedDelivery, Delivered, suppress_delivery, apply_delivery_policy,
  after_policy, from_run, after_run, suppressed, fallback_or, guarded_output_from_run,
}
use guardy.Delivery.Judged.{
  Safe, Plain, suppress-Safe, judge_kind-Safe, judge_kind-Plain, failed-Plain,
  policy_decision-passes, not-fault,
}

module _ {W T : Type 0} (origin : T) (ctx_err : W → Option Error) (runner : Runner W T)
    (policy : DeliveryPolicy W T) where
  -- What becomes of a blocked value is safe, given that its decision is no fault.
  abbrev BlockedSafely : (GuardedDelivery T → W → Delivered T × W) → Type 0
  BlockedSafely on_blocked =
      (g : GuardedDelivery T) (w : W)
      → g.decision.disposition ≢ system_fault
      → Safe origin policy (on_blocked g w).0.guarded

  fallback_or-Safe :
      (value : T) (e : Error) (r : Delivered T × W)
      → Safe origin policy r.0.guarded
      → Safe origin policy (fallback_or origin ctx_err runner policy e r).0.guarded
        × Plain value (fallback_or origin ctx_err runner policy e r).0
  fallback_or-Safe value e (d, w) s = elim (Option-cases d.error) [
    | inl h ↦ rw h (s, failed-Plain value _ e)
    | inr (f, h) ↦
        rw h (
          s,
          record { keeps = λ k. cc; delivers = λ k. cc; no_fallback = λ k. cc; passes = λ k. cc },
        )
  ]

  after_policy-Safe :
      (value : T) (on_blocked : GuardedDelivery T → W → Delivered T × W) (r : Delivered T × W)
      → BlockedSafely on_blocked
      → Safe origin policy r.0.guarded
      → Plain value r.0
      → Safe origin policy (after_policy origin ctx_err runner policy on_blocked r).0.guarded
        × Plain value (after_policy origin ctx_err runner policy on_blocked r).0
  unfolding after_policy
  after_policy-Safe value on_blocked (d, w) b s n = elim (Option-cases d.error) [
    | inl h ↦ rw (h, after_policy) (s, n)
    | inr (e, h) ↦
        rw (h, after_policy)
          (elim (Bool-cases (is_system_fault d.guarded.decision)) [
            | inl f ↦ rw f (s, n)
            | inr f ↦
                rw f (
                  fallback_or-Safe value e (on_blocked d.guarded w) (b d.guarded w (not-fault _ f)))
          ])
  ]

  failed-Safe :
      (value : T) (g : GuardedDelivery T) (e : Error)
      → Safe origin policy (suppress_delivery origin g)
        × Plain value (record { guarded = suppress_delivery origin g; error = some e })
  failed-Safe value g e = (suppress-Safe origin policy g, failed-Plain value _ e)

  pub after_run-Safe :
      (on_blocked : GuardedDelivery T → W → Delivered T × W) (r : Outcome T × W)
      → BlockedSafely on_blocked
      → Safe origin policy (after_run origin ctx_err runner policy on_blocked r).0.guarded
        × Plain (r.0.result.output) (after_run origin ctx_err runner policy on_blocked r).0
  unfolding after_run apply_delivery_policy
  after_run-Safe on_blocked (o, w) b =
      let g = from_run origin ctx_err runner policy o.result in
      elim (Option-cases o.error) [
        | inr (e, h) ↦ rw (h, after_run) (failed-Safe (o.result.output) g e)
        | inl h ↦
            rw (h, after_run)
              (elim (Option-cases (error_from_decision (decision_of o.result.reports))) [
                | inr (e, k) ↦
                    rw (k, after_run)
                      (elim (Bool-cases (is_system_fault (policy_decision o.result))) [
                        | inl f ↦ rw f (failed-Safe (o.result.output) g e)
                        | inr f ↦ rw f (
                            fallback_or-Safe (o.result.output) e (on_blocked g w)
                              (b g w (unfold guarded_output_from_run in not-fault _ f)))
                      ])
                | inl k ↦
                    rw (k, after_run)
                      (after_policy-Safe (o.result.output) on_blocked
                        (apply_delivery_policy origin policy ctx_err w g) b
                        (judge_kind-Safe origin policy g _ _)
                        (unfold guarded_output_from_run in
                          judge_kind-Plain origin policy g _ _ refl
                            (policy_decision-passes o.result k)))
              ])
      ]

  pub suppressed-Safe : BlockedSafely (suppressed origin ctx_err runner policy)
  suppressed-Safe g w n = suppress-Safe origin policy g
