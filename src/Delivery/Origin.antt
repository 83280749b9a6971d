-- ===== src/Delivery/Origin.antt =====
-- Where a delivered value of guarded_output.go comes from.
use guardy.Base.{
  ◌||◌, not, ◌==◌, true, false, ◌≡◌, refl, Option, none, is_some, String, arith, Bool-cases,
  Option-cases, inl, inr,
}
use guardy.Kinds.{payload_kind_priority, PayloadKind}
use guardy.Decision.{decision_of, policy_decision, is_system_fault}
use guardy.Fault.Tree.{Error}
use guardy.Fault.Walk.{callback_cancellation}
use guardy.Fault.Outcome.{error_from_decision}
use guardy.Pipeline.Rules.{Outcome}
use guardy.Delivery.{
  Classified, Runner, DeliveryPolicy, GuardedDelivery, Delivered, Fallback, absent, foreign,
  candidate, suppress_delivery, delivery_fault, deliver_kind, judge_kind, classified_error,
  classified_kind, apply_delivery_policy, after_policy, from_run, after_run, suppressed,
  guard_candidate, take_candidate, fallback_or, fallback_from, checked_delivery_fallback,
  guard_delivery, validate_delivery_policy, guarded_output_from_run,
}
use guardy.Delivery.Checked.{after_run-Safe, suppressed-Safe}

module _ {W T : Type 0} (origin : T) (ctx_err : W → Option Error) (runner : Runner W T)
    (policy : DeliveryPolicy W T) where
  -- A value is the output of a run over the value to deliver, or of a run over the candidate of the
  -- fallback, which was itself checked in full and without an error.
  pub data Origin (output : T) (g : GuardedDelivery T) : Type 0 where
    itself : g.fallback ≡ false → g.value ≡ output → Origin output g
    replaced :
        (v : T) (w : W)
        → g.fallback ≡ true
        → policy.fallback ≡ candidate v
        → (guard_candidate origin ctx_err runner policy v w).0.error ≡ none
        → (guard_candidate origin ctx_err runner policy v w).0.guarded.deliverable ≡ true
        → g.value ≡ (runner.run w v).0.result.output
        → Origin output g

  abbrev pub Traced : T → GuardedDelivery T → Type 0
  Traced output g = g.deliverable ≡ true → Origin output g

  abbrev BlockedTraced : T → (GuardedDelivery T → W → Delivered T × W) → Type 0
  BlockedTraced output on_blocked =
      (g : GuardedDelivery T) (w : W) → Traced output (on_blocked g w).0.guarded

  suppress-Traced :
      (output : T) (g : GuardedDelivery T) → Traced output (suppress_delivery origin g)
  unfolding suppress_delivery
  suppress-Traced output g = λ e. cc

  delivery_fault-Traced :
      (output : T) (g : GuardedDelivery T) (e : Error)
      → Traced output (delivery_fault origin g e).guarded
  unfolding delivery_fault
  delivery_fault-Traced output g e = suppress-Traced output _

  deliver_kind-Traced :
      (g : GuardedDelivery T) (k : PayloadKind)
      → g.fallback ≡ false
      → Traced g.value (deliver_kind origin policy g k).guarded
  unfolding deliver_kind suppress_delivery
  deliver_kind-Traced g k f = λ e. itself (ground arith) (ground arith)

  judge_kind-Traced :
      (g : GuardedDelivery T) (answer : Classified) (ctx : Option Error)
      → g.fallback ≡ false
      → Traced g.value (judge_kind origin policy g answer ctx).guarded
  unfolding judge_kind
  judge_kind-Traced g answer ctx f =
      elim (Option-cases (callback_cancellation ctx (classified_error origin answer))) [
        | inr (err, e) ↦ rw (e, judge_kind) (delivery_fault-Traced _ g err)
        | inl e ↦
            rw (e, judge_kind)
              (elim (Option-cases (classified_error origin answer)) [
                | inr (err, h) ↦ rw (h, judge_kind) (delivery_fault-Traced _ g err)
                | inl h ↦
                    rw (h, judge_kind)
                      (elim (Bool-cases
                        (payload_kind_priority (classified_kind origin answer) == 0)) [
                          | inl z ↦ rw z (delivery_fault-Traced _ g _)
                          | inr z ↦ rw z (deliver_kind-Traced g _ f)
                        ])
              ])
      ]

  fallback_or-Traced :
      (output : T) (e : Error) (r : Delivered T × W)
      → Traced output r.0.guarded
      → Traced output (fallback_or origin ctx_err runner policy e r).0.guarded
  fallback_or-Traced output e (d, w) s = elim (Option-cases d.error) [
    | inl h ↦ rw h s
    | inr (f, h) ↦ rw h s
  ]

  after_policy-Traced :
      (output : T) (on_blocked : GuardedDelivery T → W → Delivered T × W) (r : Delivered T × W)
      → BlockedTraced output on_blocked
      → Traced output r.0.guarded
      → Traced output (after_policy origin ctx_err runner policy on_blocked r).0.guarded
  unfolding after_policy
  after_policy-Traced output on_blocked (d, w) b s = elim (Option-cases d.error) [
    | inl h ↦ rw (h, after_policy) s
    | inr (e, h) ↦
        rw (h, after_policy)
          (elim (Bool-cases (is_system_fault d.guarded.decision)) [
            | inl f ↦ rw f s
            | inr f ↦ rw f (fallback_or-Traced output e (on_blocked d.guarded w) (b d.guarded w))
          ])
  ]

  after_run-Traced :
      (on_blocked : GuardedDelivery T → W → Delivered T × W) (r : Outcome T × W)
      → BlockedTraced r.0.result.output on_blocked
      → Traced r.0.result.output (after_run origin ctx_err runner policy on_blocked r).0.guarded
  unfolding after_run apply_delivery_policy
  after_run-Traced on_blocked (o, w) b =
      let g = from_run origin ctx_err runner policy o.result in
      elim (Option-cases o.error) [
        | inr (e, h) ↦ rw (h, after_run) (suppress-Traced _ g)
        | inl h ↦
            rw (h, after_run)
              (elim (Option-cases (error_from_decision (decision_of o.result.reports))) [
                | inr (e, k) ↦
                    rw (k, after_run)
                      (elim (Bool-cases (is_system_fault (policy_decision o.result))) [
                        | inl f ↦ rw f (suppress-Traced _ g)
                        | inr f ↦ rw f (fallback_or-Traced _ e (on_blocked g w) (b g w))
                      ])
                | inl k ↦
                    rw (k, after_run)
                      (after_policy-Traced _ on_blocked
                        (apply_delivery_policy origin policy ctx_err w g) b
                        (unfold guarded_output_from_run in judge_kind-Traced g _ _ refl))
              ])
      ]

  take_candidate-Traced :
      (output v : T) (blocked : GuardedDelivery T) (w : W)
      → policy.fallback ≡ candidate v
      → Traced output
          (take_candidate origin ctx_err runner policy blocked
            (guard_candidate origin ctx_err runner policy v w)).0.guarded
  unfolding take_candidate
  take_candidate-Traced output v blocked w p =
      let d = (guard_candidate origin ctx_err runner policy v w).0 in
      elim (Bool-cases (is_some d.error || not d.guarded.deliverable)) [
        | inl h ↦ rw h (elim (Bool-cases (is_system_fault d.guarded.decision)) [
          | inl f ↦ rw f (suppress-Traced output d.guarded)
          | inr f ↦ rw f (suppress-Traced output blocked)
        ])
        | inr h ↦
            let clean : d.error ≡ none = ground arith in
            rw h (λ e. replaced v w refl p clean (ground arith) (
              unfold guard_candidate in
              (after_run-Safe origin ctx_err runner policy (suppressed origin ctx_err runner policy)
                  (runner.run w v) (suppressed-Safe origin ctx_err runner policy)).1.keeps
                clean))
      ]

  fallback_from-Traced :
      (output : T) (f : Fallback T)
      → policy.fallback ≡ f
      → BlockedTraced output (fallback_from origin ctx_err runner policy f)
  fallback_from-Traced output absent p g w = suppress-Traced output g
  fallback_from-Traced output foreign p g w = suppress-Traced output g
  fallback_from-Traced output (candidate v) p g w = take_candidate-Traced output v g w p

  -- Whatever the rules, the classifier and the context do, a deliverable value is either no fallback
  -- and the output of the run over the value to deliver, or the fallback, and then it is the output of
  -- a run over the candidate of the policy that was itself guarded in full, deliverable and without an
  -- error.
  pub guard_delivery-Traced :
      (trim_space : String → String) (w : W) (output : T)
      → Traced
          (runner.run w output).0.result.output
          (guard_delivery origin ctx_err runner policy trim_space w output).0.guarded
  unfolding guard_delivery checked_delivery_fallback
  guard_delivery-Traced trim_space w output =
      elim (Option-cases (validate_delivery_policy trim_space policy)) [
        | inr (e, h) ↦ rw (h, guard_delivery) (delivery_fault-Traced _ _ e)
        | inl h ↦
            rw (h, guard_delivery)
              (after_run-Traced (checked_delivery_fallback origin ctx_err runner policy)
                (runner.run w output) (fallback_from-Traced _ policy.fallback refl))
      ]
