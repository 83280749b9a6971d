-- ===== src/Delivery/Judged.antt =====
-- What the policy of a delivery makes of one value.
use guardy.Base.{
  ◌==◌, true, false, ◌≡◌, ◌≢◌, refl, Option, none, some, arith, Bool-cases, Option-cases, inl, inr,
}
use guardy.Kinds.{FailureDisposition, system_fault, payload_kind_priority, PayloadKind}
use guardy.Report.{
  Report, effective, is_observation, normalize_report, is_terminal_deny, is_retryable_correction,
  effective_disposition,
}
use guardy.Report
use guardy.Report.Disposition.{effective_known}
use guardy.Decision.{
  Decision, RunResult, decision_of, decision_from_report, policy_decision, is_system_fault,
}
use guardy.Fault.Tree.{Error}
use guardy.Fault.Walk.{callback_cancellation}
use guardy.Fault.Outcome.{error_from_decision}
use guardy.Delivery.{
  Classified, DeliveryPolicy, GuardedDelivery, Delivered, delivery_policy_allows, suppress_delivery,
  delivery_fault, deliver_kind, judge_kind, classified_error, classified_kind,
}

-- A delivery that is safe to use: what is deliverable is of a kind that the policy allows and its
-- decision is no fault, and what is not deliverable holds the zero value.
pub record Safe {W T : Type 0} (origin : T) (policy : DeliveryPolicy W T) (g : GuardedDelivery T)
    : Type 0 where
  pub allows : g.deliverable ≡ true → delivery_policy_allows policy g.kind ≡ true
  pub no_fault : g.deliverable ≡ true → g.decision.disposition ≢ system_fault
  pub cleared : g.deliverable ≡ false → g.value ≡ origin

-- A delivery without an error is deliverable, holds the value and is not the fallback, and its
-- decision is none.
pub record Plain {T : Type 0} (value : T) (d : Delivered T) : Type 0 where
  pub keeps : d.error ≡ none → d.guarded.value ≡ value
  pub delivers : d.error ≡ none → d.guarded.deliverable ≡ true
  pub no_fallback : d.error ≡ none → d.guarded.fallback ≡ false
  pub passes : d.error ≡ none → d.guarded.decision.disposition ≡ FailureDisposition.none

pub failed-Plain :
    {T : Type 0} (value : T) (g : GuardedDelivery T) (e : Error)
    → Plain value (record { guarded = g; error = some e })
failed-Plain value g e = record {
  keeps = λ h. cc;
  delivers = λ h. cc;
  no_fallback = λ h. cc;
  passes = λ h. cc;
}

module _ {W T : Type 0} (origin : T) (policy : DeliveryPolicy W T) where
  pub suppress-Safe : (g : GuardedDelivery T) → Safe origin policy (suppress_delivery origin g)
  unfolding suppress_delivery
  suppress-Safe g = record {
    allows = λ e. ground arith;
    no_fault = λ e. ground arith;
    cleared = λ e. refl;
  }

  pub delivery_fault-Safe :
      (g : GuardedDelivery T) (e : Error) (value : T)
      → Safe origin policy (delivery_fault origin g e).guarded
        × Plain value (delivery_fault origin g e)
  unfolding delivery_fault
  delivery_fault-Safe g e value = (suppress-Safe _, failed-Plain value _ _)

  pub deliver_kind-Safe :
      (g : GuardedDelivery T) (k : PayloadKind)
      → Safe origin policy (deliver_kind origin policy g k).guarded
  unfolding deliver_kind suppress_delivery
  deliver_kind-Safe g k = record {
    allows = λ e. ground arith;
    no_fault = λ e. ground arith;
    cleared = λ e. ground arith;
  }

  pub deliver_kind-Plain :
      (g : GuardedDelivery T) (k : PayloadKind)
      → g.fallback ≡ false
      → g.decision.disposition ≡ FailureDisposition.none
      → Plain (g.value) (deliver_kind origin policy g k)
  unfolding deliver_kind
  deliver_kind-Plain g k f n = record {
    keeps = λ e. ground arith;
    delivers = λ e. ground arith;
    no_fallback = λ e. ground arith;
    passes = λ e. ground arith;
  }

  pub judge_kind-Safe :
      (g : GuardedDelivery T) (answer : Classified) (ctx : Option Error)
      → Safe origin policy (judge_kind origin policy g answer ctx).guarded
  unfolding judge_kind
  judge_kind-Safe g answer ctx =
      elim (Option-cases (callback_cancellation ctx (classified_error origin answer))) [
        | inr (err, e) ↦ rw (e, judge_kind) ((delivery_fault-Safe g err (g.value)).0)
        | inl e ↦
            rw (e, judge_kind)
              (elim (Option-cases (classified_error origin answer)) [
                | inr (err, h) ↦ rw (h, judge_kind) ((delivery_fault-Safe g err (g.value)).0)
                | inl h ↦
                    rw (h, judge_kind)
                      (elim (Bool-cases
                        (payload_kind_priority (classified_kind origin answer) == 0)) [
                          | inl z ↦ rw z ((delivery_fault-Safe g _ (g.value)).0)
                          | inr z ↦ rw z (deliver_kind-Safe g _)
                        ])
              ])
      ]

  pub judge_kind-Plain :
      (g : GuardedDelivery T) (answer : Classified) (ctx : Option Error)
      → g.fallback ≡ false
      → g.decision.disposition ≡ FailureDisposition.none
      → Plain (g.value) (judge_kind origin policy g answer ctx)
  unfolding judge_kind
  judge_kind-Plain g answer ctx f n =
      elim (Option-cases (callback_cancellation ctx (classified_error origin answer))) [
        | inr (err, e) ↦ rw (e, judge_kind) ((delivery_fault-Safe g err (g.value)).1)
        | inl e ↦
            rw (e, judge_kind)
              (elim (Option-cases (classified_error origin answer)) [
                | inr (err, h) ↦ rw (h, judge_kind) ((delivery_fault-Safe g err (g.value)).1)
                | inl h ↦
                    rw (h, judge_kind)
                      (elim (Bool-cases
                        (payload_kind_priority (classified_kind origin answer) == 0)) [
                          | inl z ↦ rw z ((delivery_fault-Safe g _ (g.value)).1)
                          | inr z ↦ rw z (deliver_kind-Plain g _ f n)
                        ])
              ])
      ]

-- A decision that asks for no error lets the value pass.
pub quiet-passes :
    (r : Report)
    → error_from_decision r ≡ none
    → (decision_from_report (some r)).disposition ≡ FailureDisposition.none
unfolding error_from_decision decision_from_report Report.is_system_fault is_retryable_correction
    is_terminal_deny effective_disposition
quiet-passes r e = ground (arith, effective_known r)

pub policy_decision-passes :
    {T : Type 0} (result : RunResult T)
    → error_from_decision (decision_of result.reports) ≡ none
    → (policy_decision result).disposition ≡ FailureDisposition.none
unfolding policy_decision
policy_decision-passes result e = quiet-passes (decision_of result.reports) e

pub not-fault : (d : Decision) → is_system_fault d ≡ false → d.disposition ≢ system_fault
unfolding is_system_fault
not-fault d e h = ground arith
