-- ===== src/Delivery.antt =====
-- guarded_output.go: delivery of a guarded value on a channel, with a fallback that is checked in its
-- own right. The run of the pipeline is an interface of which only the law on errors is used.
pub mod Judged
pub mod Checked
pub mod Origin
pub mod Runs
use guardy.Base.{
  ℕ, ◌==◌, ltb, Bool, true, false, String, List, [], ◌∷◌, ◌++◌, Option, none, some, is_empty,
  is_some, not, ◌||◌, if◌then◌else◌, any, ◌≡◌,
}
use guardy.Kinds.{
  block, FailureDisposition, system_fault, PayloadKind, payload_kind_priority, same_kind,
  same_disposition,
}
use guardy.Report.{Report, zero_report, finish_report, normalize_report, spec_of, effective}
use guardy.Decision.{
  Decision, RunResult, decision_of, decision_from_report, policy_decision, is_system_fault,
}
use guardy.Fault.Tree.{Error, misconfigured, unclassified, validator_fault, block_error}
use guardy.Fault.Walk.{callback_cancellation}
use guardy.Fault.Outcome.{validator_fault_report, error_from_decision}
use guardy.Pipeline.Rules.{Outcome}

-- What a pipeline promises to its clients: a run ends, and with an error only as a fault.
pub record Runner (W T : Type 0) : Type 0 where
  pub run : W → T → Outcome T × W
  pub name : String
  pub fails_closed :
      (w : W) (input : T)
      → is_some (run w input).0.error ≡ true
      → effective (decision_of (run w input).0.result.reports) ≡ system_fault

-- A classifier answers with a kind, maybe beside an error, or panics.
pub data Classified : Type 0 where
  classified : PayloadKind → Option Error → Classified
  classifier_panics : Classified

-- `Fallback any`: nil, a value of the pipeline's type, or one of another type.
pub data Fallback (T : Type 0) : Type 0 where
  absent foreign : Fallback T
  candidate : T → Fallback T

pub record DeliveryPolicy (W T : Type 0) : Type 0 where
  pub channel : String
  pub allowed_payload_kinds : List PayloadKind
  pub fallback : Fallback T
  pub classifier : Option (W → T → Classified × W)
  pub configuration_err : Option Error

pub record GuardedDelivery (T : Type 0) : Type 0 where
  pub value : T
  pub kind : PayloadKind
  pub decision : Decision
  pub reports : List Report
  pub deliverable : Bool
  pub channel : String
  pub fallback : Bool
  pub configuration_id : String

-- A delivery is returned beside its error.
pub record Delivered (T : Type 0) : Type 0 where
  pub guarded : GuardedDelivery T
  pub error : Option Error

-- The loop over the allowed kinds.
abbrev pub has_invalid_kind : List PayloadKind → Bool
has_invalid_kind kinds = any (λ k. payload_kind_priority k == 0) kinds

abbrev pub no_kinds : List PayloadKind → Bool
no_kinds [] = true
no_kinds (k ∷ ks) = false

abbrev pub fallback_error : {T : Type 0} → Fallback T → Option Error
fallback_error foreign = some (misconfigured "delivery" "fallback" "incompatible_type")
fallback_error _ = none

module _ {W T : Type 0} where
  abbrev pub classifier_error : DeliveryPolicy W T → Option Error
  classifier_error policy = elim policy.classifier [
    | none ↦ some (misconfigured "delivery" "classifier" "missing_classifier")
    | some c ↦ fallback_error policy.fallback
  ]

  -- `trim_space` is `strings.TrimSpace`.
  unfoldable pub validate_delivery_policy : (String → String) → DeliveryPolicy W T → Option Error
  validate_delivery_policy trim_space policy = elim policy.configuration_err [
    | some e ↦ some e
    | none ↦
        if is_empty (trim_space policy.channel)
        then some (misconfigured "delivery" "channel" "missing_channel")
        else if no_kinds policy.allowed_payload_kinds
        then some (misconfigured "delivery" "allowed_kinds" "missing_kinds")
        else if has_invalid_kind policy.allowed_payload_kinds
        then some (misconfigured "delivery" "allowed_kinds" "invalid_kind")
        else classifier_error policy
  ]

  unfoldable pub guarded_output_from_run : RunResult T → DeliveryPolicy W T → GuardedDelivery T
  guarded_output_from_run result policy = record {
    configuration_id = "";
    value = result.output;
    kind = result.output_kind;
    decision = policy_decision result;
    reports = result.reports;
    deliverable = same_disposition (policy_decision result).disposition FailureDisposition.none;
    channel = policy.channel;
    fallback = false;
  }

  unfoldable pub delivery_policy_allows : DeliveryPolicy W T → PayloadKind → Bool
  delivery_policy_allows policy kind = any (λ k. same_kind k kind) policy.allowed_payload_kinds

-- The report of a kind that the channel does not allow. Its message is empty, since the policy is
-- applied without its fallback.
unfoldable pub undeliverable_report : PayloadKind → Report
undeliverable_report kind =
    finish_report
      (record zero_report {
        action = block;
        validator = "delivery_policy";
        code = "POLICY_VIOLATION";
        reason = "payload kind is not deliverable on channel";
        payload_kind = kind;
      })
      (spec_of block)

module _ {T : Type 0} (origin : T) where
  unfoldable pub suppress_delivery : GuardedDelivery T → GuardedDelivery T
  suppress_delivery g = record g { value = origin; deliverable = false; fallback = false }

  abbrev pub delivery_report : GuardedDelivery T → Error → Report
  delivery_report g cause = record (validator_fault_report cause) {
    validator = "delivery_policy";
    payload_kind = g.kind;
  }

  unfoldable pub delivery_fault : GuardedDelivery T → Error → Delivered T
  delivery_fault g cause =
      let report = delivery_report g cause in
      record {
        guarded = suppress_delivery (record g {
          reports = g.reports ++ report ∷ [];
          decision = decision_from_report (some report);
        });
        error = some (validator_fault cause (normalize_report (some report)));
      }

  -- A panic of the classifier is an error of its own.
  abbrev pub classified_kind : Classified → PayloadKind
  classified_kind (classified kind err) = kind
  classified_kind classifier_panics = PayloadKind.safe_user_text

  abbrev pub classified_error : Classified → Option Error
  classified_error (classified kind err) = err
  classified_error classifier_panics = some (unclassified "classifier_panic")

  module _ {W : Type 0} (policy : DeliveryPolicy W T) where
    -- A nil classifier is called only by a policy that was not validated; the call panics.
    abbrev pub run_delivery_classifier : W → T → Classified × W
    run_delivery_classifier w value = elim policy.classifier [
      | some c ↦ c w value
      | none ↦ (classifier_panics, w)
    ]

    -- The kind on which the policy is asked.
    abbrev pub effective_kind : GuardedDelivery T → PayloadKind → PayloadKind
    effective_kind g kind =
        if ltb (payload_kind_priority kind) (payload_kind_priority g.kind) then g.kind else kind

    unfoldable pub deliver_kind : GuardedDelivery T → PayloadKind → Delivered T
    deliver_kind g kind =
        let passes = same_disposition g.decision.disposition FailureDisposition.none in
        if delivery_policy_allows policy kind
        then record {
          guarded = record g {
            kind = kind;
            decision = record (g.decision) { payload_kind = kind };
            deliverable = passes;
            value = if passes then g.value else origin;
          };
          error = none;
        }
        else record {
          guarded = suppress_delivery (record g {
            kind = kind;
            reports = g.reports ++ undeliverable_report kind ∷ [];
            decision = decision_from_report (some (undeliverable_report kind));
          });
          error = some (block_error (normalize_report (some (undeliverable_report kind))));
        }

    unfoldable pub judge_kind : GuardedDelivery T → Classified → Option Error → Delivered T
    judge_kind g answer ctx = elim (callback_cancellation ctx (classified_error answer)) [
      | some e ↦ delivery_fault g e
      | none ↦ elim (classified_error answer) [
        | some e ↦ delivery_fault g e
        | none ↦
            if payload_kind_priority (classified_kind answer) == 0
            then delivery_fault g (unclassified "invalid_kind")
            else deliver_kind g (effective_kind g (classified_kind answer))
      ]
    ]

    unfoldable pub apply_delivery_policy :
        (W → Option Error) → W → GuardedDelivery T → Delivered T × W
    apply_delivery_policy ctx_err w g =
        let (answer, v) = run_delivery_classifier w g.value in (judge_kind g answer (ctx_err v), v)

  -- `GuardDelivery` of a policy that was found valid, by what a value that is blocked becomes.
  module _ {W : Type 0} (ctx_err : W → Option Error) (runner : Runner W T)
      (policy : DeliveryPolicy W T) where
    abbrev pub Blocked : Type 0
    Blocked = GuardedDelivery T → W → Delivered T × W

    -- After a fallback its own error is returned, or else that of the value.
    abbrev pub fallback_or : Error → Delivered T × W → Delivered T × W
    fallback_or e (d, w) =
        (if is_some d.error then d else record { guarded = d.guarded; error = some e }, w)

    unfoldable pub after_policy : Blocked → Delivered T × W → Delivered T × W
    after_policy on_blocked (d, w) = elim d.error [
      | none ↦ (d, w)
      | some e ↦
          if is_system_fault d.guarded.decision
          then (d, w)
          else fallback_or e (on_blocked d.guarded w)
    ]

    abbrev pub from_run : RunResult T → GuardedDelivery T
    from_run result = record (guarded_output_from_run result policy) {
      configuration_id = runner.name;
    }

    unfoldable pub after_run : Blocked → Outcome T × W → Delivered T × W
    after_run on_blocked (o, w) =
        let g = from_run o.result in
        elim o.error [
          | some e ↦ (record { guarded = suppress_delivery g; error = some e }, w)
          | none ↦ elim (error_from_decision (decision_of o.result.reports)) [
            | some e ↦
                if is_system_fault (policy_decision o.result)
                then (record { guarded = suppress_delivery g; error = some e }, w)
                else fallback_or e (on_blocked g w)
            | none ↦ after_policy on_blocked (apply_delivery_policy policy ctx_err w g)
          ]
        ]

    -- Without a fallback a value that is blocked is suppressed.
    abbrev pub suppressed : Blocked
    suppressed g w = (record { guarded = suppress_delivery g; error = none }, w)

    -- The call for the candidate of the fallback, whose own policy has none.
    unfoldable pub guard_candidate : T → W → Delivered T × W
    guard_candidate value w = after_run suppressed (runner.run w value)

    abbrev pub accepted : GuardedDelivery T → GuardedDelivery T → GuardedDelivery T
    accepted blocked checked = record blocked {
      value = checked.value;
      kind = checked.kind;
      deliverable = true;
      fallback = true;
      reports = blocked.reports ++ checked.reports;
    }

    unfoldable pub take_candidate : GuardedDelivery T → Delivered T × W → Delivered T × W
    take_candidate blocked (d, w) = (
      if is_some d.error || not d.guarded.deliverable
          then (if is_system_fault d.guarded.decision
              then record { guarded = suppress_delivery d.guarded; error = d.error }
              else record { guarded = suppress_delivery blocked; error = none })
          else record { guarded = accepted blocked d.guarded; error = none },
      w,
    )

    abbrev pub fallback_from : Fallback T → Blocked
    fallback_from (candidate value) blocked w = take_candidate blocked (guard_candidate value w)
    fallback_from absent blocked w = suppressed blocked w
    fallback_from foreign blocked w = suppressed blocked w

    unfoldable pub checked_delivery_fallback : Blocked
    checked_delivery_fallback = fallback_from policy.fallback

    unfoldable pub empty_run : RunResult T
    empty_run = record { output = origin; reports = []; output_kind = PayloadKind.safe_user_text }

    unfoldable pub guard_delivery : (String → String) → W → T → Delivered T × W
    guard_delivery trim_space w output = elim (validate_delivery_policy trim_space policy) [
      | some e ↦ (delivery_fault (from_run empty_run) e, w)
      | none ↦ after_run checked_delivery_fallback (runner.run w output)
    ]

    unfoldable pub deliverable_value : GuardedDelivery T → Option T
    deliverable_value g = if g.deliverable then some g.value else none
