-- ===== src/Release/FallbackDelivery.antt =====
-- release.go: `DeliverFallback`, a delivery of its own after a denial, at most once.
pub mod Attempt
pub mod Once
use guardy.Base.{
  ℕ, ◌+◌, ◌-◌, ltb, ◌==◌, Bool, true, false, not, ◌&&◌, ◌||◌, String, List, ◌++◌, Option, none,
  some, if◌then◌else◌, length, take,
}
use guardy.Kinds.{FailureDisposition, system_fault, same_disposition}
use guardy.Decision.{Decision}
use guardy.Fault.Tree.{Error, leaf, join, sentinel, blocked}
use guardy.Fault.Outcome.{failure_decision}
use guardy.Route.{ℤ}
use guardy.Delivery.{Delivered, Fallback, absent, foreign, candidate}
use guardy.Release.Utf8.{valid_utf8}
use guardy.Release.{
  Encoding, StreamConfig, StreamProcessor, StreamOutcome, StreamStage, stream_partial, stream_unit,
  stream_final, StreamCategory, uncategorized, stream_success, stream_malformed, stream_limit,
  stream_timeout, stream_fault, stream_unsupported, stream_blocked, stream_transport,
  ReleaseProfile, whole_response, validated_units, best_effort, ReleaseError, is_timeout,
  is_whole_response, is_validated_units, no_decision, decision_in, observe_outcome,
}
use guardy.Release.Units.{valid_representation, unit_limit_error, invalid_unit_error}
use guardy.Release.Approval.{Approval, refused, approved, valid_count, write_error, block_category}

-- The fallback was not to be had, or failed.
pub data FallbackError : Type 0 where
  unavailable not_configured : FallbackError
  fallback_failed : ReleaseError → FallbackError

abbrev pub is_blocked : StreamCategory → Bool
is_blocked stream_blocked = true
is_blocked _ = false

abbrev pub is_transport : StreamCategory → Bool
is_transport stream_transport = true
is_transport _ = false

abbrev pub fallback_stage : ReleaseProfile → StreamStage
fallback_stage whole_response = stream_final
fallback_stage validated_units = stream_unit
fallback_stage best_effort = stream_partial

-- What `DeliverFallback` returns: the outcome of this delivery only.
abbrev pub FallbackResult : Type 0 → Type 0
FallbackResult W = StreamProcessor W × StreamOutcome × Option FallbackError

abbrev pub fallback_decision : StreamCategory → Error → Decision → Decision
fallback_decision category cause decision =
    let d = decision_in (failure_decision cause) decision in
    if is_timeout category
      || (same_disposition d.disposition FailureDisposition.none && not (is_transport category))
    then record d { disposition = system_fault }
    else d

abbrev pub fallback_started : String → StreamOutcome
fallback_started identity = record {
  identity = identity;
  category = uncategorized;
  decision = no_decision;
  sequence = 0;
  released_bytes = 0;
  received_bytes = 0;
  peak_pending_bytes = 0;
  terminal = true;
  fallback = true;
}

module _ {W : Type 0} (encoding : Encoding) (cfg : StreamConfig W) where
  unfoldable pub fallback_failure :
      StreamProcessor W → StreamOutcome → StreamCategory → Error → FallbackResult W
  fallback_failure s outcome category cause =
      let d = fallback_decision category cause outcome.decision in
      let o : StreamOutcome = record outcome { decision = d; category = category } in
      (
        observe_outcome cfg s o stream_final,
        o,
        some (fallback_failed (record { outcome = o; cause = cause; failure = d })),
      )

  -- The tests of the candidate before it is guarded.
  unfoldable pub candidate_error : List ℕ → Option (StreamCategory × Error)
  candidate_error value =
      if ltb cfg.max_unit_bytes (length value)
      then some (stream_limit, unit_limit_error)
      else if ltb cfg.max_input_bytes (length value)
      then some (stream_limit, leaf "guardy: fallback input limit")
      else if not (valid_representation encoding cfg value)
      then some (
        if is_validated_units cfg.profile && not cfg.json_values && valid_utf8 value
            then stream_unsupported
            else stream_malformed,
        invalid_unit_error,
      )
      else none

  unfoldable pub approve_fallback : ℕ → List ℕ → Decision → Approval
  approve_fallback released_bytes value d =
      if not (valid_representation encoding cfg value)
      then refused stream_fault invalid_unit_error d
      else if not (is_whole_response cfg.profile) && ltb cfg.max_unit_bytes (length value)
      then refused stream_limit unit_limit_error d
      else if ltb (cfg.max_output_bytes - released_bytes) (length value)
      then refused stream_limit (leaf "guardy: fallback output limit") d
      else approved value d

  unfoldable pub judge_fallback : ℕ → Delivered (List ℕ) → Option Error → Approval
  judge_fallback released_bytes d (some ctx) =
      refused stream_timeout (join d.error ctx) d.guarded.decision
  judge_fallback released_bytes d none = elim d.error [
    | some e ↦ refused (block_category encoding cfg d.guarded.decision) e d.guarded.decision
    | none ↦
        if d.guarded.deliverable
        then approve_fallback released_bytes d.guarded.value d.guarded.decision
        else refused stream_blocked (sentinel blocked) d.guarded.decision
  ]

  unfoldable pub consult_fallback : ℕ → List ℕ → W → Approval × W
  consult_fallback released_bytes value w =
      let stage = fallback_stage cfg.profile in
      let (err, v) = cfg.scope_factory stage w in
      let (d, u) = cfg.guard stage v value in
      elim err [
        | some e ↦ (refused stream_fault e no_decision, v)
        | none ↦ (judge_fallback released_bytes d (cfg.guard_ctx_err u), u)
      ]

  abbrev pub fallback_took : StreamProcessor W → List ℕ → ℕ → StreamProcessor W
  fallback_took s value n = record s { fallback_sent = s.fallback_sent ++ take n value }

  abbrev pub delivered_outcome : StreamOutcome → ℕ → StreamOutcome
  delivered_outcome outcome n = record outcome {
    sequence = 1;
    released_bytes = n;
    category = stream_success;
  }

  -- `writeFallback`, given what the transport returned.
  unfoldable pub write_fallback :
      StreamProcessor W → StreamOutcome → List ℕ → ℤ → Option Error → FallbackResult W
  write_fallback s outcome value count err = elim (valid_count count (length value)) [
    | none ↦
        fallback_failure s outcome stream_transport (leaf "guardy: invalid fallback byte count")
    | some n ↦ elim (write_error err n (length value)) [
      | some e ↦
          fallback_failure (fallback_took s value n) (delivered_outcome outcome n) stream_transport
            e
      | none ↦ (
        observe_outcome cfg (fallback_took s value n) (delivered_outcome outcome n)
            (fallback_stage cfg.profile),
        delivered_outcome outcome n,
        none,
      )
    ]
  ]

  unfoldable pub settle_fallback :
      StreamProcessor W → StreamOutcome → Approval × W → FallbackResult W
  settle_fallback s outcome (refused category cause d, w) =
      fallback_failure (record s { world = w }) (record outcome { decision = d }) category cause
  settle_fallback s outcome (approved value d, w) =
      let ((count, err), v) = cfg.transport w value in
      write_fallback (record s { world = v }) (record outcome { decision = d }) value count err

  -- The attempt, after it was noted.
  unfoldable pub attempt_fallback : StreamProcessor W → List ℕ → FallbackResult W
  attempt_fallback s value =
      let outcome = fallback_started cfg.identity in
      elim (candidate_error value) [
        | some (category, cause) ↦ fallback_failure s outcome category cause
        | none ↦
            settle_fallback s (record outcome { received_bytes = length value })
              (consult_fallback s.outcome.released_bytes value s.world)
      ]

  abbrev pub attempted : StreamProcessor W → StreamProcessor W
  attempted s = record s { fallback_attempted = true }

  abbrev pub fallback_by : Fallback (List ℕ) → StreamProcessor W → FallbackResult W
  fallback_by (candidate value) s = attempt_fallback s value
  fallback_by absent s = (s, s.outcome, some not_configured)
  fallback_by foreign s = (s, s.outcome, some not_configured)

  unfoldable pub deliver_fallback : StreamProcessor W → FallbackResult W
  deliver_fallback s =
      if not (is_blocked s.outcome.category) || s.fallback_attempted
      then (s, s.outcome, some unavailable)
      else fallback_by cfg.fallback (attempted s)
