-- ===== src/Release/FallbackDelivery/Attempt.antt =====
-- What one attempt of a fallback leaves as it was, and how much it sends.
use guardy.Base.{
  ℕ, ◌+◌, ◌-◌, ◌≤◌, ltb, true, not, ◌&&◌, ◌≡◌, inl, inr, ap, List, [], Option, none, some, length,
  take, Bool-cases, Option-cases, arith, length-append, length-take,
}
use guardy.Decision.{Decision}
use guardy.Fault.Tree.{Error, leaf, sentinel, blocked}
use guardy.Route.{ℤ}
use guardy.Delivery.{Delivered, Fallback, absent, foreign, candidate}
use guardy.Release.{
  Encoding, StreamConfig, StreamProcessor, StreamOutcome, StreamStage, StreamCategory, stream_limit,
  stream_blocked, is_whole_response, observe_outcome,
}
use guardy.Release.Units.{valid_representation}
use guardy.Release.Approval.{Approval, refused, approved, valid_count, write_error}
use guardy.Release.Bounds.{Fits, Fits-if, room-Fits, valid_count-le}
use guardy.Release.FallbackDelivery.{
  fallback_failure, candidate_error, approve_fallback, judge_fallback, consult_fallback,
  fallback_took, write_fallback, settle_fallback, attempt_fallback, fallback_by, fallback_stage,
}

-- The state after an attempt on `b`: noted, with the same outcome and the same bytes of the stream
-- itself, and all that was sent within the output limit.
pub record Tried {W : Type 0} (max_output_bytes : ℕ) (b s : StreamProcessor W) : Type 0 where
  pub noted : s.fallback_attempted ≡ true
  pub same_outcome : s.outcome ≡ b.outcome
  pub same_sent : s.sent ≡ b.sent
  pub within : b.outcome.released_bytes + length s.fallback_sent ≤ max_output_bytes

module _ {W : Type 0} (encoding : Encoding) (cfg : StreamConfig W) (b : StreamProcessor W) where
  pub observe_outcome-Tried :
      (s : StreamProcessor W) (o : StreamOutcome) (stage : StreamStage)
      → Tried cfg.max_output_bytes b s
      → Tried cfg.max_output_bytes b (observe_outcome cfg s o stage)
  unfolding observe_outcome
  observe_outcome-Tried s o stage t = elim (Option-cases cfg.observer) [
    | inl e ↦ rw (e, observe_outcome) t
    | inr (f, e) ↦
        rw (e, observe_outcome)
          (record {
            noted = t.noted;
            same_outcome = t.same_outcome;
            same_sent = t.same_sent;
            within = t.within;
          })
  ]

  pub moved :
      (s : StreamProcessor W) (w : W)
      → Tried cfg.max_output_bytes b s
      → Tried cfg.max_output_bytes b (record s { world = w })
  moved s w t = record {
    noted = t.noted;
    same_outcome = t.same_outcome;
    same_sent = t.same_sent;
    within = t.within;
  }

  pub fallback_failure-Tried :
      (s : StreamProcessor W) (o : StreamOutcome) (c : StreamCategory) (e : Error)
      → Tried cfg.max_output_bytes b s
      → Tried cfg.max_output_bytes b (fallback_failure encoding cfg s o c e).0
  unfolding fallback_failure
  fallback_failure-Tried s o c e t = observe_outcome-Tried s _ _ t

  pub fallback_took-Tried :
      (s : StreamProcessor W) (value : List ℕ) (k : ℕ)
      → k ≤ length value
      → length value ≤ cfg.max_output_bytes - b.outcome.released_bytes
      → s.fallback_sent ≡ []
      → Tried cfg.max_output_bytes b s
      → Tried cfg.max_output_bytes b (fallback_took encoding cfg s value k)
  fallback_took-Tried s value k h l z t = record {
    noted = t.noted;
    same_outcome = t.same_outcome;
    same_sent = t.same_sent;
    within = omega (
      arith,
      t.within,
      ap length z,
      h,
      l,
      length-append s.fallback_sent (take k value),
      length-take k value,
    );
  }

  pub write_fallback-Tried :
      (s : StreamProcessor W) (o : StreamOutcome) (value : List ℕ) (count : ℤ) (err : Option Error)
      → length value ≤ cfg.max_output_bytes - b.outcome.released_bytes
      → s.fallback_sent ≡ []
      → Tried cfg.max_output_bytes b s
      → Tried cfg.max_output_bytes b (write_fallback encoding cfg s o value count err).0
  unfolding write_fallback
  write_fallback-Tried s o value count err l z t =
      elim (Option-cases (valid_count count (length value))) [
        | inl e ↦ rw (e, write_fallback) (fallback_failure-Tried s o _ _ t)
        | inr (k, e) ↦
            let u =
              fallback_took-Tried s value k (valid_count-le encoding cfg count (length value) k e) l
                z t in
            rw (e, write_fallback)
              (elim (Option-cases (write_error err k (length value))) [
                | inl w ↦ rw (w, write_fallback) (observe_outcome-Tried _ _ _ u)
                | inr (f, w) ↦ rw (w, write_fallback) (fallback_failure-Tried _ _ _ f u)
              ])
      ]

  pub settle_fallback-Tried :
      (s : StreamProcessor W) (o : StreamOutcome) (r : Approval × W)
      → Fits cfg.max_output_bytes b.outcome.released_bytes r.0
      → s.fallback_sent ≡ []
      → Tried cfg.max_output_bytes b s
      → Tried cfg.max_output_bytes b (settle_fallback encoding cfg s o r).0
  unfolding settle_fallback
  settle_fallback-Tried s o (refused c e d, w) f z t = fallback_failure-Tried _ _ c e (moved s w t)
  settle_fallback-Tried s o (approved value d, w) f z t =
      let ((count, err), v) = cfg.transport w value in
      write_fallback-Tried _ _ value count err f z (moved s v t)

  pub approve_fallback-Fits :
      (r : ℕ) (value : List ℕ) (d : Decision)
      → Fits cfg.max_output_bytes r (approve_fallback encoding cfg r value d)
  unfolding approve_fallback
  approve_fallback-Fits r value d =
      elim (Bool-cases (not (valid_representation encoding cfg value))) [
        | inl e ↦ rw e tt
        | inr e ↦
            rw e
              (elim (Bool-cases
                (not (is_whole_response cfg.profile) && ltb cfg.max_unit_bytes (length value))) [
                  | inl f ↦ rw f tt
                  | inr f ↦ rw f (
                      room-Fits cfg.max_output_bytes r value stream_limit
                        (leaf "guardy: fallback output limit") d)
                ])
      ]

  pub judge_fallback-Fits :
      (r : ℕ) (d : Delivered (List ℕ)) (ctx : Option Error)
      → Fits cfg.max_output_bytes r (judge_fallback encoding cfg r d ctx)
  unfolding judge_fallback
  judge_fallback-Fits r d (some e) = tt
  judge_fallback-Fits r d none = elim (Option-cases d.error) [
    | inr (e, h) ↦ rw (h, judge_fallback) tt
    | inl h ↦
        rw (h, judge_fallback)
          (Fits-if cfg.max_output_bytes r d.guarded.deliverable _
            (refused stream_blocked (sentinel blocked) d.guarded.decision)
            (approve_fallback-Fits r d.guarded.value d.guarded.decision) tt)
  ]

  pub consult_fallback-Fits :
      (r : ℕ) (value : List ℕ) (w : W)
      → Fits cfg.max_output_bytes r (consult_fallback encoding cfg r value w).0
  unfolding consult_fallback
  consult_fallback-Fits r value w =
      elim (Option-cases (cfg.scope_factory (fallback_stage cfg.profile) w).0) [
        | inr (e, h) ↦ rw (h, consult_fallback) tt
        | inl h ↦ rw (h, consult_fallback) (judge_fallback-Fits r _ _)
      ]

  pub attempt_fallback-Tried :
      (s : StreamProcessor W) (value : List ℕ)
      → s.fallback_sent ≡ []
      → Tried cfg.max_output_bytes b s
      → Tried cfg.max_output_bytes b (attempt_fallback encoding cfg s value).0
  unfolding attempt_fallback
  attempt_fallback-Tried s value z t = elim (Option-cases (candidate_error encoding cfg value)) [
    | inr ((c, e), h) ↦ rw (h, attempt_fallback) (fallback_failure-Tried s _ c e t)
    | inl h ↦
        rw (h, attempt_fallback)
          (settle_fallback-Tried s _ _
            (rw⁻¹ (t.same_outcome) (consult_fallback-Fits s.outcome.released_bytes value s.world)) z
            t)
  ]

  pub fallback_by-Tried :
      (f : Fallback (List ℕ)) (s : StreamProcessor W)
      → s.fallback_sent ≡ []
      → Tried cfg.max_output_bytes b s
      → Tried cfg.max_output_bytes b (fallback_by encoding cfg f s).0
  fallback_by-Tried (candidate v) s z t = attempt_fallback-Tried s v z t
  fallback_by-Tried absent s z t = t
  fallback_by-Tried foreign s z t = t
