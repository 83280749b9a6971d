-- ===== src/Release/Bounds.antt =====
-- Every operation of the processor keeps its byte counts within the limits, counts exactly what the
-- transport took, and with a whole response sends nothing before the end.
use guardy.Base.{
  ℕ, ◌-◌, ◌≤◌, ltb, Bool, true, false, not, ◌&&◌, ◌≡◌, inl, inr, refl, List, Option, none, some,
  if◌then◌else◌, length, take, arith, Bool-cases, Option-cases, length-append, length-take,
}
use guardy.Decision.{Decision}
use guardy.Fault.Tree.{Error, leaf, sentinel, blocked}
use guardy.Route.{ℤ, pos, negsuc}
use guardy.Delivery.{Delivered}
use guardy.Release.Utf8.{valid_utf8}
use guardy.Release.{
  Encoding, StreamConfig, StreamProcessor, StreamStage, StreamCategory, stream_limit,
  stream_blocked, is_whole_response, fail, observe, observe_outcome,
}
use guardy.Release.Units.{valid_representation}
use guardy.Release.Approval.{
  Approval, refused, approved, approve_value, judge_delivery, consult, approval, valid_count,
  write_error, took, settle_write, settle, validate_and_release,
}

-- The counts of a processor are in order.
pub record Counted {W : Type 0} (cfg : StreamConfig W) (s : StreamProcessor W) : Type 0 where
  pub received_within : s.outcome.received_bytes ≤ cfg.max_input_bytes
  pub released_within : s.outcome.released_bytes ≤ cfg.max_output_bytes
  pub released_sent : s.outcome.released_bytes ≡ length s.sent

-- Another state with the same counts.
pub record SameCounts {W : Type 0} (s t : StreamProcessor W) : Type 0 where
  pub same_received : t.outcome.received_bytes ≡ s.outcome.received_bytes
  pub same_released : t.outcome.released_bytes ≡ s.outcome.released_bytes
  pub same_sent : t.sent ≡ s.sent

-- A state whose counts are in order after `n` bytes were received.
pub record At {W : Type 0} (cfg : StreamConfig W) (n : ℕ) (s : StreamProcessor W) : Type 0 where
  pub counted : Counted cfg s
  pub received_so_far : s.outcome.received_bytes ≡ n

module _ {W : Type 0} (cfg : StreamConfig W) where
  pub same-Counted : (s t : StreamProcessor W) → SameCounts s t → Counted cfg s → Counted cfg t
  same-Counted s t e c = record {
    received_within = omega (arith, e.same_received, c.received_within);
    released_within = omega (arith, e.same_released, c.released_within);
    released_sent = rw (e.same_released, e.same_sent) c.released_sent;
  }

  observe-SameCounts :
      (s : StreamProcessor W) (stage : StreamStage) → SameCounts s (observe cfg s stage)
  unfolding observe observe_outcome
  observe-SameCounts s stage = elim (Option-cases cfg.observer) [
    | inl e ↦
        rw (e, observe_outcome)
          (record { same_received = refl; same_released = refl; same_sent = refl })
    | inr (o, e) ↦
        rw (e, observe_outcome)
          (record { same_received = refl; same_released = refl; same_sent = refl })
  ]

  pub same-At : (n : ℕ) (s t : StreamProcessor W) → SameCounts s t → At cfg n s → At cfg n t
  same-At n s t e a = record {
    counted = same-Counted s t e a.counted;
    received_so_far = omega (arith, e.same_received, a.received_so_far);
  }

  pub observe-At :
      (n : ℕ) (s : StreamProcessor W) (stage : StreamStage)
      → At cfg n s
      → At cfg n (observe cfg s stage)
  observe-At n s stage a = same-At n s (observe cfg s stage) (observe-SameCounts s stage) a

  pub fail-At :
      (n : ℕ) (s : StreamProcessor W) (c : StreamCategory) (e : Error) (d : Decision)
      → At cfg n s
      → At cfg n (fail cfg s c e d).0
  unfolding fail
  fail-At n s c e d a =
      observe-At n _ _
        (same-At n s _ (record { same_received = refl; same_released = refl; same_sent = refl }) a)

-- An approved value fits into what is left of the output.
abbrev pub Fits : ℕ → ℕ → Approval → Type 0
Fits max_output_bytes released_bytes (refused c e d) = Unit {0}
Fits max_output_bytes released_bytes (approved value d) =
    length value ≤ max_output_bytes - released_bytes

pub Fits-if :
    (m n : ℕ) (b : Bool) (x y : Approval) → Fits m n x → Fits m n y → Fits m n (if b then x else y)
Fits-if m n true x y h k = h
Fits-if m n false x y h k = k

pub room-Fits :
    (m r : ℕ) (value : List ℕ) (c : StreamCategory) (e : Error) (d : Decision)
    → Fits m r (if ltb (m - r) (length value) then refused c e d else approved value d)
room-Fits m r value c e d = elim (Bool-cases (ltb (m - r) (length value))) [
  | inl h ↦ rw h tt
  | inr h ↦ rw h (ground arith)
]

module _ {W : Type 0} (encoding : Encoding) (cfg : StreamConfig W) where
  took-At :
      (n k : ℕ) (s : StreamProcessor W) (value : List ℕ)
      → k ≤ length value
      → length value ≤ cfg.max_output_bytes - s.outcome.released_bytes
      → At cfg n s
      → At cfg n (took encoding cfg s value k)
  took-At n k s value h l a = record {
    counted = record {
      received_within = a.counted.received_within;
      released_within = omega (arith, h, l, a.counted.released_within);
      released_sent = omega (
        arith,
        a.counted.released_sent,
        length-append s.sent (take k value),
        length-take k value,
        h,
      );
    };
    received_so_far = a.received_so_far;
  }

  pub valid_count-le : (count : ℤ) (size k : ℕ) → valid_count count size ≡ some k → k ≤ size
  valid_count-le (pos m) size k e = ground arith
  valid_count-le (negsuc m) size k e = cc

  settle_write-At :
      (n : ℕ) (s : StreamProcessor W) (value : List ℕ) (d : Decision) (stage : StreamStage)
      (count : ℤ) (err : Option Error)
      → length value ≤ cfg.max_output_bytes - s.outcome.released_bytes
      → At cfg n s
      → At cfg n (settle_write encoding cfg s value d stage count err).0
  unfolding settle_write
  settle_write-At n s value d stage count err l a =
      elim (Option-cases (valid_count count (length value))) [
        | inl e ↦ rw (e, settle_write) (fail-At cfg n s _ _ d a)
        | inr (k, e) ↦
            let t = took-At n k s value (valid_count-le count (length value) k e) l a in
            rw (e, settle_write)
              (elim (Option-cases (write_error err k (length value))) [
                | inl w ↦ rw (w, settle_write) (observe-At cfg n _ stage t)
                | inr (f, w) ↦ rw (w, settle_write) (fail-At cfg n _ _ f d t)
              ])
      ]

  approve_value-Fits :
      (r : ℕ) (value : List ℕ) (d : Decision)
      → Fits cfg.max_output_bytes r (approve_value encoding cfg r value d)
  unfolding approve_value
  approve_value-Fits r value d = elim (Bool-cases (not (valid_representation encoding cfg value))) [
    | inl e ↦ rw e tt
    | inr e ↦
        rw e
          (elim (Bool-cases
            (not (is_whole_response cfg.profile) && ltb cfg.max_unit_bytes (length value))) [
              | inl f ↦ rw f tt
              | inr f ↦ rw f (
                  room-Fits cfg.max_output_bytes r value stream_limit (leaf "guardy: output limit")
                    d)
            ])
  ]

  judge_delivery-Fits :
      (r : ℕ) (d : Delivered (List ℕ)) (ctx : Option Error)
      → Fits cfg.max_output_bytes r (judge_delivery encoding cfg r d ctx)
  unfolding judge_delivery
  judge_delivery-Fits r d (some e) = tt
  judge_delivery-Fits r d none = elim (Option-cases d.error) [
    | inr (e, h) ↦ rw (h, judge_delivery) tt
    | inl h ↦
        rw (h, judge_delivery)
          (Fits-if cfg.max_output_bytes r d.guarded.deliverable _
            (refused stream_blocked (sentinel blocked) d.guarded.decision)
            (approve_value-Fits r d.guarded.value d.guarded.decision) tt)
  ]

  consult-Fits :
      (stage : StreamStage) (r : ℕ) (value : List ℕ) (w : W)
      → Fits cfg.max_output_bytes r (consult encoding cfg stage r value w).0
  unfolding consult
  consult-Fits stage r value w = elim (Option-cases (cfg.scope_factory stage w).0) [
    | inr (e, h) ↦ rw (h, consult) tt
    | inl h ↦ rw (h, consult) (judge_delivery-Fits r _ _)
  ]

  approval-Fits :
      (s : StreamProcessor W) (value : List ℕ) (stage : StreamStage)
      → Fits cfg.max_output_bytes s.outcome.released_bytes (approval encoding cfg s value stage).0
  unfolding approval
  approval-Fits s value stage = elim (Bool-cases (not (valid_utf8 value))) [
    | inl e ↦ rw e tt
    | inr e ↦ rw e (elim (Bool-cases (not (valid_representation encoding cfg value))) [
      | inl f ↦ rw f tt
      | inr f ↦ rw f (consult-Fits stage s.outcome.released_bytes value s.world)
    ])
  ]

  settle-At :
      (n : ℕ) (s : StreamProcessor W) (stage : StreamStage) (r : Approval × W)
      → Fits cfg.max_output_bytes s.outcome.released_bytes r.0
      → At cfg n s
      → At cfg n (settle encoding cfg s stage r).0
  unfolding settle
  settle-At n s stage (refused c e d, w) f a = fail-At cfg n _ c e d (
      same-At cfg n s _ (record { same_received = refl; same_released = refl; same_sent = refl }) a)
  settle-At n s stage (approved value d, w) f a =
      let ((count, err), v) = cfg.transport w value in
      settle_write-At n _ value d stage count err f (
        same-At cfg n s _ (record { same_received = refl; same_released = refl; same_sent = refl })
          a)

  -- Releasing a unit keeps the counts in order and receives nothing.
  pub validate_and_release-At :
      (n : ℕ) (s : StreamProcessor W) (value : List ℕ) (stage : StreamStage)
      → At cfg n s
      → At cfg n (validate_and_release encoding cfg s value stage).0
  unfolding validate_and_release
  validate_and_release-At n s value stage a =
      settle-At n s stage (approval encoding cfg s value stage) (approval-Fits s value stage) a
