-- ===== src/Release/Reach.antt =====
-- The counts of a processor after any sequence of operations.
use guardy.Base.{
  ℕ, zero, suc, ◌+◌, ◌-◌, ◌≤◌, min, ltb, leb, ◌==◌, Bool, true, false, ◌&&◌, ◌≡◌, inl, inr, refl,
  List, [], ◌∷◌, Option, none, some, if◌then◌else◌, length, take, drop, arith, Bool-cases,
  Option-cases, length-take, length-drop,
}
use guardy.Fault.Tree.{Error}
use guardy.Release.{
  Encoding, StreamConfig, StreamProcessor, Result, is_whole_response, no_decision, stream_limit,
}
use guardy.Release.Units.{NextUnit, unit, no_unit, unit_limit_error}
use guardy.Release.Steps.{
  StreamError, release_unit, next, after_unit, release_round, release_pending, received,
  release_received, accept_input, admitted, with_error, write_context, finish, release_all,
  completed, complete, abort, budget, counts_lines, cause_or_eof,
}
use guardy.Release.Bounds.{Counted, At, same-At, observe-At, fail-At, validate_and_release-At}

-- What a caller does.
pub data Op : Type 0 where
  write : List ℕ → Op
  complete_op : Op
  abort_op : Option Error → Op

module _ {W : Type 0} (encoding : Encoding) (ctx_err : W → Option Error)
    (cfg : StreamConfig W) where
  -- The state after an operation, and after some.
  unfoldable pub apply_op : Op → StreamProcessor W → StreamProcessor W
  apply_op (write p) s = (write_context encoding ctx_err cfg s p).0
  apply_op complete_op s = (complete encoding ctx_err cfg s).0
  apply_op (abort_op cause) s = (abort encoding ctx_err cfg s cause).0

  unfoldable pub apply_ops : List Op → StreamProcessor W → StreamProcessor W
  apply_ops [] s = s
  apply_ops (o ∷ os) s = apply_ops os (apply_op o s)

  Counted-if :
      {B : Type 0} (b : Bool) (x y : StreamProcessor W × B)
      → Counted cfg x.0
      → Counted cfg y.0
      → Counted cfg (if b then x else y).0
  Counted-if true x y c d = c
  Counted-if false x y c d = d

  Counted-if_accepted :
      (b : Bool) (x y : StreamProcessor W × ℕ × StreamError)
      → Counted cfg x.0
      → Counted cfg y.0
      → Counted cfg (if b then x else y).0
  Counted-if_accepted true x y c d = c
  Counted-if_accepted false x y c d = d

  same :
      (n : ℕ) (s t : StreamProcessor W)
      → t.outcome ≡ s.outcome
      → t.sent ≡ s.sent
      → At cfg n s
      → At cfg n t
  same n s t e f a =
      same-At cfg n s t
        (record { same_received = rw e refl; same_released = rw e refl; same_sent = f }) a

  after_unit-At :
      (n k : ℕ) (more : StreamProcessor W → Result W) (r : Result W)
      → ((t : StreamProcessor W) → At cfg n t → At cfg n (more t).0)
      → At cfg n r.0
      → At cfg n (after_unit encoding ctx_err cfg more k r).0
  after_unit-At n k more (t, some e) h a = a
  after_unit-At n k more (t, none) h a = h _ (same n t _ refl refl a)

  release_round-At :
      (n : ℕ) (more : StreamProcessor W → Result W) (r : StreamProcessor W × NextUnit)
      → ((t : StreamProcessor W) → At cfg n t → At cfg n (more t).0)
      → At cfg n r.0
      → At cfg n (release_round encoding ctx_err cfg more r).0
  unfolding release_round release_unit
  release_round-At n more (s, no_unit c e) h a = fail-At cfg n s c e no_decision a
  release_round-At n more (s, unit k) h a = elim (Bool-cases (k == 0)) [
    | inl z ↦ rw z a
    | inr z ↦ rw z (elim (Bool-cases (ltb cfg.max_unit_bytes k)) [
      | inl l ↦ rw l (fail-At cfg n s stream_limit unit_limit_error no_decision a)
      | inr l ↦ rw l (
          after_unit-At n k more _ h
            (validate_and_release-At encoding cfg n _ _ _ (same n s _ refl refl a)))
    ])
  ]

  release_pending-At :
      (n fuel : ℕ) (s : StreamProcessor W) (final : Bool)
      → At cfg n s
      → At cfg n (release_pending encoding ctx_err cfg fuel s final).0
  unfolding release_pending
  release_pending-At n zero s final a = a
  release_pending-At n (suc fuel) s final a = elim (Bool-cases (s.pending.size == 0)) [
    | inl z ↦ rw z a
    | inr z ↦ rw z (
        release_round-At n _ (next encoding ctx_err cfg s final)
          (λ t b. release_pending-At n fuel t final b) (same n s _ refl refl a))
  ]

  received-At :
      (n : ℕ) (s : StreamProcessor W) (p : List ℕ)
      → n + length p ≤ cfg.max_input_bytes
      → At cfg n s
      → At cfg (n + length p) (received encoding ctx_err cfg s p)
  received-At n s p h a = record {
    counted = record {
      received_within = omega (arith, a.received_so_far);
      released_within = a.counted.released_within;
      released_sent = a.counted.released_sent;
    };
    received_so_far = omega (arith, a.received_so_far);
  }

  release_received-At :
      (n : ℕ) (s : StreamProcessor W)
      → At cfg n s
      → At cfg n (release_received encoding ctx_err cfg s).0
  release_received-At n s a = elim (Bool-cases (is_whole_response cfg.profile)) [
    | inl e ↦ rw e a
    | inr e ↦ rw e (release_pending-At n s.pending.size s false a)
  ]

  accept_input-Counted :
      (fuel : ℕ) (s : StreamProcessor W) (accepted : ℕ) (p : List ℕ) (n : ℕ)
      → n + length p ≤ cfg.max_input_bytes
      → At cfg n s
      → Counted cfg (accept_input encoding ctx_err cfg fuel s accepted p).0
  unfolding accept_input
  accept_input-Counted zero s accepted p n h a = a.counted
  accept_input-Counted (suc fuel) s accepted [] n h a = a.counted
  accept_input-Counted (suc fuel) s accepted (c ∷ p) n h a =
      let room = budget encoding ctx_err cfg - s.pending.size in
      let k = min room (suc (length p)) in
      let size : length (take k (c ∷ p)) ≡ min k (suc (length p)) = length-take k (c ∷ p) in
      let left : length (drop k (c ∷ p)) ≡ suc (length p) - k = length-drop k (c ∷ p) in
      let t =
        release_received-At _ _ (received-At n s (take k (c ∷ p)) (omega (arith, size, h)) a) in
      elim (Bool-cases
        (counts_lines encoding ctx_err cfg && leb cfg.max_unit_bytes s.pending.size)) [
          | inl e ↦ rw e ((fail-At cfg n s _ _ _ a).counted)
          | inr e ↦ rw e (elim (Bool-cases (room == 0)) [
            | inl z ↦ rw z ((fail-At cfg n s _ _ _ a).counted)
            | inr z ↦
                rw z
                  (elim (Option-cases
                    (release_received encoding ctx_err cfg
                      (received encoding ctx_err cfg s (take k (c ∷ p)))).1) [
                        | inr (err, g) ↦ rw g (t.counted)
                        | inl g ↦ rw g (
                            accept_input-Counted fuel _ (accepted + k) (drop k (c ∷ p))
                              (n + length (take k (c ∷ p))) (omega (arith, size, left, h)) t)
                      ])
          ])
        ]

  here : (s : StreamProcessor W) → Counted cfg s → At cfg s.outcome.received_bytes s
  here s c = record { counted = c; received_so_far = refl }

  admitted-Counted :
      (s : StreamProcessor W) (p : List ℕ)
      → Counted cfg s
      → Counted cfg (admitted encoding ctx_err cfg s p).0
  unfolding admitted
  admitted-Counted s p c =
      elim (Bool-cases (ltb (cfg.max_input_bytes - s.outcome.received_bytes) (length p))) [
        | inl e ↦ rw e ((fail-At cfg _ s _ _ _ (here s c)).counted)
        | inr e ↦ rw e (elim (Option-cases (ctx_err s.world)) [
          | inr (err, f) ↦ rw (f, admitted) ((fail-At cfg _ s _ err _ (here s c)).counted)
          | inl f ↦
              rw (f, admitted)
                (accept_input-Counted (length p) s 0 p s.outcome.received_bytes
                  (ground (arith, c.received_within)) (here s c))
        ])
      ]

  write_context-Counted :
      (s : StreamProcessor W) (p : List ℕ)
      → Counted cfg s
      → Counted cfg (write_context encoding ctx_err cfg s p).0
  unfolding write_context
  write_context-Counted s p c =
      Counted-if_accepted s.outcome.terminal _
        (with_error encoding ctx_err cfg (admitted encoding ctx_err cfg s p)) c
        (admitted-Counted s p c)

  release_all-At :
      (n : ℕ) (s : StreamProcessor W) → At cfg n s → At cfg n (release_all encoding ctx_err cfg s).0
  unfolding release_all
  release_all-At n s a = elim (Bool-cases (is_whole_response cfg.profile)) [
    | inr e ↦ rw e (release_pending-At n s.pending.size s true a)
    | inl e ↦ rw e (elim (Bool-cases (ltb cfg.max_unit_bytes s.pending.size)) [
      | inl f ↦ rw f (fail-At cfg n s _ _ _ a)
      | inr f ↦ rw f (validate_and_release-At encoding cfg n _ _ _ (same n s _ refl refl a))
    ])
  ]

  finish-At : (n : ℕ) (r : Result W) → At cfg n r.0 → At cfg n (finish encoding ctx_err cfg r).0
  finish-At n (s, some e) a = a
  finish-At n (s, none) a = observe-At cfg n _ _ (
      same-At cfg n s _ (record { same_received = refl; same_released = refl; same_sent = refl }) a)

  completed-Counted :
      (s : StreamProcessor W) → Counted cfg s → Counted cfg (completed encoding ctx_err cfg s).0
  unfolding completed
  completed-Counted s c = elim (Option-cases (ctx_err s.world)) [
    | inr (err, f) ↦ rw (f, completed) ((fail-At cfg _ s _ err _ (here s c)).counted)
    | inl f ↦ rw (f, completed) ((finish-At _ _ (release_all-At _ s (here s c))).counted)
  ]

  complete-Counted :
      (s : StreamProcessor W) → Counted cfg s → Counted cfg (complete encoding ctx_err cfg s).0
  unfolding complete
  complete-Counted s c = Counted-if s.outcome.terminal _ _ c (completed-Counted s c)

  abort-Counted :
      (s : StreamProcessor W) (cause : Option Error)
      → Counted cfg s
      → Counted cfg (abort encoding ctx_err cfg s cause).0
  unfolding abort
  abort-Counted s cause c =
      Counted-if s.outcome.terminal _ _ c
        ((fail-At cfg _ s _ (cause_or_eof encoding ctx_err cfg cause) _ (here s c)).counted)

  apply_op-Counted : (o : Op) (s : StreamProcessor W) → Counted cfg s → Counted cfg (apply_op o s)
  unfolding apply_op
  apply_op-Counted (write p) s c = write_context-Counted s p c
  apply_op-Counted complete_op s c = complete-Counted s c
  apply_op-Counted (abort_op cause) s c = abort-Counted s cause c

  -- From a processor whose counts are in order, after any sequence of writes, completions and aborts,
  -- whatever the guard and the transport do, the bytes received are within the input limit, those released within the output limit, and the
  -- released count is the number of bytes that the transport took.
  pub apply_ops-Counted :
      (ops : List Op) (s : StreamProcessor W) → Counted cfg s → Counted cfg (apply_ops ops s)
  unfolding apply_ops
  apply_ops-Counted [] s c = c
  apply_ops-Counted (o ∷ os) s c = apply_ops-Counted os (apply_op o s) (apply_op-Counted o s c)
