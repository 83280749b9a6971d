-- ===== src/Release/Whole.antt =====
-- A whole response is withheld until the stream has ended.
use guardy.Base.{
  ℕ, zero, suc, ◌+◌, ◌-◌, min, ltb, leb, ◌==◌, Bool, true, false, ◌&&◌, ◌≡◌, ◌⊎◌, inl, inr, List,
  [], ◌∷◌, Option, none, if◌then◌else◌, length, take, drop, Bool-cases, Option-cases,
}
use guardy.Decision.{Decision}
use guardy.Fault.Tree.{Error}
use guardy.Release.{
  Encoding, StreamConfig, StreamProcessor, StreamCategory, is_whole_response, fail,
}
use guardy.Release.Steps.{
  received, release_received, accept_input, admitted, with_error, write_context, budget,
  counts_lines, StreamError,
}
use guardy.Release.Reach.{Op, write, complete_op, abort_op, apply_op, apply_ops}
use guardy.Release.Terminal.{fail-terminal, complete-terminal}

-- Nothing was sent, or the stream has ended.
abbrev pub Withheld : {W : Type 0} → StreamProcessor W → Type 0
Withheld s = (s.outcome.terminal ≡ true) ⊎ (s.sent ≡ [])

module _ {W : Type 0} (encoding : Encoding) (ctx_err : W → Option Error)
    (cfg : StreamConfig W) where
  fail-Withheld :
      (s : StreamProcessor W) (c : StreamCategory) (e : Error) (d : Decision)
      → Withheld (fail cfg s c e d).0
  fail-Withheld s c e d = inl (fail-terminal cfg s c e d)

  release_received-Withheld :
      (s : StreamProcessor W)
      → is_whole_response cfg.profile ≡ true
      → Withheld s
      → Withheld (release_received encoding ctx_err cfg s).0
  release_received-Withheld s e h = rw e h

  accept_input-Withheld :
      (fuel : ℕ) (s : StreamProcessor W) (accepted : ℕ) (p : List ℕ)
      → is_whole_response cfg.profile ≡ true
      → Withheld s
      → Withheld (accept_input encoding ctx_err cfg fuel s accepted p).0
  unfolding accept_input
  accept_input-Withheld zero s accepted p e h = h
  accept_input-Withheld (suc fuel) s accepted [] e h = h
  accept_input-Withheld (suc fuel) s accepted (c ∷ p) e h =
      let room = budget encoding ctx_err cfg - s.pending.size in
      let k = min room (suc (length p)) in
      elim (Bool-cases
        (counts_lines encoding ctx_err cfg && leb cfg.max_unit_bytes s.pending.size)) [
          | inl f ↦ rw f (fail-Withheld s _ _ _)
          | inr f ↦ rw f (elim (Bool-cases (room == 0)) [
            | inl z ↦ rw z (fail-Withheld s _ _ _)
            | inr z ↦
                rw z
                  (elim (Option-cases
                    (release_received encoding ctx_err cfg
                      (received encoding ctx_err cfg s (take k (c ∷ p)))).1) [
                        | inr (err, g) ↦ rw g (release_received-Withheld _ e h)
                        | inl g ↦ rw g (
                            accept_input-Withheld fuel _ (accepted + k) (drop k (c ∷ p)) e
                              (release_received-Withheld _ e h))
                      ])
          ])
        ]

  admitted-Withheld :
      (s : StreamProcessor W) (p : List ℕ)
      → is_whole_response cfg.profile ≡ true
      → Withheld s
      → Withheld (admitted encoding ctx_err cfg s p).0
  unfolding admitted
  admitted-Withheld s p e h =
      elim (Bool-cases (ltb (cfg.max_input_bytes - s.outcome.received_bytes) (length p))) [
        | inl f ↦ rw f (fail-Withheld s _ _ _)
        | inr f ↦ rw f (elim (Option-cases (ctx_err s.world)) [
          | inr (err, g) ↦ rw (g, admitted) (fail-Withheld s _ err _)
          | inl g ↦ rw (g, admitted) (accept_input-Withheld (length p) s 0 p e h)
        ])
      ]

  Withheld-if :
      (b : Bool) (x y : StreamProcessor W × ℕ × StreamError)
      → Withheld x.0
      → Withheld y.0
      → Withheld (if b then x else y).0
  Withheld-if true x y h k = h
  Withheld-if false x y h k = k

  apply_op-Withheld :
      (o : Op) (s : StreamProcessor W)
      → is_whole_response cfg.profile ≡ true
      → Withheld s
      → Withheld (apply_op encoding ctx_err cfg o s)
  unfolding apply_op write_context
  apply_op-Withheld (write p) s e h =
      Withheld-if s.outcome.terminal _
        (with_error encoding ctx_err cfg (admitted encoding ctx_err cfg s p)) h
        (admitted-Withheld s p e h)
  apply_op-Withheld complete_op s e h = inl (complete-terminal encoding ctx_err cfg s none).0
  apply_op-Withheld (abort_op cause) s e h = inl (complete-terminal encoding ctx_err cfg s cause).1

  -- With a whole response, from a processor that has ended or sent nothing, after any sequence of
  -- operations the stream has ended or still nothing of it was sent.
  pub apply_ops-Withheld :
      (ops : List Op) (s : StreamProcessor W)
      → is_whole_response cfg.profile ≡ true
      → Withheld s
      → Withheld (apply_ops encoding ctx_err cfg ops s)
  unfolding apply_ops
  apply_ops-Withheld [] s e h = h
  apply_ops-Withheld (o ∷ os) s e h =
      apply_ops-Withheld os (apply_op encoding ctx_err cfg o s) e (apply_op-Withheld o s e h)
