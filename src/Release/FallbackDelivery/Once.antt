-- ===== src/Release/FallbackDelivery/Once.antt =====
-- The fallback is delivered at most once, within the output limit, and leaves the outcome alone.
use guardy.Base.{
  ℕ, ◌+◌, ◌≤◌, Bool, true, false, not, ◌||◌, ◌≡◌, inl, inr, refl, [], some, if◌then◌else◌, length,
  Bool-cases, arith,
}
use guardy.Release.{Encoding, StreamConfig, StreamProcessor}
use guardy.Release.FallbackDelivery.{
  FallbackResult, unavailable, is_blocked, attempted, fallback_by, deliver_fallback,
}
use guardy.Release.FallbackDelivery.Attempt.{Tried, fallback_by-Tried}

-- Before an attempt no fallback was sent, and all that was sent is within the output limit.
pub record Sparing {W : Type 0} (max_output_bytes : ℕ) (s : StreamProcessor W) : Type 0 where
  pub unsent : s.fallback_attempted ≡ false → s.fallback_sent ≡ []
  pub total : s.outcome.released_bytes + length s.fallback_sent ≤ max_output_bytes

module _ {W : Type 0} (encoding : Encoding) (cfg : StreamConfig W) where
  abbrev closed : StreamProcessor W → Bool
  closed s = not (is_blocked s.outcome.category) || s.fallback_attempted

  result_if :
      (b : Bool) (x y : FallbackResult W)
      → ((b ≡ true → (if b then x else y) ≡ x) × (b ≡ false → (if b then x else y) ≡ y))
  result_if true x y = (λ e. refl, λ e. cc)
  result_if false x y = (λ e. cc, λ e. refl)

  deliver_fallback-closed :
      (s : StreamProcessor W)
      → closed s ≡ true
      → deliver_fallback encoding cfg s ≡ (s, s.outcome, some unavailable)
  unfolding deliver_fallback
  deliver_fallback-closed s e = (result_if (closed s) _ _).0 e

  deliver_fallback-open :
      (s : StreamProcessor W)
      → closed s ≡ false
      → deliver_fallback encoding cfg s
        ≡ fallback_by encoding cfg cfg.fallback (attempted encoding cfg s)
  unfolding deliver_fallback
  deliver_fallback-open s e = (result_if (closed s) _ _).1 e

  attempted-Tried :
      (s : StreamProcessor W)
      → s.fallback_sent ≡ []
      → Sparing cfg.max_output_bytes s
      → Tried cfg.max_output_bytes s (attempted encoding cfg s)
  attempted-Tried s z h = record {
    noted = refl;
    same_outcome = refl;
    same_sent = refl;
    within = h.total;
  }

  -- For a processor that sent no fallback before an attempt and whose bytes sent are within the output
  -- limit: a fallback is attempted at most once: a second call is refused and changes nothing. The outcome
  -- of the stream and what was sent of it stay, and the stream and its fallback together stay within
  -- the output limit.
  pub deliver_fallback-once :
      (s : StreamProcessor W)
      → Sparing cfg.max_output_bytes s
      → let t = (deliver_fallback encoding cfg s).0 in
        (deliver_fallback encoding cfg t ≡ (t, t.outcome, some unavailable))
        × (t.outcome ≡ s.outcome)
        × (t.sent ≡ s.sent)
        × (s.outcome.released_bytes + length t.fallback_sent ≤ cfg.max_output_bytes)
  deliver_fallback-once s h = elim (Bool-cases (closed s)) [
    | inl e ↦ rw (deliver_fallback-closed s e) (deliver_fallback-closed s e, refl, refl, h.total)
    | inr e ↦
        let z = h.unsent (ground arith) in
        let t =
          fallback_by-Tried encoding cfg s cfg.fallback (attempted encoding cfg s) z
            (attempted-Tried s z h) in
        rw (deliver_fallback-open s e) (
          deliver_fallback-closed _ (ground (arith, t.noted)),
          t.same_outcome,
          t.same_sent,
          t.within,
        )
  ]
