-- ===== src/Release/Drained.antt =====
-- A completion without an error leaves no pending byte: at the end every unit is found, and as many
-- rounds as bytes are enough.
use guardy.Base.{
  ℕ, zero, suc, ◌-◌, ◌≤◌, min, ltb, ◌==◌, Bool, true, false, ◌≡◌, inl, inr, refl, ap, List, Option,
  none, some, is_some, length, Bool-cases, Option-cases, arith,
}
use guardy.Decision.{Decision}
use guardy.Fault.Tree.{Error}
use guardy.Route.{ℤ}
use guardy.Stream.Buffer.{StreamBuffer, consume, prefix}
use guardy.Stream.Splitter.{FrameScanner, Framed, newline, newline_from, visit}
use guardy.Release.{
  Encoding, StreamConfig, StreamProcessor, StreamStage, StreamCategory, Result, is_validated_units,
  fail, observe, observe_outcome,
}
use guardy.Release.Units.{
  NextUnit, unit, no_unit, next_unit, json_unit, newline_unit, partial_unit, awaited, rune_boundary,
}
use guardy.Release.Approval.{
  Approval, refused, approved, valid_count, write_error, settle_write, settle, validate_and_release,
}
use guardy.Release.Steps.{release_unit, next, after_unit, release_round, release_pending, unit_read}

abbrev is_unit_zero : NextUnit → Bool
is_unit_zero (unit n) = n == 0
is_unit_zero (no_unit c e) = false

newline_from-found :
    (k : ℕ) (f : FrameScanner) (b : StreamBuffer)
    → (b.size == 0) ≡ false
    → ((newline_from k f b true).1 == 0) ≡ false
unfolding newline_from
newline_from-found zero f b h = h
newline_from-found (suc k) f b h = ground (arith, newline_from-found k (visit f) b h)

json_unit-found : (r : Framed) → is_unit_zero (json_unit r true) ≡ false
unfolding json_unit
json_unit-found r = ground arith

newline_unit-found :
    (n size m : ℕ) → (n == 0) ≡ false → is_unit_zero (newline_unit n size m) ≡ false
unfolding newline_unit
newline_unit-found n size m h = ground arith

module _ {W : Type 0} (encoding : Encoding) (cfg : StreamConfig W) where
  awaited-found : (u : NextUnit) → is_unit_zero (awaited encoding u true) ≡ false
  awaited-found u = ground arith

  partial_unit-found :
      (b : StreamBuffer) (m : ℕ) → is_unit_zero (partial_unit encoding b m true) ≡ false
  unfolding partial_unit
  partial_unit-found b m = elim (Bool-cases (ltb b.size m)) [
    | inl e ↦ rw e (awaited-found (rune_boundary encoding (min b.size m) b (min b.size m) 0))
    | inr e ↦ rw e (awaited-found (rune_boundary encoding (min b.size m) b (min b.size m) 0))
  ]

  next_unit-found :
      (f : FrameScanner) (b : StreamBuffer)
      → (b.size == 0) ≡ false
      → is_unit_zero (next_unit encoding cfg f b true).1 ≡ false
  unfolding next_unit newline
  next_unit-found f b h = elim (Bool-cases (is_validated_units cfg.profile)) [
    | inl e ↦ rw e (elim (Bool-cases cfg.json_values) [
      | inl j ↦ rw j (json_unit-found _)
      | inr j ↦ rw j (newline_unit-found _ b.size cfg.max_unit_bytes (newline_from-found _ f b h))
    ])
    | inr e ↦ rw e (partial_unit-found b cfg.max_unit_bytes)
  ]

  -- A result without an error has the pending bytes of `s`.
  abbrev Keeps : StreamProcessor W → Result W → Type 0
  Keeps s (t, e) = is_some e ≡ false → t.pending ≡ s.pending

  failed-Keeps :
      (s t : StreamProcessor W) (c : StreamCategory) (e : Error) (d : Decision)
      → Keeps s (fail cfg t c e d)
  unfolding fail
  failed-Keeps s t c e d = λ h. cc

  observe-pending :
      (s : StreamProcessor W) (stage : StreamStage) → (observe cfg s stage).pending ≡ s.pending
  unfolding observe observe_outcome
  observe-pending s stage = elim (Option-cases cfg.observer) [
    | inl e ↦ rw (e, observe_outcome) refl
    | inr (o, e) ↦ rw (e, observe_outcome) refl
  ]

  settle_write-Keeps :
      (s : StreamProcessor W) (value : List ℕ) (d : Decision) (stage : StreamStage) (count : ℤ)
      (err : Option Error)
      → Keeps s (settle_write encoding cfg s value d stage count err)
  unfolding settle_write
  settle_write-Keeps s value d stage count err =
      elim (Option-cases (valid_count count (length value))) [
        | inl e ↦ rw (e, settle_write) (failed-Keeps s s _ _ d)
        | inr (k, e) ↦
            rw (e, settle_write)
              (elim (Option-cases (write_error err k (length value))) [
                | inl w ↦ rw (w, settle_write) (λ h. observe-pending _ stage)
                | inr (f, w) ↦ rw (w, settle_write) (failed-Keeps s _ _ f d)
              ])
      ]

  settle-Keeps :
      (s : StreamProcessor W) (stage : StreamStage) (r : Approval × W)
      → Keeps s (settle encoding cfg s stage r)
  unfolding settle
  settle-Keeps s stage (refused c e d, w) = failed-Keeps s _ c e d
  settle-Keeps s stage (approved value d, w) =
      let ((count, err), v) = cfg.transport w value in settle_write-Keeps _ value d stage count err

module _ {W : Type 0} (encoding : Encoding) (ctx_err : W → Option Error)
    (cfg : StreamConfig W) where
  prefix-size : (b : StreamBuffer) (n : ℕ) → (prefix b n).1.size ≡ b.size
  unfolding prefix
  prefix-size b n = ground arith

  consume-size : (b : StreamBuffer) (n : ℕ) → (consume b n).size ≡ b.size - n
  unfolding consume
  consume-size b n = refl

  abbrev Drained : Result W → Type 0
  Drained (t, e) = is_some e ≡ false → t.pending.size ≡ 0

  -- The bytes left for the rounds that are left.
  abbrev DrainsWithin : ℕ → (StreamProcessor W → Result W) → Type 0
  DrainsWithin fuel more = (t : StreamProcessor W) → t.pending.size ≤ fuel → Drained (more t)

  after_unit-Drained :
      (fuel k : ℕ) (s : StreamProcessor W) (more : StreamProcessor W → Result W) (r : Result W)
      → DrainsWithin fuel more
      → s.pending.size - k ≤ fuel
      → Keeps encoding cfg s r
      → Drained (after_unit encoding ctx_err cfg more k r)
  after_unit-Drained fuel k s more (t, some e) h l q = λ f. cc
  after_unit-Drained fuel k s more (t, none) h l q =
      h _ (omega (arith, consume-size t.pending k, ap (λ b. b.size) (q refl), l))

  release_round-Drained :
      (fuel : ℕ) (more : StreamProcessor W → Result W) (r : StreamProcessor W × NextUnit)
      → DrainsWithin fuel more
      → r.0.pending.size ≤ suc fuel
      → is_unit_zero r.1 ≡ false
      → Drained (release_round encoding ctx_err cfg more r)
  unfolding release_round release_unit fail validate_and_release
  release_round-Drained fuel more (s, no_unit c e) h l z = λ f. cc
  release_round-Drained fuel more (s, unit k) h l z =
      rw z (elim (Bool-cases (ltb cfg.max_unit_bytes k)) [
        | inl g ↦ rw g (λ f. cc)
        | inr g ↦ rw g (
            after_unit-Drained fuel k (unit_read encoding ctx_err cfg s k) more _ h
              (ground (arith, prefix-size s.pending k))
              (settle-Keeps encoding cfg (unit_read encoding ctx_err cfg s k) _ _))
      ])

  -- Releasing at the end leaves no byte pending unless it fails, when it has as many rounds as there
  -- are pending bytes.
  pub release_pending-Drained :
      (fuel : ℕ) (s : StreamProcessor W)
      → s.pending.size ≤ fuel
      → let r = release_pending encoding ctx_err cfg fuel s true in
        is_some r.1 ≡ false → r.0.pending.size ≡ 0
  unfolding release_pending
  release_pending-Drained zero s l = λ e. omega arith
  release_pending-Drained (suc fuel) s l = elim (Bool-cases (s.pending.size == 0)) [
    | inl z ↦ rw z (λ e. ground arith)
    | inr z ↦ rw z (
        release_round-Drained fuel _ (next encoding ctx_err cfg s true)
          (λ t k. release_pending-Drained fuel t k) l (next_unit-found encoding cfg _ _ z))
  ]
