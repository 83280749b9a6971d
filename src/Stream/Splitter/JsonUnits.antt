-- ===== src/Stream/Splitter/JsonUnits.antt =====
-- The JSON scanner resumes exactly, and its units stay within the buffer and the limit.
use guardy.Base.{
  ℕ, zero, suc, ◌+◌, ◌-◌, ◌≤◌, ◌<◌, ◌≡◌, ◌⊎◌, inl, inr, refl, ap, ◌∙◌, Bool, true, false, arith,
}
use guardy.Stream.Buffer.{StreamBuffer, byte_at}
use guardy.Stream.Splitter.{
  FrameScanner, Framed, framed, Round, again, return, json_round, json_from, json, finish_json,
  visit, scan_json_byte, start_json, scan_round, started_round, Start, skip, stop, proceed,
}

-- What a round keeps: the place moves by one byte, and a complete unit is not empty and not above
-- the limit.
abbrev pub InUnit : FrameScanner → ℕ → Type 0
InUnit f m = f.complete ≡ true → (0 < f.offset) × (f.offset ≤ m)

offset-scan : (f : FrameScanner) (c : ℕ) → (scan_json_byte f c).offset ≡ f.offset
unfolding scan_json_byte
offset-scan f c = ground arith

scan-again :
    (f g : FrameScanner) (c m : ℕ)
    → scan_round f c m ≡ again g
    → 0 < f.offset
    → f.offset ≤ m
    → (g.offset ≡ f.offset) × InUnit g m
unfolding scan_round
scan-again f g c m e h k = (ground (arith, offset-scan f c), λ d. ground (arith, offset-scan f c))

-- A round that goes on moves by one byte and keeps the unit within the limit.
started-again :
    (f g : FrameScanner) (c m : ℕ)
    → started_round f (start_json f c m) c m ≡ again g
    → f.complete ≡ false
    → 0 < f.offset
    → f.offset ≤ m
    → (g.offset ≡ f.offset) × InUnit g m
unfolding started_round start_json
started-again f g c m e i h k =
    ground (arith, scan-again f g c m, scan-again (record f { started = true }) g c m)

pub again-round :
    (f g : FrameScanner) (c m : ℕ)
    → json_round f c m ≡ again g
    → InUnit f m
    → (g.offset ≡ f.offset + 1) × InUnit g m
unfolding json_round
again-round f g c m e i = ground (arith, started-again (visit f) g c m)

scan-return : (f g : FrameScanner) (c m n : ℕ) → scan_round f c m ≡ return g (framed n) → ⊥
unfolding scan_round
scan-return f g c m n e = ground arith

started-return :
    (f g : FrameScanner) (s : Start) (c m n : ℕ) → started_round f s c m ≡ return g (framed n) → ⊥
unfolding started_round
started-return f g skip c m n e = cc
started-return f g (stop x) c m n e = cc
started-return f g (proceed h) c m n e = scan-return h g c m n e

-- A round that returns a unit returns what was read before it.
pub return-round :
    (f g : FrameScanner) (c m n : ℕ)
    → json_round f c m ≡ return g (framed n)
    → (n ≡ f.offset) × (f.complete ≡ true)
unfolding json_round
return-round f g c m n e =
    ground (arith, started-return (visit f) g (start_json (visit f) c m) c m n)

pub Round-cases :
    (r : Round)
    → ((g : FrameScanner) × (r ≡ again g)) ⊎ ((g : FrameScanner) × (x : Framed) × (r ≡ return g x))
Round-cases (again g) = inl (g, refl)
Round-cases (return g x) = inr (g, x, refl)

pub json_from-again :
    (k : ℕ) (f g : FrameScanner) (b : StreamBuffer) (m : ℕ) (final : Bool)
    → json_round f (byte_at b f.offset) m ≡ again g
    → json_from (suc k) f b m final ≡ json_from k g b m final
unfolding json_from
json_from-again k f g b m final e = rw (e, json_from)

pub json_from-return :
    (k : ℕ) (f g : FrameScanner) (r : Framed) (b : StreamBuffer) (m : ℕ) (final : Bool)
    → json_round f (byte_at b f.offset) m ≡ return g r
    → json_from (suc k) f b m final ≡ (g, r)
unfolding json_from
json_from-return k f g r b m final e = rw (e, json_from)

json_from-bounds :
    (k : ℕ) (f : FrameScanner) (b : StreamBuffer) (m n : ℕ) (final : Bool)
    → k + f.offset ≡ b.size
    → InUnit f m
    → (json_from k f b m final).1 ≡ framed n
    → (n ≤ b.size) × (n ≤ m)
json_from-bounds zero f b m n final e i h =
    unfold json_from finish_json in (ground arith, ground arith)
json_from-bounds (suc k) f b m n final e i h =
    elim (Round-cases (json_round f (byte_at b f.offset) m)) [
      | inl (g, r) ↦
          let (moved, kept) = again-round f g (byte_at b f.offset) m r i in
          json_from-bounds k g b m n final (omega arith) kept
            (rw (json_from-again k f g b m final r) at h)
      | inr (g, x, r) ↦
          let returned : x ≡ framed n = rw (json_from-return k f g x b m final r) at h in
          let (at_place, done) =
            return-round f g (byte_at b f.offset) m n (r ∙ ap (return g) returned) in
          ground arith
    ]

-- From a place within the buffer, a unit that the JSON scanner returns lies within the buffer and within the limit.
json-bounds :
    (f : FrameScanner) (b : StreamBuffer) (m n : ℕ) (final : Bool)
    → f.offset ≤ b.size
    → InUnit f m
    → (json f b m final).1 ≡ framed n
    → (n ≤ b.size) × (n ≤ m)
unfolding json
json-bounds f b m n final h i e =
    json_from-bounds (b.size - f.offset) f b m n final (omega arith) i e
