-- ===== src/Release/Units.antt =====
-- release.go: the next unit of the pending bytes, and the shape that a unit must have.
use guardy.Base.{
  ℕ, zero, suc, ◌+◌, ◌-◌, min, ltb, leb, ◌==◌, Bool, true, false, not, ◌&&◌, ◌||◌, List, [], ◌∷◌,
  if◌then◌else◌, length,
}
use guardy.Base.Index.{tabulate}
use guardy.Fault.Tree.{Error, leaf, joined, cons, nil}
use guardy.Stream.Buffer.{StreamBuffer, byte_at}
use guardy.Stream.Splitter.{
  FrameScanner, FrameError, unit_limit, invalid_unit, Framed, framed, failed, newline, json,
  is_json_space, newline_unit_boundary,
}
use guardy.Release.Utf8.{valid_utf8, rune_size, full_rune}
use guardy.Release.{
  Encoding, StreamConfig, StreamCategory, stream_limit, stream_malformed, stream_incomplete,
  is_validated_units,
}

-- The length of the next unit, 0 while it is not known, or a failure.
pub data NextUnit : Type 0 where
  unit : ℕ → NextUnit
  no_unit : StreamCategory → Error → NextUnit

abbrev pub unit_limit_error : Error
unit_limit_error = leaf "guardy: stream unit exceeds limit"

abbrev pub invalid_unit_error : Error
invalid_unit_error = leaf "guardy: invalid stream unit"

-- `framingCategory` with its error.
abbrev pub framing_failure : FrameError → NextUnit
framing_failure unit_limit = no_unit stream_limit unit_limit_error
framing_failure invalid_unit = no_unit stream_malformed invalid_unit_error

-- `nextJSONUnit`: at the end a unit must be there.
unfoldable pub json_unit : Framed → Bool → NextUnit
json_unit (failed e) final = framing_failure e
json_unit (framed n) final =
    if n == 0 && final
    then no_unit stream_incomplete
        (joined (cons (leaf "guardy: incomplete stream unit") (cons (leaf "unexpected EOF") nil)))
    else unit n

unfoldable pub newline_unit : ℕ → ℕ → ℕ → NextUnit
newline_unit n size max_unit_bytes =
    if n == 0 && ltb max_unit_bytes size then no_unit stream_limit unit_limit_error else unit n

abbrev pub invalid_rune : NextUnit
invalid_rune = no_unit stream_incomplete (leaf "guardy: invalid UTF-8 unit")

module _ (encoding : Encoding) where
  -- The loop over the runes of the first `n` bytes, each of which takes a byte at least, so that as
  -- many rounds as bytes are enough. A rune that is cut off ends the unit before it.
  unfoldable pub rune_boundary : ℕ → StreamBuffer → ℕ → ℕ → NextUnit
  rune_boundary zero b n offset = unit n
  rune_boundary (suc fuel) b n offset =
      let rune = tabulate (min 4 (n - offset)) (λ i. byte_at b (offset + i)) in
      let size = rune_size rune in
      let rest = rune_boundary fuel b n (offset + size) in
      if leb n offset
      then unit n
      else if not (full_rune rune)
      then unit offset
      else if size == 1 && leb 128 (byte_at b offset)
      then invalid_rune
      else rest

  -- A unit without a whole rune is awaited, and is invalid at the end.
  abbrev pub awaited : NextUnit → Bool → NextUnit
  awaited (no_unit c e) final = no_unit c e
  awaited (unit n) final = if n == 0 && final then invalid_rune else unit n

  unfoldable pub partial_unit : StreamBuffer → ℕ → Bool → NextUnit
  partial_unit b max_unit_bytes final =
      let n = min b.size max_unit_bytes in
      if ltb b.size max_unit_bytes && not final
      then unit 0
      else awaited (rune_boundary n b n 0) final

  -- The first byte that is no space opens an object or an array.
  unfoldable pub opens_json : List ℕ → Bool
  opens_json [] = false
  opens_json (c ∷ cs) = if is_json_space c then opens_json cs else c == b'{' || c == b'['

  module _ {W : Type 0} (cfg : StreamConfig W) where
    unfoldable pub next_unit : FrameScanner → StreamBuffer → Bool → FrameScanner × NextUnit
    next_unit f b final =
        let (g, framed_unit) = json f b cfg.max_unit_bytes final in
        let (h, n) = newline f b final in
        if is_validated_units cfg.profile && cfg.json_values
        then (g, json_unit framed_unit final)
        else if is_validated_units cfg.profile
        then (h, newline_unit n b.size cfg.max_unit_bytes)
        else (f, partial_unit b cfg.max_unit_bytes final)

    unfoldable pub valid_representation : List ℕ → Bool
    valid_representation value =
        if not (valid_utf8 value)
        then false
        else if cfg.json_values
        then encoding.valid_json value && (not (is_validated_units cfg.profile) || opens_json value)
        else not (is_validated_units cfg.profile)
          || newline_unit_boundary value true == length value
