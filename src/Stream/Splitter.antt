-- ===== src/Stream/Splitter.antt =====
-- stream_splitter.go and `newlineUnitBoundary` of release.go: where a release unit ends. The scanner
-- keeps its place between calls, and each loop runs once for each byte from there to the end of the
-- buffer, so the bytes left are its fuel.
pub mod Resume
pub mod JsonUnits
pub mod JsonResume
use guardy.Base.{
  ℕ, zero, suc, ◌+◌, ◌-◌, ltb, leb, ◌==◌, Bool, true, false, not, ◌&&◌, ◌||◌, List, [], ◌∷◌,
  if◌then◌else◌, length,
}
use guardy.Stream.Buffer.{StreamBuffer, byte_at, add_u64}

pub record FrameScanner : Type 0 where
  pub offset : ℕ
  pub objects : ℕ
  pub arrays : ℕ
  pub started : Bool
  pub in_string : Bool
  pub escape : Bool
  pub complete : Bool
  pub invalid : Bool
  pub visited : ℕ

-- The scanner at the start of a unit, after `visited` bytes in all.
abbrev pub fresh : ℕ → FrameScanner
fresh visited = record {
  offset = 0;
  objects = 0;
  arrays = 0;
  started = false;
  in_string = false;
  escape = false;
  complete = false;
  invalid = false;
  visited = visited;
}

unfoldable pub reset : FrameScanner → FrameScanner
reset f = fresh f.visited

pub data FrameError : Type 0 where
  unit_limit invalid_unit : FrameError

-- The length of the unit, 0 while it is not known, or an error.
pub data Framed : Type 0 where
  framed : ℕ → Framed
  failed : FrameError → Framed

abbrev pub visit : FrameScanner → FrameScanner
visit f = record f { visited = add_u64 f.visited 1; offset = f.offset + 1 }

-- The loop of `newline`; the number is that of the bytes left.
unfoldable pub newline_from : ℕ → FrameScanner → StreamBuffer → Bool → FrameScanner × ℕ
newline_from zero f b final = (f, if final then b.size else 0)
newline_from (suc k) f b final =
    let c = byte_at b f.offset in
    let rest = newline_from k (visit f) b final in
    if c == b'\n' then (visit f, f.offset + 1) else rest

unfoldable pub newline : FrameScanner → StreamBuffer → Bool → FrameScanner × ℕ
newline f b final = newline_from (b.size - f.offset) f b final

-- `newlineUnitBoundary`, with the loop's index as an argument.
unfoldable pub boundary_from : ℕ → List ℕ → Bool → ℕ
boundary_from i [] final = if final then i else 0
boundary_from i (c ∷ p) final =
    let rest = boundary_from (i + 1) p final in if c == b'\n' then i + 1 else rest

unfoldable pub newline_unit_boundary : List ℕ → Bool → ℕ
newline_unit_boundary p final = boundary_from 0 p final

unfoldable pub is_json_space : ℕ → Bool
is_json_space c = c == b' ' || c == b'\t' || c == b'\n' || c == b'\r'

abbrev pub scan_in_string : FrameScanner → ℕ → FrameScanner
scan_in_string f c =
    if f.escape
    then record f { escape = false }
    else if c == b'\\'
    then record f { escape = true }
    else if c == b'"'
    then record f { in_string = false }
    else f

-- The last line of `scanJSONByte`.
abbrev pub set_complete : FrameScanner → FrameScanner
set_complete f = record f { complete = f.objects == 0 && f.arrays == 0 }

unfoldable pub scan_json_byte : FrameScanner → ℕ → FrameScanner
scan_json_byte f c =
    if f.invalid
    then f
    else if f.in_string
    then scan_in_string f c
    else if c == b'"'
    then set_complete (record f { in_string = true })
    else if c == b'{'
    then set_complete (record f { objects = f.objects + 1 })
    else if c == b'['
    then set_complete (record f { arrays = f.arrays + 1 })
    else if c == b'}'
    then (if f.objects == 0
        then record f { invalid = true }
        else set_complete (record f { objects = f.objects - 1 }))
    else if c == b']'
    then (if f.arrays == 0
        then record f { invalid = true }
        else set_complete (record f { arrays = f.arrays - 1 }))
    else set_complete f

-- `startJSON`: skip the byte, go on with it, or stop.
pub data Start : Type 0 where
  skip : Start
  proceed : FrameScanner → Start
  stop : FrameError → Start

unfoldable pub start_json : FrameScanner → ℕ → ℕ → Start
start_json f c max_bytes =
    if f.started
    then proceed f
    else if is_json_space c
    then (if leb max_bytes f.offset then stop unit_limit else skip)
    else if not (c == b'{') && not (c == b'[')
    then stop invalid_unit
    else proceed (record f { started = true })

-- One round of the loop of `json`: go on with a scanner, or return.
pub data Round : Type 0 where
  again : FrameScanner → Round
  return : FrameScanner → Framed → Round

-- The round from `scanJSONByte` on.
unfoldable pub scan_round : FrameScanner → ℕ → ℕ → Round
scan_round f c max_bytes =
    let g = scan_json_byte f c in
    if g.invalid
    then return g (failed invalid_unit)
    else if not g.complete && leb max_bytes g.offset
    then return g (failed unit_limit)
    else again g

unfoldable pub started_round : FrameScanner → Start → ℕ → ℕ → Round
started_round f skip c max_bytes = again f
started_round f (stop e) c max_bytes = return f (failed e)
started_round f (proceed g) c max_bytes = scan_round g c max_bytes

unfoldable pub json_round : FrameScanner → ℕ → ℕ → Round
json_round f c max_bytes =
    if f.complete && not (is_json_space c)
    then return (record f { visited = add_u64 f.visited 1 }) (framed f.offset)
    else if ltb max_bytes (f.offset + 1)
    then return (visit f) (failed unit_limit)
    else if f.complete
    then again (visit f)
    else started_round (visit f) (start_json (visit f) c max_bytes) c max_bytes

unfoldable pub finish_json : FrameScanner → ℕ → ℕ → Bool → Framed
finish_json f size max_bytes final =
    if f.complete
    then (if ltb max_bytes f.offset
        then failed unit_limit
        else if final
        then framed f.offset
        else framed 0)
    else if leb max_bytes size
    then failed unit_limit
    else framed 0

unfoldable pub json_from : ℕ → FrameScanner → StreamBuffer → ℕ → Bool → FrameScanner × Framed
json_from zero f b max_bytes final = (f, finish_json f b.size max_bytes final)
json_from (suc k) f b max_bytes final = elim (json_round f (byte_at b f.offset) max_bytes) [
  | again g ↦ json_from k g b max_bytes final
  | return g r ↦ (g, r)
]

unfoldable pub json : FrameScanner → StreamBuffer → ℕ → Bool → FrameScanner × Framed
json f b max_bytes final = json_from (b.size - f.offset) f b max_bytes final
