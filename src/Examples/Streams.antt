-- ===== src/Examples/Streams.antt =====
-- A ring that wraps, frames cut by chunks, and the theorems at them.
use guardy.Base.{true, false, ◌≡◌, inr, refl, [], ◌∷◌, ◌++◌, arith}
use guardy.Base.Index.{tabulate}
use guardy.Stream.Buffer.{StreamBuffer, append, byte_at}
use guardy.Stream.Buffer.Contents.{contents, IsValid}
use guardy.Stream.Buffer.Append.{append-contents}
use guardy.Stream.Splitter.{
  fresh, newline, newline_from, newline_unit_boundary, json, json_from, json_round, started_round,
  start_json, is_json_space, scan_round, scan_json_byte, finish_json,
}
use guardy.Stream.Splitter.Resume.{Scanned, newline_resumes}
use guardy.Stream.Splitter.JsonResume.{json_resumes}

-- Four places, of which the two pending bytes take the last and the first.
abbrev wrapped_ring : StreamBuffer
wrapped_ring = record { bytes = 11 ∷ 0 ∷ 0 ∷ 10 ∷ []; head = 3; size = 2; copied = 0 }

wrapped_ring-IsValid : IsValid 8 wrapped_ring
wrapped_ring-IsValid = record {
  fits = omega arith;
  bounded = omega arith;
  head_in = inr (omega arith);
}

wrapped_ring_holds : contents wrapped_ring ≡ 10 ∷ 11 ∷ []
unfolding byte_at tabulate
wrapped_ring_holds = refl

append-contents_example :
    (contents (append wrapped_ring (1 ∷ 2 ∷ 3 ∷ []) 8) ≡ contents wrapped_ring ++ 1 ∷ 2 ∷ 3 ∷ [])
    × IsValid 8 (append wrapped_ring (1 ∷ 2 ∷ 3 ∷ []) 8)
append-contents_example =
    append-contents 8 wrapped_ring (1 ∷ 2 ∷ 3 ∷ []) wrapped_ring-IsValid (omega arith)

-- `a`, and then `a`, newline, `b`.
abbrev half_line : StreamBuffer
half_line = record { bytes = 97 ∷ []; head = 0; size = 1; copied = 0 }

abbrev line : StreamBuffer
line = record { bytes = 97 ∷ 10 ∷ 98 ∷ 0 ∷ []; head = 0; size = 3; copied = 0 }

fresh-Scanned : Scanned (fresh 0) (contents line)
fresh-Scanned = record { within = omega arith; clean = tt }

half-Scanned : Scanned (fresh 0) (contents half_line)
half-Scanned = record { within = omega arith; clean = tt }

newline_resumes_example :
    (newline (newline (fresh 0) half_line false).0 line true).1
    ≡ newline_unit_boundary (contents line) true
newline_resumes_example =
    newline_resumes (fresh 0) half_line line (10 ∷ 98 ∷ []) true half-Scanned
      (unfold newline newline_from byte_at in refl) (unfold byte_at tabulate in refl)

-- `{`, and then `{}` with a space.
abbrev half_object : StreamBuffer
half_object = record { bytes = b'{' ∷ []; head = 0; size = 1; copied = 0 }

abbrev object : StreamBuffer
object = record { bytes = b'{' ∷ b'}' ∷ b' ' ∷ []; head = 0; size = 3; copied = 0 }

json_resumes_example :
    json (json (fresh 0) half_object 8 false).0 object 8 true ≡ json (fresh 0) object 8 true
json_resumes_example =
    json_resumes (fresh 0) half_object object (b'}' ∷ b' ' ∷ []) 8 true (omega arith) (λ e. cc)
      (unfold json json_from json_round started_round start_json is_json_space scan_round
          scan_json_byte finish_json byte_at in
        refl)
      (unfold byte_at tabulate in refl)
