-- ===== src/Ext/Spans.antt =====
-- ext/spans.go: the replacement of ranges of a text. A range out of the text, or before the last one,
-- is a slice out of range, which panics.
use guardy.Base.{
  ℕ, ◌-◌, ◌≤◌, leb, Bool, true, ◌&&◌, ◌≡◌, List, [], ◌∷◌, ◌++◌, if◌then◌else◌, length, take, drop,
}
use guardy.Ext.Bytes.{Bytes}
use guardy.Ext.TokenVault.{StorageFault, Stored, stored, refused}

pub record TextSpan : Type 0 where
  pub start : ℕ
  pub end : ℕ

pub data Replaced : Type 0 where
  replaced : Bytes → Replaced
  failed : StorageFault → Replaced
  out_of_range : Replaced

-- `input[from:to]` of a range that lies in the text.
abbrev pub slice : Bytes → ℕ → ℕ → Bytes
slice input from to = take (to - from) (drop from input)

-- The slices of a span behind `offset` lie in the text.
abbrev pub in_range : Bytes → ℕ → TextSpan → Bool
in_range input offset span =
    leb offset span.start && leb span.start span.end && leb span.end (length input)

-- The spans lie in the text, one behind the other.
abbrev pub InRange : Bytes → ℕ → List TextSpan → Type 0
InRange input offset [] = offset ≤ length input
InRange input offset (span ∷ spans) =
    (in_range input offset span ≡ true) × InRange input span.end spans

module _ {W : Type 0} (replace : W → Bytes → Stored × W) (input : Bytes) where
  abbrev pub prepend : Bytes → Replaced × W → Replaced × W
  prepend text (replaced rest, w) = (replaced (text ++ rest), w)
  prepend text (failed e, w) = (failed e, w)
  prepend text (out_of_range, w) = (out_of_range, w)

  abbrev pub after_replace : Bytes → Stored × W → (W → Replaced × W) → Replaced × W
  after_replace plain (refused e, w) k = (failed e, w)
  after_replace plain (stored replacement, w) k = prepend (plain ++ replacement) (k w)

  unfoldable pub replace_from : ℕ → List TextSpan → W → Replaced × W
  replace_from offset [] w =
      (if leb offset (length input) then replaced (drop offset input) else out_of_range, w)
  replace_from offset (span ∷ spans) w =
      let rest : W → Replaced × W = λ v. replace_from span.end spans v in
      if in_range input offset span
      then after_replace (slice input offset span.start)
          (replace w (slice input span.start span.end)) rest
      else (out_of_range, w)

  unfoldable pub replace_spans : List TextSpan → W → Replaced × W
  unfolding replace_from
  replace_spans spans w = replace_from 0 spans w
