-- ===== src/Ext/Words.antt =====
-- ext/wordlist.go: the tokens of a text, the maximal runs that `[\p{L}\p{N}\p{M}_]+` matches.
use guardy.Base.{ℕ, zero, suc, ◌+◌, List, [], ◌∷◌, Option, none, some, if◌then◌else◌, length, drop}
use guardy.Release.Utf8.{rune_size}
use guardy.Ext.Bytes.{Bytes}
use guardy.Ext.Runes.{Categories, first_rune, is_word_rune}
use guardy.Ext.Spans.{TextSpan}

-- A run that is open since `start`, if one is, ends at `offset`.
abbrev pub close_run : Option ℕ → ℕ → List TextSpan → List TextSpan
close_run none offset spans = spans
close_run (some start) offset spans = record { start = start; end = offset } ∷ spans

abbrev pub open_run : Option ℕ → ℕ → Option ℕ
open_run none offset = some offset
open_run (some start) offset = some start

module _ (u : Categories) where
  -- A rune takes a byte at least, so the length of the text bounds the rounds.
  unfoldable pub runs_from : ℕ → ℕ → Option ℕ → Bytes → List TextSpan
  unfolding first_rune is_word_rune rune_size
  runs_from fuel offset run [] = close_run run offset []
  runs_from zero offset run (c ∷ cs) = []
  runs_from (suc fuel) offset run (c ∷ cs) =
      let size = rune_size (c ∷ cs) in
      let rest = drop size (c ∷ cs) in
      let within = runs_from fuel (offset + size) (open_run run offset) rest in
      let beyond = close_run run offset (runs_from fuel (offset + size) none rest) in
      if is_word_rune u (first_rune (c ∷ cs)) then within else beyond

  unfoldable pub word_spans : Bytes → List TextSpan
  unfolding runs_from
  word_spans text = runs_from (length text) 0 none text
