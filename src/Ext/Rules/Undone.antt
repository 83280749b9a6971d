-- ===== src/Ext/Rules/Undone.antt =====
-- The rules that redact: their spans are slices of the text, and the vault takes a redaction back.
use guardy.Base.{
  ℕ, zero, suc, ◌+◌, ◌^◌, ◌≤◌, ◌<◌, leb, true, String, not, ◌&&◌, ◌||◌, ◌≡◌, ◌≢◌, refl, arith, List,
  [], ◌∷◌, ◌++◌, Option, none, some, if◌then◌else◌, length, drop, length-drop, Bool-cases,
  Option-cases, inl, inr,
}
use guardy.Kinds.{redact, block, same_action}
use guardy.Report.{Report}
use guardy.Fault.Tree.{Error}
use guardy.Release.Utf8.{rune_size, lead}
use guardy.Ext.Bytes.{Bytes, Lacks}
use guardy.Ext.TokenVault.{
  Stored, stored, refused, InMemoryTokenVault, new_vault, as_token_vault, is_nil, store_redaction,
}
use guardy.Ext.TokenVault.Unredact.{unredact_text}
use guardy.Ext.TokenVault.Reading.{text-Becomes, unredact_lem}
use guardy.Ext.TokenVault.RoundTrip.{redact-unredact}
use guardy.Ext.Spans.{
  TextSpan, Replaced, replaced, failed, out_of_range, slice, InRange, replace_from, replace_spans,
  prepend, after_replace,
}
use guardy.Ext.Runes.{Categories, first_rune, is_word_rune}
use guardy.Ext.Words.{close_run, open_run, runs_from, word_spans}
use guardy.Ext.Pii.{pii_spans}
use guardy.Ext.Pii.Found.{pii_spans-cover}
use guardy.Ext.Options.{
  RuleConfig, vault, Checked, checked, crashed, pass_report, violation_report, with_mutated,
}
use guardy.Ext.Rules.{
  WordlistRule, store_with, finish_redaction, live, validate_pii, offending, offends,
  validate_wordlist, stored_whole, pii_namespace, wordlist_namespace, is_allowlist, is_blocklist,
}

-- A rune takes a byte at least, and no more than there are.
rune_size-bounds :
    (c : ℕ) (cs : Bytes) → (1 ≤ rune_size (c ∷ cs)) × (rune_size (c ∷ cs) ≤ length (c ∷ cs))
unfolding rune_size lead
rune_size-bounds c cs = ground arith

InRange-weaken :
    (input : Bytes) (j k : ℕ) (ss : List TextSpan) → j ≤ k → InRange input k ss → InRange input j ss
InRange-weaken input j k [] h r = omega arith
InRange-weaken input j k (s ∷ ss) h r = (ground (arith, r.0), r.1)

-- The place from which a run may start: that of the open run, if there is one.
abbrev from_place : Option ℕ → ℕ → ℕ
from_place none offset = offset
from_place (some start) offset = start

module _ (input : Bytes) where
  close-InRange :
      (k : ℕ) (run : Option ℕ) (offset : ℕ) (ss : List TextSpan)
      → k ≤ from_place run offset
      → from_place run offset ≤ offset
      → offset ≤ length input
      → InRange input offset ss
      → InRange input k (close_run run offset ss)
  close-InRange k none offset ss h g l r = InRange-weaken input k offset ss h r
  close-InRange k (some start) offset ss h g l r = (ground arith, r)

  open-place :
      (run : Option ℕ) (offset : ℕ) (size : ℕ)
      → from_place (open_run run offset) (offset + size) ≡ from_place run offset
  open-place none offset size = refl
  open-place (some start) offset size = refl

  runs-InRange :
      (u : Categories) (fuel offset k : ℕ) (run : Option ℕ) (text : Bytes)
      → offset + length text ≡ length input
      → k ≤ from_place run offset
      → from_place run offset ≤ offset
      → InRange input k (runs_from u fuel offset run text)
  unfolding runs_from
  runs-InRange u zero offset k run [] e h g =
      close-InRange k run offset [] h g (omega arith) (omega arith)
  runs-InRange u (suc fuel) offset k run [] e h g =
      close-InRange k run offset [] h g (omega arith) (omega arith)
  runs-InRange u zero offset k run (c ∷ cs) e h g = omega arith
  runs-InRange u (suc fuel) offset k run (c ∷ cs) e h g =
      let size = rune_size (c ∷ cs) in
      let rest = drop size (c ∷ cs) in
      let next : offset + size + length rest ≡ length input =
        omega (arith, length-drop {0} size (c ∷ cs), rune_size-bounds c cs) in
      elim (Bool-cases (is_word_rune u (first_rune (c ∷ cs)))) [
        | inl w ↦ rw w (
            runs-InRange u fuel (offset + size) k (open_run run offset) rest next
              (omega (arith, open-place run offset size))
              (omega (arith, open-place run offset size)))
        | inr w ↦ rw w (
            close-InRange k run offset _ h g (omega arith) (
              runs-InRange u fuel (offset + size) offset none rest next (omega arith)
                (omega arith)))
      ]

  word_spans-InRange : (u : Categories) → InRange input 0 (word_spans u input)
  unfolding word_spans
  word_spans-InRange u =
      runs-InRange u (length input) 0 0 none input (omega arith) (omega arith) (omega arith)

  offending-InRange :
      {W : Type 0} (to_lower : Bytes → Bytes) (r : WordlistRule W) (k : ℕ) (ss : List TextSpan)
      → InRange input k ss
      → InRange input k (offending to_lower r input ss)
  unfolding offending
  offending-InRange to_lower r k [] h = h
  offending-InRange to_lower r k (s ∷ ss) h =
      elim (Bool-cases (offends to_lower r (slice input s.start s.end))) [
        | inl e ↦ rw e (h.0, offending-InRange to_lower r s.end ss h.1)
        | inr e ↦ rw e (
            InRange-weaken input k s.end _ (ground (arith, h.0))
              (offending-InRange to_lower r s.end ss h.1))
      ]

  module _ {W : Type 0} (replace : W → Bytes → Stored × W) where
    abbrev Runs : Replaced × W → Type 0
    Runs (r, w) = r ≢ out_of_range

    prepend-Runs : (text : Bytes) (p : Replaced × W) → Runs p → Runs (prepend replace input text p)
    prepend-Runs text (replaced rest, w) h e = cc
    prepend-Runs text (failed x, w) h e = cc
    prepend-Runs text (out_of_range, w) h e = h e

    after-Runs :
        (plain : Bytes) (s : Stored × W) (k : W → Replaced × W)
        → ((w : W) → Runs (k w))
        → Runs (after_replace replace input plain s k)
    after-Runs plain (refused e, w) k h x = cc
    after-Runs plain (stored t, w) k h x = prepend-Runs (plain ++ t) (k w) (h w) x

    -- Replacing spans that lie in the text never slices out of range.
    replace-Runs :
        (k : ℕ) (ss : List TextSpan) (w : W)
        → InRange input k ss
        → Runs (replace_from replace input k ss w)
    unfolding replace_from
    replace-Runs k [] w h =
        let here : leb k (length input) ≡ true = ground arith in rw here (λ e. cc)
    replace-Runs k (s ∷ ss) w h = rw (h.0) (after-Runs _ _ _ (λ v. replace-Runs s.end ss v h.1))

module _ {W : Type 0} (ctx_err : W → Option Error) where
  abbrev NoCrash : Checked × W → Type 0
  NoCrash (answer, w) = answer ≢ crashed

  finish-NoCrash :
      (input : Bytes) (rep : Report) (p : Replaced × W)
      → p.0 ≢ out_of_range
      → NoCrash (finish_redaction ctx_err rep p)
  finish-NoCrash input rep (replaced clean, w) h = elim (Option-cases (ctx_err w)) [
    | inl e ↦ rw e (λ x. cc)
    | inr (c, e) ↦ rw e (λ x. cc)
  ]
  finish-NoCrash input rep (failed f, w) h = elim (Option-cases (ctx_err w)) [
    | inl e ↦ rw e (λ x. cc)
    | inr (c, e) ↦ rw e (λ x. cc)
  ]
  finish-NoCrash input rep (out_of_range, w) h = λ x. h refl

  live-NoCrash : (w : W) (answer : Checked × W) → NoCrash answer → NoCrash (live ctx_err w answer)
  live-NoCrash w answer h = elim (Option-cases (ctx_err w)) [
    | inl e ↦ rw (e, live) h
    | inr (c, e) ↦ rw (e, live) (λ x. cc)
  ]

  -- Masking personal data never slices the text out of range, whatever the tables of `unicode`, the
  -- options, the vault and the context are.
  pub validate_pii-runs :
      (u : Categories) (cfg : RuleConfig W) (input : Bytes) (w : W)
      → (validate_pii ctx_err u cfg input w).0 ≢ crashed
  unfolding validate_pii replace_spans
  validate_pii-runs u cfg input w =
      live-NoCrash w _ (elim (Bool-cases (is_nil (pii_spans u input))) [
        | inl e ↦ rw e (λ x. cc)
        | inr e ↦ elim (Bool-cases (same_action cfg.action block)) [
          | inl b ↦ rw (e, b) (λ x. cc)
          | inr b ↦
              rw (e, b)
                (finish-NoCrash input (violation_report cfg redact "PII detected")
                  (replace_spans (store_with cfg pii_namespace) input (pii_spans u input) w)
                  (replace-Runs input (store_with cfg pii_namespace) 0 (pii_spans u input) w
                    (pii_spans-cover u input).0))
        ]
      ])

  whole-Runs : (p : Stored × W) → (stored_whole p).0 ≢ out_of_range
  whole-Runs (stored t, w) x = cc
  whole-Runs (refused e, w) x = cc

  -- A word list never slices the text out of range, whatever its words, `strings.ToLower`, the tables of
  -- `unicode`, the options, the vault and the context are.
  pub validate_wordlist-runs :
      (u : Categories) (to_lower : Bytes → Bytes) (r : WordlistRule W) (input : Bytes) (w : W)
      → (validate_wordlist ctx_err u to_lower r input w).0 ≢ crashed
  unfolding validate_wordlist replace_spans
  validate_wordlist-runs u to_lower r input w =
      let found = word_spans u input in
      let spans = offending to_lower r input found in
      let rep : String → Report = λ reason. violation_report r.cfg redact reason in
      live-NoCrash w _
        (elim (Bool-cases (is_nil spans && (is_blocklist r.mode || not (is_nil found)))) [
          | inl e ↦ rw e (λ x. cc)
          | inr e ↦ elim (Bool-cases (same_action r.cfg.action block)) [
            | inl b ↦ rw (e, b) (λ x. cc)
            | inr b ↦ elim (Bool-cases (is_nil found)) [
              | inl n ↦
                  rw (e, b, n)
                    (finish-NoCrash input
                      (rep (if is_allowlist r.mode then "no tokens" else "blocklisted word found"))
                      (stored_whole (store_with r.cfg wordlist_namespace w input))
                      (whole-Runs (store_with r.cfg wordlist_namespace w input)))
              | inr n ↦
                  rw (e, b, n)
                    (finish-NoCrash input
                      (rep (
                        if is_allowlist r.mode
                        then "word not in allowlist"
                        else "blocklisted word found"))
                      (replace_spans (store_with r.cfg wordlist_namespace) input spans w)
                      (replace-Runs input (store_with r.cfg wordlist_namespace) 0 spans w
                        (offending-InRange input to_lower r 0 found (word_spans-InRange input u))))
            ]
          ]
        ])

module _ (u : Categories) (cfg : RuleConfig InMemoryTokenVault) (input : Bytes) where
  abbrev pub masking : RuleConfig InMemoryTokenVault
  masking = record cfg { action = redact; token_vault = vault as_token_vault }

  -- Masking personal data with a new vault and the action to redact gives a text and a report, and
  -- `UnredactText` with the vault gives the input back. The input has no opening bracket and fewer than
  -- 2^64 findings, and the context does not end.
  pub validate_pii-undone :
      Lacks b'[' input
      → length (pii_spans u input) < 2 ^ 64
      → (out : Bytes) × (rep : Report) × ((validate_pii (λ v. none) u masking input new_vault).0
          ≡ checked out rep)
        × (unredact_text (some (validate_pii (λ v. none) u masking input new_vault).1.restores) out
            ≡ input)
  unfolding validate_pii store_redaction
  validate_pii-undone plain few =
      let spans = pii_spans u input in
      let rep = violation_report masking redact "PII detected" in
      let (out, done, undo) =
        redact-unredact input pii_namespace cfg.redaction_replacement spans plain few
          (pii_spans-cover u input).0 in
      elim (Bool-cases (is_nil spans)) [
        | inl e ↦ rw e (
          input,
          pass_report masking,
          refl,
          unredact_lem new_vault.restores input input (text-Becomes new_vault.restores input plain),
        )
        | inr e ↦ rw (e, done) (out, with_mutated rep out, refl, undo)
      ]
