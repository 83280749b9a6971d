-- ===== src/Ext/Rules.antt =====
-- ext/length.go, regex.go, tag_sanitizer.go, wordlist.go and pii_masking.go: the rules over texts.
pub mod Undone
use text.Mathlib.Text.{◌==◌ as str_eq}
use guardy.Base.{
  ℕ, ◌+◌, ◌==◌, ltb, leb, Bool, true, false, not, ◌&&◌, ◌||◌, String, List, [], ◌∷◌, ◌++◌, Option,
  none, some, if◌then◌else◌, length, take, drop, any,
}
use guardy.Kinds.{Action, block, redact, same_action}
use guardy.Report.{Report}
use guardy.Fault.Tree.{Error, misconfigured, panic_value, join_options}
use guardy.Pipeline.Build.{indexed}
use guardy.Ext.Bytes.{Bytes, same_bytes}
use guardy.Ext.TokenVault.{
  TokenVault, panics, Stored, stored, refused, StorageFault, storage_error, store_redaction, is_nil,
}
use guardy.Ext.Spans.{TextSpan, Replaced, replaced, failed, out_of_range, slice, replace_spans}
use guardy.Ext.Runes.{Categories, rune_count}
use guardy.Ext.Words.{word_spans}
use guardy.Ext.Pii.{pii_spans}
use guardy.Ext.Options.{
  RuleConfig, VaultSlot, no_vault, typed_nil, vault, RuleOption, Configured, configured, rejected,
  configure, defaults, redacted, pass_report, violation_report, with_mutated, Checked, checked,
  faulted, crashed,
}

-- `TokenNamespacePII` and `TokenNamespaceWordlist`.
abbrev pub pii_namespace : Bytes
pii_namespace = b'P' ∷ b'I' ∷ b'I' ∷ []

abbrev pub wordlist_namespace : Bytes
wordlist_namespace = b'W' ∷ b'O' ∷ b'R' ∷ b'D' ∷ b'L' ∷ b'I' ∷ b'S' ∷ b'T' ∷ []

-- A compiled expression.
pub record Regexp : Type 0 where
  pub matches : Bytes → Bool
  pub replace_all : Bytes → Bytes → Bytes

pub data Mode : Type 0 where
  blocklist allowlist : Mode
  unknown : ℕ → Mode

pub record LengthRule (W : Type 0) : Type 0 where
  pub min_length : ℕ
  pub max_length : ℕ
  pub cfg : RuleConfig W

pub record RegexRule (W : Type 0) : Type 0 where
  pub re : Regexp
  pub cfg : RuleConfig W

pub record WordlistRule (W : Type 0) : Type 0 where
  pub words : List Bytes
  pub mode : Mode
  pub cfg : RuleConfig W

-- What a constructor returns.
pub data Made (A : Type 0) : Type 0 where
  made : A → Made A
  unmade : Error → Made A

abbrev pub make : {W A : Type 0} → Configured W → (RuleConfig W → Made A) → Made A
make (rejected e) k = unmade e
make (configured cfg) k = k cfg

abbrev pub bad_bounds : ℕ → ℕ → Bool
bad_bounds low high = ltb 0 low && ltb 0 high && ltb high low

abbrev pub bounds_error : Error
bounds_error = misconfigured "length" "bounds" "invalid"

module _ {W : Type 0} where
  -- `NewLengthValidator`; a bound below zero is `none`.
  unfoldable pub new_length : Option ℕ → Option ℕ → List (RuleOption W) → Made (LengthRule W)
  new_length none high opts = unmade bounds_error
  new_length (some low) none opts = unmade bounds_error
  new_length (some low) (some high) opts =
      if bad_bounds low high
      then unmade bounds_error
      else make (configure "length" (defaults block "medium" "length_validator" []) opts)
          (λ cfg. made (record { min_length = low; max_length = high; cfg = cfg }))

  unfoldable pub validate_length : LengthRule W → Bytes → Checked
  validate_length l input =
      let n = rune_count input in
      if ltb 0 l.min_length && ltb n l.min_length
      then checked input (violation_report l.cfg block "text too short")
      else if ltb 0 l.max_length && ltb l.max_length n
      then checked input (violation_report l.cfg block "text too long")
      else checked input (pass_report l.cfg)

  -- `NewRegexValidator` and `NewTagPatternValidator`, given what compiles an expression.
  abbrev pub after_compile :
      String → RuleConfig W → List (RuleOption W) → Option Regexp → Made (RegexRule W)
  after_compile component base opts none = unmade (misconfigured component "pattern" "invalid")
  after_compile component base opts (some re) =
      make (configure component base opts) (λ cfg. made (record { re = re; cfg = cfg }))

  unfoldable pub new_regex :
      (Bytes → Option Regexp) → Bytes → List (RuleOption W) → Made (RegexRule W)
  new_regex compile pattern opts =
      after_compile "regex" (defaults block "high" "regex_validator" redacted) opts
        (compile pattern)

  unfoldable pub new_tag_pattern :
      (Bytes → Option Regexp) → Bytes → Bytes → List (RuleOption W) → Made (RegexRule W)
  new_tag_pattern compile default_pattern pattern opts =
      after_compile "tag_pattern" (defaults block "high" "tag_pattern_validator" []) opts
        (compile (if is_nil pattern then default_pattern else pattern))

  unfoldable pub validate_regex : RegexRule W → Bytes → Checked
  validate_regex r input =
      if not (r.re.matches input)
      then checked input (pass_report r.cfg)
      else if same_action r.cfg.action redact
      then (let clean = r.re.replace_all input r.cfg.redaction_replacement in
          checked clean (with_mutated (violation_report r.cfg redact "pattern matched") clean))
      else checked input (violation_report r.cfg block "pattern matched")

  unfoldable pub validate_tag_pattern : RegexRule W → Bytes → Checked
  validate_tag_pattern r input =
      if r.re.matches input
      then checked input (violation_report r.cfg block "system tag pattern matched")
      else checked input (pass_report r.cfg)

  -- A nil pointer behind the interface, which no checked configuration has, panics.
  abbrev pub vault_of : VaultSlot W → Option (TokenVault W)
  vault_of no_vault = none
  vault_of typed_nil = some (λ w namespace original. (panics (panic_value 0), w))
  vault_of (vault v) = some v

  abbrev pub store_with : RuleConfig W → Bytes → W → Bytes → Stored × W
  store_with cfg namespace w original =
      store_redaction (vault_of cfg.token_vault) namespace cfg.redaction_replacement w original

abbrev pub is_allowlist : Mode → Bool
is_allowlist allowlist = true
is_allowlist _ = false

abbrev pub is_blocklist : Mode → Bool
is_blocklist blocklist = true
is_blocklist _ = false

abbrev pub lowered : (Bytes → Bytes) → Bool → Bytes → Bytes
lowered to_lower lowercase text = if lowercase then to_lower text else text

abbrev pub wordlist_reason : Mode → List TextSpan → String
wordlist_reason mode found =
    if is_allowlist mode
    then (if is_nil found then "no tokens" else "word not in allowlist")
    else "blocklisted word found"

abbrev pub single_token : Bytes → List TextSpan → Bool
single_token word [] = false
single_token word (s ∷ ss) = s.start == 0 && s.end == length word

module _ {W : Type 0} where
  -- A token is replaced if it is listed, or in an allowlist if it is not.
  abbrev pub offends : (Bytes → Bytes) → WordlistRule W → Bytes → Bool
  offends to_lower r token =
      let listed = any (λ word. same_bytes word (lowered to_lower r.cfg.lowercase token)) r.words in
      (is_blocklist r.mode && listed) || (is_allowlist r.mode && not listed)

  unfoldable pub offending :
      (Bytes → Bytes) → WordlistRule W → Bytes → List TextSpan → List TextSpan
  offending to_lower r input [] = []
  offending to_lower r input (s ∷ ss) =
      if offends to_lower r (slice input s.start s.end)
      then s ∷ offending to_lower r input ss
      else offending to_lower r input ss

  abbrev pub stored_whole : Stored × W → Replaced × W
  stored_whole (stored token, w) = (replaced token, w)
  stored_whole (refused e, w) = (failed e, w)

  -- The loop of `NewWordlistValidator` over the words, from the index `i` on.
  unfoldable pub word_keys :
      Categories → (Bytes → Bytes) → RuleConfig W → ℕ → List Bytes → List Bytes → Made (List Bytes)
  word_keys u to_lower cfg i keys [] = made keys
  word_keys u to_lower cfg i keys (word ∷ words) =
      let rest =
        word_keys u to_lower cfg (i + 1) (lowered to_lower cfg.lowercase word ∷ keys) words in
      if single_token word (word_spans u word)
      then rest
      else unmade (misconfigured "wordlist" (indexed "words" i) "single_token")

  abbrev pub with_keys : Mode → RuleConfig W → Made (List Bytes) → Made (WordlistRule W)
  with_keys mode cfg (unmade e) = unmade e
  with_keys mode cfg (made keys) = made (record { words = keys; mode = mode; cfg = cfg })

  unfoldable pub new_wordlist :
      Categories → (Bytes → Bytes) → List Bytes → Mode → List (RuleOption W) → Made (WordlistRule W)
  unfolding word_keys
  new_wordlist u to_lower words mode opts =
      if not (is_blocklist mode || is_allowlist mode)
      then unmade (misconfigured "wordlist" "mode" "invalid")
      else make (configure "wordlist" (defaults block "high" "wordlist_validator" redacted) opts)
          (λ cfg. with_keys mode cfg (word_keys u to_lower cfg 0 [] words))

  -- `NewPIIValidator`.
  unfoldable pub new_pii : List (RuleOption W) → Made (RuleConfig W)
  new_pii opts =
      make (configure "pii" (defaults redact "high" "pii_validator" redacted) opts)
        (λ cfg. made cfg)

module _ {W : Type 0} (ctx_err : W → Option Error) where
  -- The end of a redaction: the fault of the vault joined with that of the context, or the report.
  abbrev pub fault_or : Option Error → Checked → Checked
  fault_or none ok = ok
  fault_or (some e) ok = faulted e

  abbrev pub finish_redaction : Report → Replaced × W → Checked × W
  finish_redaction rep (replaced clean, w) =
      (fault_or (join_options none (ctx_err w)) (checked clean (with_mutated rep clean)), w)
  finish_redaction rep (failed f, w) =
      (fault_or (join_options (some (storage_error f)) (ctx_err w)) crashed, w)
  finish_redaction rep (out_of_range, w) = (crashed, w)

  abbrev pub live : W → Checked × W → Checked × W
  live w answer = elim (ctx_err w) [ some e ↦ (faulted e, w) | none ↦ answer ]

  unfoldable pub validate_pii : Categories → RuleConfig W → Bytes → W → Checked × W
  validate_pii u cfg input w =
      let spans = pii_spans u input in
      live w (
        if is_nil spans
        then (checked input (pass_report cfg), w)
        else if same_action cfg.action block
        then (checked input (violation_report cfg block "PII detected"), w)
        else finish_redaction (violation_report cfg redact "PII detected")
            (replace_spans (store_with cfg pii_namespace) input spans w))

  -- `Validate` of the word list; without a token the whole text is replaced.
  unfoldable pub validate_wordlist :
      Categories → (Bytes → Bytes) → WordlistRule W → Bytes → W → Checked × W
  unfolding offending
  validate_wordlist u to_lower r input w =
      let found = word_spans u input in
      let spans = offending to_lower r input found in
      let reason = wordlist_reason r.mode found in
      live w (
        if is_nil spans && (is_blocklist r.mode || not (is_nil found))
        then (checked input (pass_report r.cfg), w)
        else if same_action r.cfg.action block
        then (checked input (violation_report r.cfg block reason), w)
        else finish_redaction (violation_report r.cfg redact reason) (
            if is_nil found
            then stored_whole (store_with r.cfg wordlist_namespace w input)
            else replace_spans (store_with r.cfg wordlist_namespace) input spans w))
