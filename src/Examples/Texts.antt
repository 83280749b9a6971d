-- ===== src/Examples/Texts.antt =====
-- A text with an address, masked through a vault and restored.
use guardy.Base.{
  ℕ, ◌+◌, ◌^◌, ◌<◌, leb, false, ◌&&◌, ◌||◌, ◌≡◌, ◌≢◌, refl, ap, arith, List, [], ◌∷◌, any, ◌==◌,
  none, some, length,
}
use guardy.Kinds.{redact}
use guardy.Report.{Report}
use guardy.Ext.Bytes.{Bytes, Lacks}
use guardy.Ext.TokenVault.{InMemoryTokenVault, new_vault, store_all}
use guardy.Ext.TokenVault.Restores.{store_all-restored, restored, originals}
use guardy.Ext.TokenVault.Unredact.{unredact_text}
use guardy.Ext.TokenVault.RoundTrip.{redact-unredact, redact_with}
use guardy.Ext.Spans.{TextSpan, replaced, replace_spans, InRange}
use guardy.Ext.Runes.{Categories}
use guardy.Ext.Words.{word_spans}
use guardy.Release.Utf8.{lead}
use guardy.Ext.Pii.{pii_spans, found_spans, phone_pattern, russian_phone_pattern, card_pattern}
use guardy.Ext.Pii.{phone, pattern_spans, domain_from, bounded_start, next_from}
use guardy.Ext.Pii.Enough.{searches-enough}
use guardy.Ext.Pii.Found.{pii_spans-cover}
use guardy.Ext.Pii.Merged.{covered}
use guardy.Ext.Options.{RuleConfig, defaults, checked, crashed}
use guardy.Ext.Rules.{WordlistRule, blocklist, validate_pii, validate_wordlist, pii_namespace}
use guardy.Ext.Rules.Undone.{validate_pii-undone, validate_wordlist-runs, masking}

abbrev letters : Categories
letters = record {
  letter = λ r. (leb b'a' r && leb r b'z') || (leb b'A' r && leb r b'Z');
  number = λ r. leb b'0' r && leb r b'9';
  mark = λ r. false;
}

-- "to a@b.co!"
abbrev text : Bytes
text = b't' ∷ b'o' ∷ b' ' ∷ b'a' ∷ b'@' ∷ b'b' ∷ b'.' ∷ b'c' ∷ b'o' ∷ b'!' ∷ []

abbrev span : ℕ → ℕ → TextSpan
span start end = record { start = start; end = end }

abbrev plain : RuleConfig InMemoryTokenVault
plain = defaults redact "high" "pii_validator" []

-- "to "
abbrev to : Bytes
to = b't' ∷ b'o' ∷ b' ' ∷ []

abbrev address : Bytes
address = b'a' ∷ b'@' ∷ b'b' ∷ b'.' ∷ b'c' ∷ b'o' ∷ []

-- A list that holds a byte nowhere.
no_byte : (c : ℕ) (cs : Bytes) → any (λ d. d == c) cs ≡ false → Lacks c cs
no_byte c [] h = tt
no_byte c (d ∷ cs) h = (λ e. ground arith, no_byte c cs (ground arith))

text-Lacks : Lacks b'[' text
text-Lacks = no_byte b'[' text refl

finds_words : word_spans letters text ≡ span 0 2 ∷ span 3 4 ∷ span 5 6 ∷ span 7 9 ∷ []
unfolding word_spans lead
finds_words = refl

finds_address : pii_spans letters text ≡ span 3 9 ∷ []
unfolding pii_spans lead phone_pattern russian_phone_pattern card_pattern
finds_address = refl

text-few : length (pii_spans letters text) < 2 ^ 64
text-few = omega (arith, ap length finds_address)

validate_pii-undone_example :
    (out : Bytes) × (rep : Report) × ((validate_pii
        (λ v. none)
        letters
        (masking letters plain text)
        text
        new_vault).0
      ≡ checked out rep)
    × (unredact_text
          (some
            (validate_pii
              (λ v. none)
              letters
              (masking letters plain text)
              text
              new_vault).1.restores)
          out
        ≡ text)
validate_pii-undone_example = validate_pii-undone letters plain text text-Lacks text-few

pii_spans-cover_example :
    InRange text 0 (pii_spans letters text)
    × ((i : ℕ) → covered i (pii_spans letters text) ≡ covered i (found_spans letters text))
pii_spans-cover_example = pii_spans-cover letters text

abbrev two_spans : List TextSpan
two_spans = span 0 2 ∷ span 3 9 ∷ []

redact-unredact_example :
    (out : Bytes) × ((replace_spans (redact_with pii_namespace []) text two_spans new_vault).0
      ≡ replaced out)
    × (unredact_text
          (some (replace_spans (redact_with pii_namespace []) text two_spans new_vault).1.restores)
          out
        ≡ text)
redact-unredact_example =
    redact-unredact text pii_namespace [] two_spans text-Lacks (omega arith)
      (refl, (refl, omega arith))

-- The same original under two namespaces, and again under the first.
abbrev requests : List (Bytes × Bytes)
requests = (to, address) ∷ (address, address) ∷ (to, address) ∷ (to, text) ∷ []

store_all-restored_example :
    restored (store_all requests new_vault).1 (store_all requests new_vault).0 ≡ originals requests
store_all-restored_example = store_all-restored requests (omega arith)

abbrev listed : WordlistRule InMemoryTokenVault
listed = record { words = (b'c' ∷ b'o' ∷ []) ∷ []; mode = blocklist; cfg = plain }

validate_wordlist-runs_example :
    (validate_wordlist (λ v. none) letters (λ t. t) listed text new_vault).0 ≢ crashed
validate_wordlist-runs_example =
    validate_wordlist-runs (λ v. none) letters (λ t. t) listed text new_vault

searches-enough_example :
    (pattern_spans letters text 40 phone 0 ≡ pattern_spans letters text (length text) phone 0)
    × (domain_from letters text 40 5 5 0 0 0 ≡ domain_from letters text (length text) 5 5 0 0 0)
    × (bounded_start letters text 40 4 9 5 ≡ bounded_start letters text (length text) 4 9 5)
    × (next_from letters text 40 (5 + 1) ≡ next_from letters text (length text) (5 + 1))
searches-enough_example = searches-enough letters text 40 4 9 5 phone (omega arith) (omega arith)
