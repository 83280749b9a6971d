-- ===== src/Ext/TokenVault/RoundTrip.antt =====
-- Redaction with the library's vault and `UnredactText` behind it.
use guardy.Base.{
  ℕ, zero, suc, ◌+◌, ◌-◌, ◌^◌, ◌≤◌, ◌<◌, leb, true, false, List, [], ◌∷◌, ◌++◌, ◌≡◌, refl, sym, ap,
  ◌∙◌, subst, arith, none, some, length, take, drop, append_assoc, take-append-drop,
}
use guardy.Ext.Bytes.{Bytes, Lacks, same_bytes}
use guardy.Ext.TokenVault.{
  InMemoryTokenVault, new_vault, normalize_namespace, token_of, store, store_redaction,
  as_token_vault, check_token, Stored, stored, answered,
}
use guardy.Ext.TokenVault.Tokens.{normalize-IsName}
use guardy.Ext.TokenVault.Restores.{Kept, Extends, store-Good, new_vault-Kept}
use guardy.Ext.TokenVault.Unredact.{unredact_text}
use guardy.Ext.Spans.{
  InRange, TextSpan, Replaced, replaced, failed, out_of_range, slice, in_range, replace_from,
  replace_spans, prepend, after_replace,
}
use guardy.Ext.TokenVault.Reading.{
  Becomes, plain-Becomes, text-Becomes, token-Becomes, normalize-nonempty, unredact_lem,
}

drop-nil : (n : ℕ) → drop {A = ℕ} n [] ≡ []
drop-nil zero = refl
drop-nil (suc n) = refl

drop-drop : (a b : ℕ) (xs : Bytes) → drop a (drop b xs) ≡ drop (b + a) xs
drop-drop a zero xs = let e : a ≡ 0 + a = omega arith in ap (λ k. drop k xs) e
drop-drop a (suc b) [] = drop-nil a ∙ sym (drop-nil (suc b + a))
drop-drop a (suc b) (x ∷ xs) =
    let e : suc (b + a) ≡ suc b + a = omega arith in drop-drop a b xs ∙ ap (λ k. drop k (x ∷ xs)) e

-- A text from `a` on is the slice up to `b`, and the text from there on.
slice-append-drop :
    (input : Bytes) (a b : ℕ) → a ≤ b → slice input a b ++ drop b input ≡ drop a input
slice-append-drop input a b h =
    let e : a + (b - a) ≡ b = omega arith in
    ap (◌++◌ (slice input a b)) (ap (λ k. drop k input) (sym e) ∙ sym (drop-drop (b - a) a input))
    ∙ take-append-drop (b - a) (drop a input)

take-Lacks : (c n : ℕ) (xs : Bytes) → Lacks c xs → Lacks c (take n xs)
take-Lacks c zero xs h = tt
take-Lacks c (suc n) [] h = tt
take-Lacks c (suc n) (x ∷ xs) h = (h.0, take-Lacks c n xs h.1)

drop-Lacks : (c n : ℕ) (xs : Bytes) → Lacks c xs → Lacks c (drop n xs)
drop-Lacks c zero xs h = h
drop-Lacks c (suc n) [] h = tt
drop-Lacks c (suc n) (x ∷ xs) h = drop-Lacks c n xs h.1

token-other :
    (ns : Bytes) (i : ℕ) (original : Bytes)
    → Lacks b'[' original
    → same_bytes (token_of ns i) original ≡ false
unfolding token_of
token-other ns i [] h = refl
token-other ns i (c ∷ cs) h = ground (arith, h.0)

-- A token of the vault is stored as it is, for an original that opens no bracket.
checked_token :
    (ns : Bytes) (i : ℕ) (original : Bytes)
    → Lacks b'[' original
    → check_token original (answered (token_of ns i) none) ≡ stored (token_of ns i)
unfolding check_token
checked_token ns i original h = rw (token-other ns i original h) (unfold token_of in refl)

-- A redaction by the vault of the library.
abbrev pub redact_with : Bytes → Bytes → InMemoryTokenVault → Bytes → Stored × InMemoryTokenVault
redact_with namespace replacement v original =
    store_redaction (some as_token_vault) namespace replacement v original

module _ (input namespace replacement : Bytes) (plain : Lacks b'[' input) where
  abbrev redact : InMemoryTokenVault → Bytes → Stored × InMemoryTokenVault
  redact = redact_with namespace replacement

  redact_lem :
      (v : InMemoryTokenVault) (original : Bytes) (i : ℕ)
      → Lacks b'[' original
      → (store v namespace original).0 ≡ token_of (normalize_namespace namespace) i
      → redact v original ≡ (stored (store v namespace original).0, (store v namespace original).1)
  unfolding store_redaction as_token_vault
  redact_lem v original i h e =
      ap (λ s. (s, (store v namespace original).1))
        (rw e (checked_token (normalize_namespace namespace) i original h))

  -- The replacement succeeds, the vault loses nothing, and every vault that goes on from it turns the
  -- text back.
  abbrev pub Undone : InMemoryTokenVault → ℕ → Replaced × InMemoryTokenVault → Type 0
  Undone v offset (r, u) =
      (out : Bytes) × (r ≡ replaced out)
      × Extends v u
      × ((t : InMemoryTokenVault) → Extends u t → Becomes t.restores out (drop offset input))

  -- A span that was stored, before a rest that is undone.
  span-Undone :
      (v u : InMemoryTokenVault) (offset : ℕ) (span : TextSpan) (i : ℕ)
      (r : Replaced × InMemoryTokenVault)
      → in_range input offset span ≡ true
      → Extends v u
      → u.restores (token_of (normalize_namespace namespace) i)
        ≡ some (slice input span.start span.end)
      → Undone u span.end r
      → Undone v offset (
          prepend redact input
            (slice input offset span.start ++ token_of (normalize_namespace namespace) i)
            r)
  span-Undone v u offset span i (replaced rest, t) h e g (out, q, more, undo) =
      let token = token_of (normalize_namespace namespace) i in
      let before = slice input offset span.start in
      let original = slice input span.start span.end in
      let bare =
        take-Lacks b'[' (span.start - offset) (drop offset input)
          (drop-Lacks b'[' offset input plain) in
      let whole : before ++ (original ++ drop span.end input) ≡ drop offset input =
        ap (◌++◌ before) (slice-append-drop input span.start span.end (ground arith))
        ∙ slice-append-drop input offset span.start (ground arith) in
      let same : out ≡ rest = cc in
      (
        (before ++ token) ++ rest,
        refl,
        λ s x p. more s x (e s x p),
        λ s p.
            subst (λ text. Becomes s.restores text (drop offset input))
              (sym (append_assoc before token rest))
              (subst (Becomes s.restores (before ++ (token ++ rest))) whole (
                plain-Becomes s.restores before (token ++ rest) (original ++ drop span.end input)
                  bare
                  (token-Becomes s.restores (normalize_namespace namespace) i original rest
                    (drop span.end input) (normalize-IsName namespace)
                    (normalize-nonempty namespace) (p _ _ (more _ _ g))
                    (subst (λ text. Becomes s.restores text (drop span.end input)) same
                      (undo s p))))),
      )
  span-Undone v u offset span i (failed x, t) h e g (out, q, more, undo) = cc
  span-Undone v u offset span i (out_of_range, t) h e g (out, q, more, undo) = cc

  replace-Undone :
      (spans : List TextSpan) (n : ℕ) (v : InMemoryTokenVault) (offset : ℕ)
      → Kept n v
      → n + length spans < 2 ^ 64
      → InRange input offset spans
      → Undone v offset (replace_from redact input offset spans v)
  unfolding replace_from
  replace-Undone [] n v offset k few h =
      let here : leb offset (length input) ≡ true = ground arith in
      rw here (
        drop offset input,
        refl,
        λ t x g. g,
        λ t g. text-Becomes t.restores (drop offset input) (drop-Lacks b'[' offset input plain),
      )
  replace-Undone (span ∷ spans) n v offset k few h =
      let original = slice input span.start span.end in
      let (kept, more, gives, (i, shape)) = store-Good n v namespace original k (omega arith) in
      let bare =
        take-Lacks b'[' (span.end - span.start) (drop span.start input)
          (drop-Lacks b'[' span.start input plain) in
      rw (h.0) (
        subst
          (λ p. Undone v offset (
            after_replace redact input (slice input offset span.start) p
              (λ w. replace_from redact input span.end spans w)))
          (sym (redact_lem v original i bare shape))
          (subst
            (λ token. Undone v offset (
              prepend redact input (slice input offset span.start ++ token)
                (replace_from redact input span.end spans (store v namespace original).1)))
            (sym shape)
            (span-Undone v (store v namespace original).1 offset span i _ h.0 more
              (ap (store v namespace original).1.restores (sym shape) ∙ gives)
              (replace-Undone spans (n + 1) (store v namespace original).1 span.end kept
                (omega arith) h.1))))

-- Redacting spans that lie in a text in order, through a new vault and under any namespace, succeeds, and
-- `UnredactText` with the vault gives the text back. The text has no opening bracket, so that it holds
-- no token of its own, and the spans are fewer than 2^64.
pub redact-unredact :
    (input namespace replacement : Bytes) (spans : List TextSpan)
    → Lacks b'[' input
    → length spans < 2 ^ 64
    → InRange input 0 spans
    → (out : Bytes) × ((replace_spans (redact_with namespace replacement) input spans new_vault).0
        ≡ replaced out)
      × (unredact_text
            (some
              (replace_spans (redact_with namespace replacement) input spans new_vault).1.restores)
            out
          ≡ input)
unfolding replace_spans
redact-unredact input namespace replacement spans plain few h =
    let (out, done, _, undo) =
      replace-Undone input namespace replacement plain spans 0 new_vault 0 new_vault-Kept
        (omega arith) h in
    let after = (replace_spans (redact_with namespace replacement) input spans new_vault).1 in
    (out, done, unredact_lem after.restores out input (undo after (λ t x e. e)))
