-- ===== src/Ext/TokenVault/Reading.antt =====
-- How `UnredactText` reads plain text and tokens.
use guardy.Base.{
  ℕ, suc, ◌+◌, ◌-◌, ltb, true, [], ◌∷◌, ◌++◌, ◌≡◌, ◌≢◌, refl, ap, ap₂, ◌∙◌, subst, arith, Option,
  none, some, length, All, All-append, Bool-cases, inl, inr, append_assoc, length-append,
  append-nil,
}
use guardy.Ext.Bytes.{Bytes, decimal, decimal_from, decimal-IsDigit, IsDigit, Lacks}
use guardy.Ext.TokenVault.{
  is_name_byte, normalize_namespace, kept_bytes, or_generic, token_of, token_prefix,
}
use guardy.Ext.TokenVault.Tokens.{IsName}
use guardy.Ext.TokenVault.Unredact.{
  strip_prefix, name_run, has_separator, is_pair, closed_run, token_at, or_token, unredact_from,
  unredact_text,
}

token_at-nil : token_at [] ≡ none
unfolding token_at strip_prefix
token_at-nil = refl

-- A byte that opens no token is kept.
token_at-plain : (c : ℕ) (cs : Bytes) → c ≢ b'[' → token_at (c ∷ cs) ≡ none
unfolding token_at
token_at-plain c cs h = ground arith

module _ (restore : Bytes → Option Bytes) where
  unredact-plain :
      (plain rest : Bytes) (f : ℕ)
      → Lacks b'[' plain
      → unredact_from restore (length plain + f) (plain ++ rest)
        ≡ plain ++ unredact_from restore f rest
  unfolding unredact_from
  unredact-plain [] rest f h = ap (λ k. unredact_from restore k rest) (omega arith)
  unredact-plain (c ∷ cs) rest f h =
      let fuel : suc (length cs) + f ≡ suc (length cs + f) = omega arith in
      ap (λ k. unredact_from restore k (c ∷ (cs ++ rest))) fuel
      ∙ rw (token_at-plain c (cs ++ rest) h.0, unredact_from) refl
      ∙ ap (◌∷◌ c) (unredact-plain cs rest f h.1)

name_run_lem : (run rest : Bytes) → IsName run → name_run (run ++ b']' ∷ rest) ≡ (run, b']' ∷ rest)
unfolding name_run
name_run_lem [] rest h = refl
name_run_lem (c ∷ run) rest h = rw (name_run_lem run rest h.1, h.0)

IsDigit-IsName : (cs : Bytes) → All IsDigit cs → IsName cs
IsDigit-IsName [] h = tt
IsDigit-IsName (c ∷ cs) h = (ground arith, IsDigit-IsName cs h.1)

-- Names around an underscore form a pair.
separator_lem : (cs ds : Bytes) → ds ≢ [] → has_separator (cs ++ b'_' ∷ ds) ≡ true
unfolding has_separator
separator_lem [] [] h = absurd (h refl)
separator_lem [] (d ∷ ds) h = refl
separator_lem (c ∷ []) ds h = rw (separator_lem [] ds h) (ground arith)
separator_lem (c ∷ e ∷ cs) ds h = rw (separator_lem (e ∷ cs) ds h) (ground arith)

is_pair_lem : (ns ds : Bytes) → ns ≢ [] → ds ≢ [] → is_pair (ns ++ b'_' ∷ ds) ≡ true
unfolding is_pair
is_pair_lem [] ds h k = absurd (h refl)
is_pair_lem (c ∷ cs) ds h k = separator_lem cs ds k

snoc-nonempty : (cs : Bytes) (d : ℕ) → cs ++ d ∷ [] ≢ []
snoc-nonempty [] d e = cc
snoc-nonempty (c ∷ cs) d e = cc

or_generic-nonempty : (cs : Bytes) → or_generic cs ≢ []
or_generic-nonempty [] e = cc
or_generic-nonempty (c ∷ cs) e = cc

decimal-nonempty : (n : ℕ) → decimal n ≢ []
unfolding decimal decimal_from
decimal-nonempty n e = elim (Bool-cases (ltb n 10)) [
  | inl small ↦ cc (rw small at e)
  | inr large ↦ snoc-nonempty _ _ (rw large at e)
]

pub normalize-nonempty : (namespace : Bytes) → normalize_namespace namespace ≢ []
unfolding normalize_namespace
normalize-nonempty namespace e = or_generic-nonempty (kept_bytes namespace) e

token_at-token :
    (ns : Bytes) (i : ℕ) (rest : Bytes)
    → IsName ns
    → ns ≢ []
    → token_at (token_of ns i ++ rest) ≡ some (token_of ns i, rest)
unfolding token_at token_of strip_prefix
token_at-token ns i rest h ne =
    let run = ns ++ b'_' ∷ decimal i in
    let name : IsName run =
      All-append (λ c. is_name_byte c ≡ true) ns (b'_' ∷ decimal i) h
        (refl, IsDigit-IsName (decimal i) (decimal-IsDigit i)) in
    let shape : (ns ++ b'_' ∷ (decimal i ++ b']' ∷ [])) ++ rest ≡ run ++ b']' ∷ rest =
      simp append_assoc in
    let back : run ++ b']' ∷ [] ≡ ns ++ b'_' ∷ (decimal i ++ b']' ∷ []) = simp append_assoc in
    ap (λ t. closed_run (name_run t)) shape
    ∙ ap closed_run (name_run_lem run rest name)
    ∙ rw (is_pair_lem ns (decimal i) ne (decimal-nonempty i)) refl
    ∙ ap (λ t. some (token_prefix ++ t, rest)) back

module _ (restore : Bytes → Option Bytes) where
  -- With as much fuel as there are bytes, or more, a text becomes `target`.
  abbrev pub Becomes : Bytes → Bytes → Type 0
  Becomes text target = (f : ℕ) → unredact_from restore (length text + f) text ≡ target

  pub plain-Becomes :
      (plain rest target : Bytes)
      → Lacks b'[' plain
      → Becomes rest target
      → Becomes (plain ++ rest) (plain ++ target)
  plain-Becomes plain rest target h k f =
      let fuel : length (plain ++ rest) + f ≡ length plain + (length rest + f) =
        omega (arith, length-append {0} plain rest) in
      ap (λ n. unredact_from restore n (plain ++ rest)) fuel
      ∙ unredact-plain restore plain rest (length rest + f) h
      ∙ ap (◌++◌ plain) (k f)

  nil-Becomes : Becomes [] []
  unfolding unredact_from
  nil-Becomes f = refl

  pub text-Becomes : (text : Bytes) → Lacks b'[' text → Becomes text text
  text-Becomes text h =
      subst (λ t. Becomes t t) (append-nil text) (plain-Becomes text [] [] h nil-Becomes)

  unredact-step :
      (text token rest : Bytes) (fuel : ℕ)
      → token_at text ≡ some (token, rest)
      → unredact_from restore (suc fuel) text
        ≡ or_token (restore token) token ++ unredact_from restore fuel rest
  unfolding unredact_from
  unredact-step [] token rest fuel e = cc (e, token_at-nil)
  unredact-step (c ∷ cs) token rest fuel e = rw (e, unredact_from) refl

  pub token-Becomes :
      (ns : Bytes) (i : ℕ) (original rest target : Bytes)
      → IsName ns
      → ns ≢ []
      → restore (token_of ns i) ≡ some original
      → Becomes rest target
      → Becomes (token_of ns i ++ rest) (original ++ target)
  unfolding token_of
  token-Becomes ns i original rest target h ne e k f =
      let tail = length (token_of ns i) - 1 + f in
      let fuel : length (token_of ns i ++ rest) + f ≡ suc (length rest + tail) =
        omega (arith, length-append {0} (token_of ns i) rest) in
      ap (λ n. unredact_from restore n (token_of ns i ++ rest)) fuel
      ∙ unredact-step (token_of ns i ++ rest) (token_of ns i) rest (length rest + tail)
          (token_at-token ns i rest h ne)
      ∙ ap₂ ◌++◌ (ap (λ o. or_token o (token_of ns i)) e) (k tail)

pub unredact_lem :
    (restore : Bytes → Option Bytes) (text target : Bytes)
    → Becomes restore text target
    → unredact_text (some restore) text ≡ target
unfolding unredact_text
unredact_lem restore text target h =
    let fuel : length text ≡ length text + 0 = omega arith in
    ap (λ n. unredact_from restore n text) fuel ∙ h 0
