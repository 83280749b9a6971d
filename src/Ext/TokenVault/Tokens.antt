-- ===== src/Ext/TokenVault/Tokens.antt =====
-- The namespaces, tokens and keys of the vault: what tells two of them apart.
use guardy.Base.{ℕ, true, [], ◌∷◌, ◌++◌, ◌≡◌, arith, All, All-append}
use mathlib.Core.List.{append_cancel_left, append_cancel_right}
use guardy.Ext.Bytes.{
  Bytes, decimal, decimal_inj, decimal-IsDigit, IsDigit, Lacks, split_first, split_last,
}
use guardy.Ext.TokenVault.{
  is_name_byte, kept_byte, kept_bytes, or_generic, normalize_namespace, token_prefix, token_of,
  pair_key,
}

-- A canonical namespace: letters in upper case, digits and underscores.
abbrev pub IsName : Bytes → Type 0
IsName = All (λ c. is_name_byte c ≡ true)

kept_byte-IsName : (c : ℕ) (cs : Bytes) → IsName (kept_byte c cs)
unfolding kept_byte
kept_byte-IsName c cs = ground arith

kept_bytes-IsName : (cs : Bytes) → IsName (kept_bytes cs)
unfolding kept_bytes
kept_bytes-IsName [] = tt
kept_bytes-IsName (c ∷ cs) =
    All-append (λ c. is_name_byte c ≡ true) (kept_byte c cs) (kept_bytes cs) (kept_byte-IsName c cs)
      (kept_bytes-IsName cs)

or_generic-IsName : (cs : Bytes) → IsName cs → IsName (or_generic cs)
or_generic-IsName [] h = ground arith
or_generic-IsName (c ∷ cs) h = h

pub normalize-IsName : (namespace : Bytes) → IsName (normalize_namespace namespace)
unfolding normalize_namespace
normalize-IsName namespace = or_generic-IsName _ (kept_bytes-IsName namespace)

IsName-Lacks : (cs : Bytes) → IsName cs → Lacks 0 cs
IsName-Lacks [] h = tt
IsName-Lacks (c ∷ cs) h = (λ e. ground arith, IsName-Lacks cs h.1)

digits-Lacks : (cs : Bytes) → All IsDigit cs → Lacks b'_' (cs ++ b']' ∷ [])
digits-Lacks [] h = (λ e. ground arith, tt)
digits-Lacks (c ∷ cs) h = (λ e. ground arith, digits-Lacks cs h.1)

-- A token tells its namespace and its number, though both may hold underscores and digits.
pub token_inj : (ns ns' : Bytes) (i j : ℕ) → token_of ns i ≡ token_of ns' j → (ns ≡ ns') × (i ≡ j)
unfolding token_of
token_inj ns ns' i j e =
    let (p, q) =
      split_last b'_' ns ns' (decimal i ++ b']' ∷ []) (decimal j ++ b']' ∷ [])
        (digits-Lacks (decimal i) (decimal-IsDigit i))
        (digits-Lacks (decimal j) (decimal-IsDigit j)) (append_cancel_left token_prefix _ _ e) in
    (p, decimal_inj i j (append_cancel_right (decimal i) (decimal j) (b']' ∷ []) q))

pub pair_key_inj :
    (ns ns' x y : Bytes)
    → IsName ns
    → IsName ns'
    → pair_key ns x ≡ pair_key ns' y
    → (ns ≡ ns') × (x ≡ y)
unfolding pair_key
pair_key_inj ns ns' x y h k e = split_first 0 ns ns' x y (IsName-Lacks ns h) (IsName-Lacks ns' k) e
