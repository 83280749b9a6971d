-- ===== src/Ext/TokenVault/Unredact.antt =====
-- ext/token_vault.go: `UnredactText`, which looks for what the expression
-- `\[GUARDY_TOKEN_[A-Z0-9_]+_[A-Z0-9_]+\]` matches, from the left and one match behind the other.
use guardy.Base.{
  ℕ, zero, suc, ◌==◌, Bool, false, ◌&&◌, ◌||◌, [], ◌∷◌, ◌++◌, Option, none, some, if◌then◌else◌,
  length,
}
use guardy.Ext.Bytes.{Bytes}
use guardy.Ext.TokenVault.{is_name_byte, token_prefix}

-- What is behind a prefix.
unfoldable pub strip_prefix : Bytes → Bytes → Option Bytes
strip_prefix [] text = some text
strip_prefix (p ∷ ps) [] = none
strip_prefix (p ∷ ps) (c ∷ cs) = if p == c then strip_prefix ps cs else none

-- The longest run of bytes of the class, and what is behind it. The bracket that has to follow is not
-- of the class, so that no shorter run matches.
unfoldable pub name_run : Bytes → Bytes × Bytes
name_run [] = ([], [])
name_run (c ∷ cs) =
    let (run, rest) = name_run cs in if is_name_byte c then (c ∷ run, rest) else ([], c ∷ cs)

-- An underscore that is not the last byte.
unfoldable pub has_separator : Bytes → Bool
has_separator [] = false
has_separator (c ∷ []) = false
has_separator (c ∷ d ∷ ds) = c == b'_' || has_separator (d ∷ ds)

-- The run is two names around an underscore.
unfoldable pub is_pair : Bytes → Bool
unfolding has_separator
is_pair [] = false
is_pair (c ∷ cs) = has_separator cs

abbrev pub closed_run : Bytes × Bytes → Option (Bytes × Bytes)
closed_run (run, []) = none
closed_run (run, c ∷ rest) =
    if c == b']' && is_pair run then some (token_prefix ++ (run ++ b']' ∷ []), rest) else none

abbrev pub after_prefix : Option Bytes → Option (Bytes × Bytes)
after_prefix none = none
after_prefix (some text) = closed_run (name_run text)

-- The token at the front of a text, and the rest.
unfoldable pub token_at : Bytes → Option (Bytes × Bytes)
unfolding strip_prefix name_run is_pair
token_at text = after_prefix (strip_prefix token_prefix text)

abbrev pub or_token : Option Bytes → Bytes → Bytes
or_token none token = token
or_token (some original) token = original

-- A match takes a byte at least, so the length of the text bounds the rounds.
unfoldable pub unredact_from : (Bytes → Option Bytes) → ℕ → Bytes → Bytes
unredact_from restore fuel [] = []
unredact_from restore zero (c ∷ cs) = c ∷ cs
unredact_from restore (suc fuel) (c ∷ cs) = elim (token_at (c ∷ cs)) [
  | none ↦ c ∷ unredact_from restore fuel cs
  | some (token, rest) ↦ or_token (restore token) token ++ unredact_from restore fuel rest
]

unfoldable pub unredact_text : Option (Bytes → Option Bytes) → Bytes → Bytes
unfolding unredact_from token_at
unredact_text none text = text
unredact_text (some restore) text = unredact_from restore (length text) text
