-- ===== src/Ext/TokenVault.antt =====
-- ext/token_vault.go: the vault of redacted originals and the storing of one. Each call of the vault
-- holds its lock, so calls follow one another. A map is a function; a missing key reads as nothing.
pub mod Tokens
pub mod Restores
pub mod Unredact
pub mod Reading
pub mod RoundTrip
use guardy.Base.{
  ℕ, ◌+◌, ◌-◌, ◌%◌, ◌^◌, ltb, leb, ◌==◌, Bool, true, false, not, ◌&&◌, ◌||◌, List, [], ◌∷◌, ◌++◌,
  Option, none, some, if◌then◌else◌, String,
}
use guardy.Fault.Tree.{Error, leaf, wrapped, join}
use guardy.Ext.Bytes.{Bytes, same_bytes, decimal}

-- The failures of storing: `TokenStorageError` by its code and cause.
pub data StorageFault : Type 0 where
  nil_vault empty_token identity_token : StorageFault
  store_failed vault_panic : Error → StorageFault

pub data Stored : Type 0 where
  stored : Bytes → Stored
  refused : StorageFault → Stored

pub record InMemoryTokenVault : Type 0 where
  pub next_by_ns : Bytes → ℕ
  pub pairs : Bytes → Option Bytes
  pub restores : Bytes → Option Bytes

-- `NewInMemoryTokenVault`; the maps of a zero value are made by the first store.
abbrev pub new_vault : InMemoryTokenVault
new_vault = record { next_by_ns = λ ns. 0; pairs = λ key. none; restores = λ token. none }

abbrev pub update {ℓ} : {A : Type ℓ} → (Bytes → A) → Bytes → A → Bytes → A
update f k a j = if same_bytes k j then a else f j

-- The bytes of a canonical namespace.
abbrev pub is_name_byte : ℕ → Bool
is_name_byte c = (leb b'A' c && leb c b'Z') || (leb b'0' c && leb c b'9') || c == b'_'

abbrev pub starts_byte : ℕ → Bytes → Bool
starts_byte c [] = false
starts_byte c (d ∷ ds) = c == d

-- What the byte `c`, before `rest`, leaves of a namespace in upper case. Beside the ASCII letters two
-- runes have an ASCII letter as their upper case, the dotless i and the long s.
unfoldable pub kept_byte : ℕ → Bytes → Bytes
kept_byte c rest =
    if is_name_byte c
    then c ∷ []
    else if leb b'a' c && leb c b'z'
    then (c - 32) ∷ []
    else if c == 196 && starts_byte 177 rest
    then b'I' ∷ []
    else if c == 197 && starts_byte 191 rest
    then b'S' ∷ []
    else []

unfoldable pub kept_bytes : Bytes → Bytes
unfolding kept_byte
kept_bytes [] = []
kept_bytes (c ∷ cs) = kept_byte c cs ++ kept_bytes cs

abbrev pub generic : Bytes
generic = b'G' ∷ b'E' ∷ b'N' ∷ b'E' ∷ b'R' ∷ b'I' ∷ b'C' ∷ []

abbrev pub or_generic : Bytes → Bytes
or_generic [] = generic
or_generic (c ∷ cs) = c ∷ cs

unfoldable pub normalize_namespace : Bytes → Bytes
unfolding kept_bytes
normalize_namespace namespace = or_generic (kept_bytes namespace)

abbrev pub token_prefix : Bytes
token_prefix =
    b'[' ∷ b'G' ∷ b'U' ∷ b'A' ∷ b'R' ∷ b'D' ∷ b'Y' ∷ b'_' ∷ b'T' ∷ b'O' ∷ b'K' ∷ b'E' ∷ b'N' ∷ b'_'
    ∷ []

-- `fmt.Sprintf("[GUARDY_TOKEN_%s_%d]", ns, id)`.
unfoldable pub token_of : Bytes → ℕ → Bytes
token_of ns id = token_prefix ++ (ns ++ b'_' ∷ (decimal id ++ b']' ∷ []))

unfoldable pub pair_key : Bytes → Bytes → Bytes
pair_key ns original = ns ++ 0 ∷ original

-- A uint64 counter wraps.
unfoldable pub next_id : InMemoryTokenVault → Bytes → ℕ
next_id v ns = (v.next_by_ns ns + 1) % 2 ^ 64

unfoldable pub add_token : InMemoryTokenVault → Bytes → Bytes → InMemoryTokenVault
unfolding next_id token_of pair_key
add_token v ns original = record {
  next_by_ns = update v.next_by_ns ns (next_id v ns);
  pairs = update v.pairs (pair_key ns original) (some (token_of ns (next_id v ns)));
  restores = update v.restores (token_of ns (next_id v ns)) (some original);
}

unfoldable pub store_canonical : InMemoryTokenVault → Bytes → Bytes → Bytes × InMemoryTokenVault
unfolding pair_key next_id token_of add_token
store_canonical v ns original = elim (v.pairs (pair_key ns original)) [
  | some token ↦ (token, v)
  | none ↦ (token_of ns (next_id v ns), add_token v ns original)
]

-- `Store` of a vault that is not nil.
unfoldable pub store : InMemoryTokenVault → Bytes → Bytes → Bytes × InMemoryTokenVault
unfolding normalize_namespace store_canonical
store v namespace original = store_canonical v (normalize_namespace namespace) original

-- `Store` and `Restore` of a vault that may be nil.
unfoldable pub store_in :
    Option InMemoryTokenVault → Bytes → Bytes → Stored × Option InMemoryTokenVault
unfolding store
store_in none namespace original = (refused nil_vault, none)
store_in (some v) namespace original =
    let (token, u) = store v namespace original in (stored token, some u)

unfoldable pub restore : Option InMemoryTokenVault → Bytes → Option Bytes
restore none token = none
restore (some v) token = v.restores token

-- The stores of a host, one after another.
unfoldable pub store_all :
    List (Bytes × Bytes) → InMemoryTokenVault → List Bytes × InMemoryTokenVault
unfolding store
store_all [] v = ([], v)
store_all ((namespace, original) ∷ requests) v =
    let (token, u) = store v namespace original in
    let (tokens, t) = store_all requests u in (token ∷ tokens, t)

-- A `TokenVault`, of the library or of the host: it stores, maybe with an error, or panics.
pub data Answer : Type 0 where
  answered : Bytes → Option Error → Answer
  panics : Error → Answer

abbrev pub is_nil {ℓ} : {A : Type ℓ} → List A → Bool
is_nil [] = true
is_nil (x ∷ xs) = false

-- What `storeRedaction` makes of the answer.
unfoldable pub check_token : Bytes → Answer → Stored
check_token original (panics e) = refused (vault_panic e)
check_token original (answered token (some e)) = refused (store_failed e)
check_token original (answered token none) =
    if is_nil token
    then refused empty_token
    else if same_bytes token original
    then refused identity_token
    else stored token

abbrev pub TokenVault : Type 0 → Type 0
TokenVault W = W → Bytes → Bytes → Answer × W

module _ {W : Type 0} where
  -- Without a vault the replacement stands for the original and cannot be undone.
  unfoldable pub store_redaction : Option (TokenVault W) → Bytes → Bytes → W → Bytes → Stored × W
  unfolding check_token
  store_redaction none namespace replacement w original = (stored replacement, w)
  store_redaction (some vault) namespace replacement w original =
      let (answer, v) = vault w namespace original in (check_token original answer, v)

-- `Unwrap` joins the sentinel of the extension with the cause.
abbrev pub token_storage : Error
token_storage = leaf "ext: token storage failed"

unfoldable pub storage_error : StorageFault → Error
storage_error (store_failed e) = wrapped "ext: token storage failed" (join (some token_storage) e)
storage_error (vault_panic e) = wrapped "ext: token storage failed" (join (some token_storage) e)
storage_error _ = wrapped "ext: token storage failed" (join none token_storage)

-- The vault of the library behind the interface, with itself as the world.
unfoldable pub as_token_vault : TokenVault InMemoryTokenVault
unfolding store
as_token_vault v namespace original =
    let (token, u) = store v namespace original in (answered token none, u)
