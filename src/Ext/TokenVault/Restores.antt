-- ===== src/Ext/TokenVault/Restores.antt =====
-- What the vault hands out and what it gives back.
use guardy.Base.{
  ℕ, ◌+◌, ◌^◌, ◌≤◌, ◌<◌, List, [], ◌∷◌, ◌≡◌, refl, sym, ap, ap₂, ◌∙◌, subst, arith, Option, none,
  some, map, length, Bool-cases, Option-cases, inl, inr,
}
use guardy.Ext.Bytes.{Bytes, same_bytes, same_bytes_refl, same_bytes-eq}
use guardy.Ext.TokenVault.{
  InMemoryTokenVault, new_vault, update, normalize_namespace, token_of, pair_key, next_id,
  add_token, store_canonical, store, store_all, restore,
}
use guardy.Ext.TokenVault.Tokens.{IsName, normalize-IsName, token_inj, pair_key_inj}

pub update_self {ℓ} : {A : Type ℓ} (f : Bytes → A) (k : Bytes) (a : A) → update f k a k ≡ a
update_self f k a = rw (same_bytes_refl k)

pub update_other {ℓ} :
    {A : Type ℓ} (f : Bytes → A) (k : Bytes) (a : A) (j : Bytes)
    → (k ≡ j → ⊥)
    → update f k a j ≡ f j
update_other f k a j h = elim (Bool-cases (same_bytes k j)) [
  | inl e ↦ absurd (h (same_bytes-eq k j e))
  | inr e ↦ rw e
]

some_inj {ℓ} : {A : Type ℓ} {a b : A} → some a ≡ some b → a ≡ b
some_inj e = cc

none≢some : {A : Type 0} {a : A} → none ≡ some a → ⊥
none≢some e = cc

-- A vault after at most `n` stores: what a pair was given is a token of its namespace and restores to
-- it, and no token with a number above the counter of its namespace is in use.
pub record Kept (n : ℕ) (v : InMemoryTokenVault) : Type 0 where
  pub counted : (ns : Bytes) → v.next_by_ns ns ≤ n
  pub sound :
      (ns x t : Bytes) → IsName ns → v.pairs (pair_key ns x) ≡ some t → v.restores t ≡ some x
  pub named :
      (ns x t : Bytes)
      → IsName ns
      → v.pairs (pair_key ns x) ≡ some t
      → (i : ℕ) × (t ≡ token_of ns i)
  pub fresh : (ns : Bytes) (i : ℕ) → v.next_by_ns ns < i → v.restores (token_of ns i) ≡ none

-- What the vault restores it goes on to restore.
abbrev pub Extends : InMemoryTokenVault → InMemoryTokenVault → Type 0
Extends v u = (t x : Bytes) → v.restores t ≡ some x → u.restores t ≡ some x

module _ (n : ℕ) (v : InMemoryTokenVault) (k : Kept n v) (few : n + 1 < 2 ^ 64)
    (ns original : Bytes) where
  next_id_lem : next_id v ns ≡ v.next_by_ns ns + 1
  unfolding next_id
  next_id_lem = omega (arith, k.counted ns)

  new-unused : v.restores (token_of ns (next_id v ns)) ≡ none
  new-unused = k.fresh ns (next_id v ns) (omega (arith, next_id_lem))

  add_token-Extends : Extends v (add_token v ns original)
  unfolding add_token
  add_token-Extends t x e =
      update_other v.restores (token_of ns (next_id v ns)) (some original) t
        (λ p. cc (new-unused, ap v.restores p))
      ∙ e

  add_token-counted : (ms : Bytes) → (add_token v ns original).next_by_ns ms ≤ n + 1
  unfolding add_token
  add_token-counted ms = elim (Bool-cases (same_bytes ns ms)) [
    | inl e ↦ rw e (omega (arith, next_id_lem, k.counted ns))
    | inr e ↦ rw e (omega (arith, k.counted ms))
  ]

  add_token_sound :
      (ms x t : Bytes)
      → IsName ns
      → IsName ms
      → (add_token v ns original).pairs (pair_key ms x) ≡ some t
      → (add_token v ns original).restores t ≡ some x
  unfolding add_token
  add_token_sound ms x t h g e =
      elim (Bool-cases (same_bytes (pair_key ns original) (pair_key ms x))) [
        | inl p ↦
            let (_, same) = pair_key_inj ns ms original x h g (same_bytes-eq _ _ p) in
            let given : token_of ns (next_id v ns) ≡ t = some_inj (rw p at e) in
            subst (λ u. update v.restores (token_of ns (next_id v ns)) (some original) u ≡ some x)
              given
              (update_self v.restores (token_of ns (next_id v ns)) (some original) ∙ ap some same)
        | inr p ↦ add_token-Extends t x (k.sound ms x t g (rw p at e))
      ]

  add_token-named :
      (ms x t : Bytes)
      → IsName ns
      → IsName ms
      → (add_token v ns original).pairs (pair_key ms x) ≡ some t
      → (i : ℕ) × (t ≡ token_of ms i)
  unfolding add_token
  add_token-named ms x t h g e =
      elim (Bool-cases (same_bytes (pair_key ns original) (pair_key ms x))) [
        | inl p ↦
            let (same, _) = pair_key_inj ns ms original x h g (same_bytes-eq _ _ p) in
            let given : token_of ns (next_id v ns) ≡ t = some_inj (rw p at e) in
            (next_id v ns, sym given ∙ ap (λ k. token_of k (next_id v ns)) same)
        | inr p ↦ k.named ms x t g (rw p at e)
      ]

  add_token-fresh :
      (ms : Bytes) (i : ℕ)
      → (add_token v ns original).next_by_ns ms < i
      → (add_token v ns original).restores (token_of ms i) ≡ none
  unfolding add_token
  add_token-fresh ms i h = elim (Bool-cases (same_bytes ns ms)) [
    | inl p ↦
        let above : next_id v ns < i = rw p at h in
        let e : ns ≡ ms = same_bytes-eq ns ms p in
        update_other v.restores _ (some original) (token_of ms i)
          (λ (q : token_of ns (next_id v ns) ≡ token_of ms i).
            absurd (omega (arith, (token_inj ns ms (next_id v ns) i q).1)))
        ∙ k.fresh ms i (omega (arith, ap v.next_by_ns e, next_id_lem))
    | inr p ↦
        let above : v.next_by_ns ms < i = rw p at h in
        update_other v.restores _ (some original) (token_of ms i)
          (λ (q : token_of ns (next_id v ns) ≡ token_of ms i).
            cc (p, ap (same_bytes ns) (token_inj ns ms (next_id v ns) i q).0, same_bytes_refl ns))
        ∙ k.fresh ms i above
  ]

  add_token-Kept : IsName ns → Kept (n + 1) (add_token v ns original)
  add_token-Kept h = record {
    counted = add_token-counted;
    sound = λ ms x t g e. add_token_sound ms x t h g e;
    named = λ ms x t g e. add_token-named ms x t h g e;
    fresh = add_token-fresh;
  }

  add_token-restores :
      (add_token v ns original).restores (token_of ns (next_id v ns)) ≡ some original
  unfolding add_token
  add_token-restores = update_self v.restores (token_of ns (next_id v ns)) (some original)

  Kept-suc : Kept (n + 1) v
  Kept-suc = record {
    counted = λ ms. omega (arith, k.counted ms);
    sound = k.sound;
    named = k.named;
    fresh = k.fresh;
  }

-- A store from such a vault.
abbrev pub Good : ℕ → InMemoryTokenVault → Bytes → Bytes → Bytes × InMemoryTokenVault → Type 0
Good n v ns x (t, u) =
    Kept (n + 1) u × Extends v u × (u.restores t ≡ some x) × ((i : ℕ) × (t ≡ token_of ns i))

pub store-Good :
    (n : ℕ) (v : InMemoryTokenVault) (namespace original : Bytes)
    → Kept n v
    → n + 1 < 2 ^ 64
    → Good n v (normalize_namespace namespace) original (store v namespace original)
unfolding store store_canonical
store-Good n v namespace original k few =
    let ns = normalize_namespace namespace in
    let name = normalize-IsName namespace in
    elim (Option-cases (v.pairs (pair_key ns original))) [
      | inl e ↦
          rw (e, store_canonical)
            (
              add_token-Kept n v k few ns original name,
              add_token-Extends n v k few ns original,
              add_token-restores n v k few ns original,
              (next_id v ns, refl),
            )
      | inr (t, e) ↦
          rw (e, store_canonical)
            (
              Kept-suc n v k few ns original,
              λ u x h. h,
              k.sound ns original t name e,
              k.named ns original t name e,
            )
    ]

pub new_vault-Kept : Kept 0 new_vault
new_vault-Kept = record {
  counted = λ ns. omega arith;
  sound = λ ns x t h e. cc;
  named = λ ns x t h e. absurd (none≢some e);
  fresh = λ ns i h. refl;
}

-- What each token of a list restores to.
abbrev pub restored : InMemoryTokenVault → List Bytes → List (Option Bytes)
restored v tokens = map (λ t. restore (some v) t) tokens

abbrev pub originals : List (Bytes × Bytes) → List (Option Bytes)
originals requests = map (λ r. some r.1) requests

-- From a vault in order, the tokens of all the requests restore, and those given before still do.
abbrev AllGood :
    ℕ → InMemoryTokenVault → List (Bytes × Bytes) → List Bytes × InMemoryTokenVault → Type 0
AllGood n v requests (tokens, u) = Extends v u × (restored u tokens ≡ originals requests)

store_all-AllGood :
    (requests : List (Bytes × Bytes)) (n : ℕ) (v : InMemoryTokenVault)
    → Kept n v
    → n + length requests < 2 ^ 64
    → AllGood n v requests (store_all requests v)
unfolding store_all restore
store_all-AllGood [] n v k few = ((λ t x h. h), refl)
store_all-AllGood ((namespace, original) ∷ requests) n v k few =
    let (kept, extends, given, _) = store-Good n v namespace original k (omega arith) in
    let (more, rest) =
      store_all-AllGood requests (n + 1) (store v namespace original).1 kept (omega arith) in
    ((λ t x h. more t x (extends t x h)), ap₂ ◌∷◌ (more _ _ given) rest)

-- Up to 2^64 - 1 stores of a new vault, of whatever namespaces and originals, give tokens of which
-- each one restores the original that it was given for, once all of them are stored: no later store
-- takes the place of an earlier one.
pub store_all-restored :
    (requests : List (Bytes × Bytes))
    → length requests < 2 ^ 64
    → restored (store_all requests new_vault).1 (store_all requests new_vault).0
      ≡ originals requests
store_all-restored requests few =
    (store_all-AllGood requests 0 new_vault new_vault-Kept (omega arith)).1
