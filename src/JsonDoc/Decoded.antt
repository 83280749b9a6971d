-- ===== src/JsonDoc/Decoded.antt =====
-- Decoding ends on all tokens.
use guardy.Base.{
  ℕ, zero, suc, ◌+◌, ◌≤◌, ◌==◌, ◌≢◌, arith, List, [], ◌∷◌, Bool-cases, inl, inr, String,
}
use guardy.Ext.Bytes.{Bytes}
use guardy.JsonDoc.Scanner.{has_key}
use guardy.JsonDoc.Reading.{
  nothing, truth, literal_number, literal_text, Token, delimiter, scalar, Tokens, ended, broken,
  next, Value, Fields, no_field, Items, no_item, Read, got, bad, exhausted, more, then_read,
  described, value_from, key_from, token, closed, read_value, read_fields, read_items, count,
  decode, sole_value,
}

-- The reading ended, and if it gave a value it took a token at least of `n`.
abbrev Left : {A : Type 0} → ℕ → Read A → Type 0
Left n (got a ts) = suc (count ts) ≤ n
Left n (bad e) = Unit
Left n exhausted = ⊥

then_read-Left :
    {A B : Type 0} (m n : ℕ) (r : Read A) (k : A → Tokens → Read B)
    → Left m r
    → ((a : A) (ts : Tokens) → suc (count ts) ≤ m → Left n (k a ts))
    → Left n (then_read r k)
then_read-Left m n (got a ts) k h g = g a ts h
then_read-Left m n (bad e) k h g = tt
then_read-Left m n exhausted k h g = absurd h

token-Left : (what : String) (ts : Tokens) → Left (count ts) (described what (token ts))
unfolding count
token-Left what ended = tt
token-Left what (broken m e) = tt
token-Left what (next t ts) = omega arith

value_from-Left :
    (n : ℕ) (obj arr : Tokens → Read Value) (t : Token) (ts : Tokens)
    → suc (count ts) ≤ n
    → Left n (obj ts)
    → Left n (arr ts)
    → Left n (value_from obj arr t ts)
value_from-Left n obj arr (scalar s) ts l o a = l
value_from-Left n obj arr (delimiter d) ts l o a = elim (Bool-cases (d == b'{')) [
  | inl e ↦ rw e o
  | inr e ↦ elim (Bool-cases (d == b'[')) [ inl f ↦ rw (e, f) a | inr f ↦ rw (e, f) tt ]
]

key_from-Left :
    (n : ℕ) (keys : List Bytes) (k : Bytes → Tokens → Read Fields) (t : Token) (ts : Tokens)
    → ((name : Bytes) → Left n (k name ts))
    → Left n (key_from keys k t ts)
key_from-Left n keys k (delimiter d) ts h = tt
key_from-Left n keys k (scalar nothing) ts h = tt
key_from-Left n keys k (scalar (truth b)) ts h = tt
key_from-Left n keys k (scalar (literal_number d)) ts h = tt
key_from-Left n keys k (scalar (literal_text name)) ts h = elim (Bool-cases (has_key name keys)) [
  | inl e ↦ rw e tt
  | inr e ↦ rw e (h name)
]

closed-Left :
    {A : Type 0} (what : String) (a : A) (ts : Tokens)
    → Left (count ts) (then_read (described what (token ts)) (closed a))
closed-Left what a ts =
    then_read-Left (count ts) (count ts) (described what (token ts)) (closed a) (token-Left what ts)
      (λ t us l. l)

mutual
  unfolding read_value

  read_value-Left :
      (fuel : ℕ) (ts : Tokens)
      → count ts + count ts + 1 ≤ fuel
      → Left (count ts) (read_value fuel ts)
  read_value-Left zero ts l = absurd (omega arith)
  read_value-Left (suc f) ts l =
      then_read-Left (count ts) (count ts) (described "read JSON value" (token ts)) _
        (token-Left "read JSON value" ts)
        (λ (t : Token) (us : Tokens) (s : suc (count us) ≤ count ts).
          value_from-Left (count ts) _ _ t us s
            (then_read-Left (count us) (count ts) (read_fields f [] us) _
              (read_fields-Left f [] us (omega arith))
              (λ (fs : Fields) (vs : Tokens) (q : suc (count vs) ≤ count us). omega arith))
            (then_read-Left (count us) (count ts) (read_items f us) _
              (read_items-Left f us (omega arith))
              (λ (xs : Items) (vs : Tokens) (q : suc (count vs) ≤ count us). omega arith)))

  read_fields-Left :
      (fuel : ℕ) (keys : List Bytes) (ts : Tokens)
      → count ts + count ts + 2 ≤ fuel
      → Left (count ts) (read_fields fuel keys ts)
  read_fields-Left zero keys ts l = absurd (omega arith)
  read_fields-Left (suc f) keys ts l = elim (Bool-cases (more ts)) [
    | inr e ↦ rw (e, read_fields) (closed-Left "close JSON object" no_field ts)
    | inl e ↦
        rw (e, read_fields)
          (then_read-Left (count ts) (count ts) (described "read JSON key" (token ts)) _
            (token-Left "read JSON key" ts)
            (λ (t : Token) (us : Tokens) (s : suc (count us) ≤ count ts).
              key_from-Left (count ts) keys _ t us (λ (name : Bytes).
                then_read-Left (count us) (count ts) (read_value f us) _
                  (read_value-Left f us (omega arith))
                  (λ (v : Value) (vs : Tokens) (q : suc (count vs) ≤ count us).
                    then_read-Left (count vs) (count ts) (read_fields f (name ∷ keys) vs) _
                      (read_fields-Left f (name ∷ keys) vs (omega arith))
                      (λ (fs : Fields) (ws : Tokens) (r : suc (count ws) ≤ count vs).
                        omega arith)))))
  ]

  read_items-Left :
      (fuel : ℕ) (ts : Tokens)
      → count ts + count ts + 2 ≤ fuel
      → Left (count ts) (read_items fuel ts)
  read_items-Left zero ts l = absurd (omega arith)
  read_items-Left (suc f) ts l = elim (Bool-cases (more ts)) [
    | inr e ↦ rw (e, read_items) (closed-Left "close JSON array" no_item ts)
    | inl e ↦
        rw (e, read_items)
          (then_read-Left (count ts) (count ts) (read_value f ts) _
            (read_value-Left f ts (omega arith))
            (λ (v : Value) (vs : Tokens) (q : suc (count vs) ≤ count ts).
              then_read-Left (count vs) (count ts) (read_items f vs) _
                (read_items-Left f vs (omega arith))
                (λ (xs : Items) (ws : Tokens) (r : suc (count ws) ≤ count vs). omega arith)))
  ]

-- Decoding gives a document or an error for all tokens, also those that are no document's: the bound
-- that their number gives is enough.
pub decode-ends : (ts : Tokens) → decode ts ≢ exhausted
unfolding decode
decode-ends ts =
    go (read_value (count ts + count ts + 2) ts)
      (read_value-Left (count ts + count ts + 2) ts (omega arith))
  where
    go : (r : Read Value) → Left (count ts) r → then_read r sole_value ≢ exhausted
    go (got v ended) h e = cc
    go (got v (broken m x)) h e = cc
    go (got v (next t us)) h e = cc
    go (bad x) h e = cc
    go exhausted h e = absurd h
