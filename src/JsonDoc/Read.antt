-- ===== src/JsonDoc/Read.antt =====
-- A document is read from its tokens, unless an object has a key twice.
use guardy.Base.{
  ℕ, zero, suc, ◌+◌, ◌*◌, ◌≤◌, max, Bool, true, false, not, ◌&&◌, ◌≡◌, refl, ap, ◌∙◌, arith, List,
  [], ◌∷◌, if◌then◌else◌, Bool-cases, inl, inr,
}
use guardy.Ext.Bytes.{Bytes}
use guardy.JsonDoc.Scanner.{has_key, duplicate_key}
use guardy.JsonDoc.Reading.{
  literal_text, delimiter, scalar, Tokens, ended, next, Value, single, object, array, Fields,
  no_field, field, Items, no_item, item, Read, got, bad, more, then_read, read_value, read_fields,
  read_items, count, decode, sole_value,
}

-- The tokens of a document, before those that follow.
unfoldable mutual
  pub tokens_of : Value → Tokens → Tokens
  tokens_of (single s) ts = next (scalar s) ts
  tokens_of (object fs) ts = next (delimiter b'{') (tokens_of_fields fs (next (delimiter b'}') ts))
  tokens_of (array xs) ts = next (delimiter b'[') (tokens_of_items xs (next (delimiter b']') ts))

  pub tokens_of_fields : Fields → Tokens → Tokens
  tokens_of_fields no_field ts = ts
  tokens_of_fields (field name v fs) ts =
      next (scalar (literal_text name)) (tokens_of v (tokens_of_fields fs ts))

  pub tokens_of_items : Items → Tokens → Tokens
  tokens_of_items no_item ts = ts
  tokens_of_items (item v xs) ts = tokens_of v (tokens_of_items xs ts)

-- No object has a key twice.
unfoldable mutual
  pub distinct : Value → Bool
  distinct (single s) = true
  distinct (object fs) = distinct_fields [] fs
  distinct (array xs) = distinct_items xs

  pub distinct_fields : List Bytes → Fields → Bool
  distinct_fields keys no_field = true
  distinct_fields keys (field name v fs) =
      not (has_key name keys) && (distinct v && distinct_fields (name ∷ keys) fs)

  pub distinct_items : Items → Bool
  distinct_items no_item = true
  distinct_items (item v xs) = distinct v && distinct_items xs

abbrev pub outcome : {A : Type 0} → Bool → A → Tokens → Read A
outcome true a ts = got a ts
outcome false a ts = bad duplicate_key

then_outcome :
    {A B : Type 0} (b c : Bool) (a : A) (ts us : Tokens) (r : B) (k : A → Tokens → Read B)
    → k a ts ≡ outcome c r us
    → then_read (outcome b a ts) k ≡ outcome (b && c) r us
then_outcome true c a ts us r k e = e
then_outcome false c a ts us r k e = refl

wrap_outcome :
    {A B : Type 0} (b : Bool) (a : A) (ts : Tokens) (f : A → B)
    → then_read (outcome b a ts) (λ x us. got (f x) us) ≡ outcome b (f a) ts
wrap_outcome true a ts f = refl
wrap_outcome false a ts f = refl

unfoldable mutual
  size : Value → ℕ
  size (single s) = 1
  size (object fs) = suc (size_fields fs)
  size (array xs) = suc (size_items xs)

  size_fields : Fields → ℕ
  size_fields no_field = 1
  size_fields (field name v fs) = suc (max (size v) (size_fields fs))

  size_items : Items → ℕ
  size_items no_item = 1
  size_items (item v xs) = suc (max (size v) (size_items xs))

opens-more : (v : Value) (ts : Tokens) → more (tokens_of v ts) ≡ true
unfolding tokens_of
opens-more (single s) ts = refl
opens-more (object fs) ts = refl
opens-more (array xs) ts = refl

mutual
  unfolding read_value tokens_of distinct size

  read_value_lem :
      (v : Value) (fuel : ℕ) (ts : Tokens)
      → size v ≤ fuel
      → read_value fuel (tokens_of v ts) ≡ outcome (distinct v) v ts
  read_value_lem (single s) zero ts l = absurd (omega arith)
  read_value_lem (object fs) zero ts l = absurd (omega arith)
  read_value_lem (array xs) zero ts l = absurd (omega arith)
  read_value_lem (single s) (suc f) ts l = refl
  read_value_lem (object fs) (suc f) ts l =
      ap (λ r. then_read r (λ x us. got (object x) us)) (read_fields_lem fs f [] ts (omega arith))
      ∙ wrap_outcome (distinct_fields [] fs) fs ts object
  read_value_lem (array xs) (suc f) ts l =
      ap (λ r. then_read r (λ x us. got (array x) us)) (read_items_lem xs f ts (omega arith))
      ∙ wrap_outcome (distinct_items xs) xs ts array

  read_fields_lem :
      (fs : Fields) (fuel : ℕ) (keys : List Bytes) (ts : Tokens)
      → size_fields fs ≤ fuel
      → read_fields fuel keys (tokens_of_fields fs (next (delimiter b'}') ts))
        ≡ outcome (distinct_fields keys fs) fs ts
  read_fields_lem no_field zero keys ts l = absurd (omega arith)
  read_fields_lem (field name v fs) zero keys ts l = absurd (omega arith)
  read_fields_lem no_field (suc f) keys ts l = refl
  read_fields_lem (field name v fs) (suc f) keys ts l = elim (Bool-cases (has_key name keys)) [
    | inl e ↦ rw e refl
    | inr e ↦
        let tail = tokens_of_fields fs (next (delimiter b'}') ts) in
        let k : Value → Tokens → Read Fields = λ x left.
          then_read (read_fields f (name ∷ keys) left) (λ ys last. got (field name x ys) last) in
        rw e (
          ap (λ r. then_read r k) (read_value_lem v f tail (omega arith))
          ∙ then_outcome (distinct v) (distinct_fields (name ∷ keys) fs) v tail ts (field name v fs)
              k
              (ap (λ r. then_read r (λ ys last. got (field name v ys) last))
                  (read_fields_lem fs f (name ∷ keys) ts (omega arith))
                ∙ wrap_outcome (distinct_fields (name ∷ keys) fs) fs ts (λ ys. field name v ys)))
  ]

  read_items_lem :
      (xs : Items) (fuel : ℕ) (ts : Tokens)
      → size_items xs ≤ fuel
      → read_items fuel (tokens_of_items xs (next (delimiter b']') ts))
        ≡ outcome (distinct_items xs) xs ts
  read_items_lem no_item zero ts l = absurd (omega arith)
  read_items_lem (item v xs) zero ts l = absurd (omega arith)
  read_items_lem no_item (suc f) ts l = refl
  read_items_lem (item v xs) (suc f) ts l =
      let tail = tokens_of_items xs (next (delimiter b']') ts) in
      let k : Value → Tokens → Read Items =
        λ x left. then_read (read_items f left) (λ ys last. got (item x ys) last) in
      rw (opens-more v tail, read_items)
        (ap (λ r. then_read r k) (read_value_lem v f tail (omega arith))
          ∙ then_outcome (distinct v) (distinct_items xs) v tail ts (item v xs) k (
              ap (λ r. then_read r (λ ys last. got (item v ys) last))
                (read_items_lem xs f ts (omega arith))
              ∙ wrap_outcome (distinct_items xs) xs ts (λ ys. item v ys)))

mutual
  unfolding tokens_of size count

  size-le : (v : Value) (ts : Tokens) → size v + 2 * count ts ≤ 2 * count (tokens_of v ts)
  size-le (single s) ts = omega arith
  size-le (object fs) ts = omega (arith, size_fields-le fs (next (delimiter b'}') ts))
  size-le (array xs) ts = omega (arith, size_items-le xs (next (delimiter b']') ts))

  size_fields-le :
      (fs : Fields) (ts : Tokens)
      → size_fields fs + 2 * count ts ≤ 2 * count (tokens_of_fields fs ts) + 1
  size_fields-le no_field ts = omega arith
  size_fields-le (field name v fs) ts =
      omega (arith, size-le v (tokens_of_fields fs ts), size_fields-le fs ts, size-pos v)

  size_items-le :
      (xs : Items) (ts : Tokens)
      → size_items xs + 2 * count ts ≤ 2 * count (tokens_of_items xs ts) + 1
  size_items-le no_item ts = omega arith
  size_items-le (item v xs) ts =
      omega (arith, size-le v (tokens_of_items xs ts), size_items-le xs ts, size-pos v)

  size-pos : (v : Value) → 1 ≤ size v
  size-pos (single s) = omega arith
  size-pos (object fs) = omega arith
  size-pos (array xs) = omega arith

-- Decoding the tokens of a document gives the document back if no object has a key twice, and the error
-- for a duplicate key if one has.
pub decode-tokens_of :
    (v : Value)
    → decode (tokens_of v ended) ≡ (if distinct v then got v ended else bad duplicate_key)
unfolding decode count
decode-tokens_of v =
    ap (λ r. then_read r sole_value)
      (read_value_lem v (count (tokens_of v ended) + count (tokens_of v ended) + 2) ended
        (omega (arith, size-le v ended)))
    ∙ settled (distinct v)
  where
    settled :
        (b : Bool)
        → then_read (outcome b v ended) sole_value ≡ (if b then got v ended else bad duplicate_key)
    settled true = refl
    settled false = refl
