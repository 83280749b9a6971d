-- ===== src/JsonDoc/Reading.antt =====
-- `Decode`, over the tokens that `json.Decoder` gives with `UseNumber`: readValue, readObject, readArray.
use guardy.Base.{
  ℕ, zero, suc, ◌+◌, ◌==◌, Bool, true, false, not, ◌||◌, List, [], ◌∷◌, if◌then◌else◌, String,
}
use guardy.Fault.Tree.{Error, leaf, annotated}
use guardy.Ext.Bytes.{Bytes}
use guardy.JsonDoc.Scanner.{has_key, one_value, duplicate_key}

pub data Scalar : Type 0 where
  nothing : Scalar
  truth : Bool → Scalar
  literal_number literal_text : Bytes → Scalar

pub data Token : Type 0 where
  delimiter : ℕ → Token
  scalar : Scalar → Token

-- What the decoder still has: tokens, and then the end of the text or a syntax error, at which `More`
-- still may say that an entry follows.
pub data Tokens : Type 0 where
  ended : Tokens
  broken : Bool → Error → Tokens
  next : Token → Tokens → Tokens

-- A document: an object has its members in their order.
mutual
  pub data Value : Type 0 where
    single : Scalar → Value
    object : Fields → Value
    array : Items → Value

  pub data Fields : Type 0 where
    no_field : Fields
    field : Bytes → Value → Fields → Fields

  pub data Items : Type 0 where
    no_item : Items
    item : Value → Items → Items

pub data Read (A : Type 0) : Type 0 where
  got : A → Tokens → Read A
  bad : Error → Read A
  exhausted : Read A

-- io.EOF.
abbrev pub eof : Error
eof = leaf "EOF"

-- `Token`.
abbrev pub token : Tokens → Read Token
token ended = bad eof
token (broken m e) = bad e
token (next t ts) = got t ts

abbrev pub closes : Token → Bool
closes (delimiter d) = d == b'}' || d == b']'
closes (scalar s) = false

-- `More`.
abbrev pub more : Tokens → Bool
more ended = false
more (broken m e) = m
more (next t ts) = not (closes t)

module _ {A B : Type 0} where
  abbrev pub then_read : Read A → (A → Tokens → Read B) → Read B
  then_read (got a ts) k = k a ts
  then_read (bad e) k = bad e
  then_read exhausted k = exhausted

abbrev pub described : {A : Type 0} → String → Read A → Read A
described what (got a ts) = got a ts
described what (bad e) = bad (annotated what e)
described what exhausted = exhausted

-- The dispatch of `readValue`, given the two containers.
abbrev pub value_from : (Tokens → Read Value) → (Tokens → Read Value) → Token → Tokens → Read Value
value_from obj arr (scalar s) ts = got (single s) ts
value_from obj arr (delimiter d) ts =
    if d == b'{'
    then obj ts
    else if d == b'['
    then arr ts
    else bad (leaf "unexpected JSON delimiter")

-- A key, given how to go on behind it.
abbrev pub key_from : List Bytes → (Bytes → Tokens → Read Fields) → Token → Tokens → Read Fields
key_from keys k (scalar (literal_text name)) ts =
    if has_key name keys then bad duplicate_key else k name ts
key_from keys k (scalar s) ts = bad (leaf "JSON object key must be a string")
key_from keys k (delimiter d) ts = bad (leaf "JSON object key must be a string")

abbrev pub closed : {A : Type 0} → A → Token → Tokens → Read A
closed a t ts = got a ts

unfoldable mutual
  pub read_value : ℕ → Tokens → Read Value
  read_value zero ts = exhausted
  read_value (suc fuel) ts = then_read (described "read JSON value" (token ts)) (
      value_from (λ rest. then_read (read_fields fuel [] rest) (λ fs left. got (object fs) left))
        (λ rest. then_read (read_items fuel rest) (λ xs left. got (array xs) left)))

  -- The loop of `readObject`, with the keys so far.
  pub read_fields : ℕ → List Bytes → Tokens → Read Fields
  read_fields zero keys ts = exhausted
  read_fields (suc fuel) keys ts = elim (more ts) [
    | false ↦ then_read (described "close JSON object" (token ts)) (closed no_field)
    | true ↦ then_read (described "read JSON key" (token ts)) (
        key_from keys (λ name rest. then_read (read_value fuel rest) (λ v left.
          then_read (read_fields fuel (name ∷ keys) left) (λ fs last. got (field name v fs) last))))
  ]

  -- The loop of `readArray`.
  pub read_items : ℕ → Tokens → Read Items
  read_items zero ts = exhausted
  read_items (suc fuel) ts = elim (more ts) [
    | false ↦ then_read (described "close JSON array" (token ts)) (closed no_item)
    | true ↦
        then_read (read_value fuel ts)
          (λ v left. then_read (read_items fuel left) (λ xs last. got (item v xs) last))
  ]

unfoldable pub count : Tokens → ℕ
count ended = 0
count (broken m e) = 0
count (next t ts) = suc (count ts)

-- Only the end of the text may follow.
abbrev pub sole_value : Value → Tokens → Read Value
sole_value v ended = got v ended
sole_value v (broken m e) = bad one_value
sole_value v (next t ts) = bad one_value

-- `Decode`; a value takes a token at least.
unfoldable pub decode : Tokens → Read Value
unfolding read_value count
decode ts = then_read (read_value (count ts + count ts + 2) ts) sole_value
