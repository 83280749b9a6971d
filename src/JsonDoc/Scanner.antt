-- ===== src/JsonDoc/Scanner.antt =====
-- `bindingScanner`, by the text from its position on, and `validateBindingDocument`.
use guardy.Base.{
  ℕ, zero, suc, ◌+◌, ltb, leb, ◌==◌, Bool, true, false, not, ◌&&◌, ◌||◌, List, [], ◌∷◌, Option,
  none, some, if◌then◌else◌, length, any,
}
use guardy.Fault.Tree.{Error, leaf, annotated}
use guardy.Ext.Bytes.{Bytes, same_bytes}
use guardy.Ext.TokenVault.{is_nil}
use guardy.Ext.TokenVault.Unredact.{strip_prefix}
use guardy.JsonDoc.Strings.{quote, string_from, StringToken, key}

-- How a scan ends: with the text behind the value, or refused, maybe for a duplicate key.
pub data Scan : Type 0 where
  taken : Bytes → Scan
  refused : Bool → Scan
  exhausted : Scan

abbrev pub is_space : ℕ → Bool
is_space c = c == 32 || c == 9 || c == 13 || c == 10

unfoldable pub space : Bytes → Bytes
space [] = []
space (c ∷ cs) = let rest = space cs in if is_space c then rest else c ∷ cs

abbrev pub take_first : ℕ → Bytes → Option Bytes
take_first want [] = none
take_first want (c ∷ cs) = if c == want then some cs else none

unfoldable pub take_byte : ℕ → Bytes → Option Bytes
unfolding space
take_byte want text = take_first want (space text)

abbrev pub after_quote : Option Bytes → Option StringToken
after_quote none = none
after_quote (some text) = string_from 0 text

unfoldable pub string_token : Bytes → Option StringToken
unfolding take_byte string_from
string_token text = after_quote (take_byte quote text)

abbrev pub is_digit : ℕ → Bool
is_digit c = leb b'0' c && leb c b'9'

unfoldable pub skip_digits : Bytes → Bytes
skip_digits [] = []
skip_digits (c ∷ cs) = let rest = skip_digits cs in if is_digit c then rest else c ∷ cs

-- One digit at least.
unfoldable pub digits : Bytes → Option Bytes
unfolding skip_digits
digits [] = none
digits (c ∷ cs) = if is_digit c then some (skip_digits cs) else none

abbrev pub skip_byte : ℕ → Bytes → Bytes
skip_byte want [] = []
skip_byte want (c ∷ cs) = if c == want then cs else c ∷ cs

abbrev pub skip_sign : Bytes → Bytes
skip_sign [] = []
skip_sign (c ∷ cs) = if c == b'+' || c == b'-' then cs else c ∷ cs

abbrev pub exponent : Bytes → Option Bytes
exponent [] = some []
exponent (c ∷ cs) = if c == b'e' || c == b'E' then digits (skip_sign cs) else some (c ∷ cs)

abbrev pub then_exponent : Option Bytes → Option Bytes
then_exponent none = none
then_exponent (some text) = exponent text

abbrev pub fraction : Bytes → Option Bytes
fraction [] = some []
fraction (c ∷ cs) = if c == b'.' then digits cs else some (c ∷ cs)

abbrev pub then_fraction : Option Bytes → Option Bytes
then_fraction none = none
then_fraction (some text) = then_exponent (fraction text)

abbrev pub integer : Bytes → Option Bytes
integer [] = none
integer (c ∷ cs) = if c == b'0' then some cs else digits (c ∷ cs)

unfoldable pub number : Bytes → Option Bytes
unfolding digits
number text = then_fraction (integer (skip_byte b'-' text))

-- What a value begins with.
pub data Start : Type 0 where
  opens_object opens_array opens_string : Start
  opens_literal : Bytes → Start
  opens_number : Start

abbrev pub true_text : Bytes
true_text = b't' ∷ b'r' ∷ b'u' ∷ b'e' ∷ []

abbrev pub false_text : Bytes
false_text = b'f' ∷ b'a' ∷ b'l' ∷ b's' ∷ b'e' ∷ []

abbrev pub null_text : Bytes
null_text = b'n' ∷ b'u' ∷ b'l' ∷ b'l' ∷ []

unfoldable pub start_of : ℕ → Start
start_of c =
    if c == b'{'
    then opens_object
    else if c == b'['
    then opens_array
    else if c == quote
    then opens_string
    else if c == b't'
    then opens_literal true_text
    else if c == b'f'
    then opens_literal false_text
    else if c == b'n'
    then opens_literal null_text
    else opens_number

abbrev pub max_depth : ℕ
max_depth = 10000

abbrev pub scanned : Option Bytes → Scan
scanned none = refused false
scanned (some rest) = taken rest

abbrev pub behind_string : Option StringToken → Scan
behind_string none = refused false
behind_string (some t) = taken t.rest

-- The dispatch of `value`, given the two containers, which are nested one deeper.
abbrev pub value_at : ℕ → (Bytes → Scan) → (Bytes → Scan) → Bytes → Scan
value_at depth object array [] = refused false
value_at depth object array (c ∷ cs) = elim (start_of c) [
  | opens_object ↦ if ltb depth max_depth then object cs else refused false
  | opens_array ↦ if ltb depth max_depth then array cs else refused false
  | opens_string ↦ behind_string (string_token (c ∷ cs))
  | opens_literal literal ↦ scanned (strip_prefix literal (c ∷ cs))
  | opens_number ↦ scanned (number (c ∷ cs))
]

-- An empty container, or its first entry.
abbrev pub closed_or : ℕ → (Bytes → Scan) → Bytes → Scan
closed_or close entries text = elim (take_byte close text) [
  | some rest ↦ taken rest
  | none ↦ entries text
]

abbrev pub after_comma : (Bytes → Scan) → Option Bytes → Scan
after_comma entries none = refused false
after_comma entries (some rest) = entries rest

-- Behind an entry: the end of the container, or a comma and the next entry.
abbrev pub next_entry : ℕ → (Bytes → Scan) → Scan → Scan
next_entry close entries (refused d) = refused d
next_entry close entries exhausted = exhausted
next_entry close entries (taken text) =
    closed_or close (λ rest. after_comma entries (take_byte b',' rest)) text

abbrev pub after_colon : (Bytes → Scan) → Option Bytes → Scan
after_colon value none = refused false
after_colon value (some rest) = value rest

abbrev pub has_key : Bytes → List Bytes → Bool
has_key name keys = any (λ k. same_bytes k name) keys

-- A member behind its key, given the scan of the value and what follows with the key noted.
abbrev pub member :
    List Bytes → (Bytes → Scan) → (List Bytes → Scan → Scan) → Option StringToken → Scan
member keys value next none = refused false
member keys value next (some t) =
    if has_key (key t) keys
    then refused true
    else next (key t ∷ keys) (after_colon value (take_byte b':' t.rest))

unfoldable mutual
  unfolding number start_of string_token strip_prefix take_byte key

  pub scan_value : ℕ → ℕ → Bytes → Scan
  scan_value zero depth text = exhausted
  scan_value (suc fuel) depth text =
      value_at depth (closed_or b'}' (λ rest. scan_members fuel (suc depth) [] rest))
        (closed_or b']' (λ rest. scan_elements fuel (suc depth) rest)) (space text)

  -- The loop of `object`, with the keys so far.
  pub scan_members : ℕ → ℕ → List Bytes → Bytes → Scan
  scan_members zero depth keys text = exhausted
  scan_members (suc fuel) depth keys text =
      member keys (λ rest. scan_value fuel depth rest)
        (λ more value. next_entry b'}' (λ rest. scan_members fuel depth more rest) value)
        (string_token text)

  -- The loop of `array`.
  pub scan_elements : ℕ → ℕ → Bytes → Scan
  scan_elements zero depth text = exhausted
  scan_elements (suc fuel) depth text =
      next_entry b']' (λ rest. scan_elements fuel depth rest) (scan_value fuel depth text)

-- A value, or an entry of a container, takes a byte at least before the next one.
abbrev pub fuel_for : Bytes → ℕ
fuel_for text = length text + length text + 2

-- What `validateBindingDocument` returns.
pub data Validity : Type 0 where
  answers : Option Error → Validity
  stuck : Validity

abbrev pub one_value : Error
one_value = leaf "JSON document must contain exactly one value"

abbrev pub duplicate_key : Error
duplicate_key = leaf "duplicate JSON object key"

-- `decode_error` is what `Decode` says of the text, and `valid` is `json.Valid`.
abbrev pub judge_scan : (Bytes → Bool) → Option Error → Bytes → Scan → Validity
judge_scan valid decode_error input exhausted = stuck
judge_scan valid decode_error input (refused true) = answers (some duplicate_key)
judge_scan valid decode_error input (refused false) = answers decode_error
judge_scan valid decode_error input (taken rest) =
    if not (is_nil (space rest))
    then answers (some one_value)
    else if not (valid input)
    then answers decode_error
    else answers none

unfoldable pub validate_binding_document : (Bytes → Bool) → Option Error → Bytes → Validity
unfolding scan_value
validate_binding_document valid decode_error input =
    judge_scan valid decode_error input (scan_value (fuel_for input) 0 input)

-- `Bind`, by its error; `target_error` is what decoding into the target gives.
abbrev pub then_bind : Option Error → Validity → Validity
then_bind target_error stuck = stuck
then_bind target_error (answers (some e)) = answers (some e)
then_bind none (answers none) = answers none
then_bind (some e) (answers none) = answers (some (annotated "bind JSON" e))

unfoldable pub bind_document : (Bytes → Bool) → Option Error → Option Error → Bytes → Validity
unfolding validate_binding_document
bind_document valid decode_error target_error input =
    then_bind target_error (validate_binding_document valid decode_error input)
