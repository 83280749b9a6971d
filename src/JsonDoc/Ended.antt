-- ===== src/JsonDoc/Ended.antt =====
-- The scanner ends on every text.
use guardy.Base.{
  ℕ, zero, suc, ◌+◌, ◌≤◌, ltb, Bool, true, false, ◌≢◌, arith, List, [], ◌∷◌, Option, none, some,
  length, Bool-cases, inl, inr, not, if◌then◌else◌,
}
use guardy.Fault.Tree.{Error}
use guardy.Ext.Bytes.{Bytes}
use guardy.Ext.TokenVault.{is_nil}
use guardy.Ext.TokenVault.Unredact.{strip_prefix}
use guardy.JsonDoc.Strings.{StringToken, key}
use guardy.JsonDoc.Scanner.{
  Scan, taken, refused, exhausted, space, take_byte, string_token, number, start_of, opens_object,
  opens_array, opens_string, opens_literal, opens_number, Start, max_depth, scanned, behind_string,
  value_at, closed_or, after_comma, next_entry, after_colon, has_key, member, scan_value,
  scan_members, scan_elements, fuel_for, validate_binding_document, stuck, judge_scan,
}
use guardy.JsonDoc.Bounded.{
  LeftWithin, TokenWithin, Shorter, space-le, take_byte-Shorter, number-within, prefix-within,
  token-within,
}

-- The scan ended, with no more than `n` bytes left.
abbrev Ended : ℕ → Scan → Type 0
Ended n (taken rest) = length rest ≤ n
Ended n (refused d) = Unit
Ended n exhausted = ⊥

weaken-Ended : (m n : ℕ) (s : Scan) → m ≤ n → Ended m s → Ended n s
weaken-Ended m n (taken rest) l h = omega arith
weaken-Ended m n (refused d) l h = tt
weaken-Ended m n exhausted l h = absurd h

scanned-Ended : (n : ℕ) (o : Option Bytes) → LeftWithin n o → Ended n (scanned o)
scanned-Ended n none h = tt
scanned-Ended n (some rest) h = h

string-Ended : (n : ℕ) (o : Option StringToken) → TokenWithin n o → Ended n (behind_string o)
string-Ended n none h = tt
string-Ended n (some t) h = omega arith

closed_or-Ended :
    (n close : ℕ) (entries : Bytes → Scan) (text : Bytes)
    → length text ≤ n
    → Ended n (entries text)
    → Ended n (closed_or close entries text)
closed_or-Ended n close entries text l h = go (take_byte close text) (take_byte-Shorter close text)
  where
    go :
        (o : Option Bytes)
        → Shorter (length text) o
        → Ended n (elim o [ some rest ↦ taken rest | none ↦ entries text ])
    go none s = h
    go (some rest) s = omega arith

after_comma-Ended :
    (m n : ℕ) (entries : Bytes → Scan) (o : Option Bytes)
    → ((rest : Bytes) → suc (length rest) ≤ m → Ended n (entries rest))
    → Shorter m o
    → Ended n (after_comma entries o)
after_comma-Ended m n entries none k h = tt
after_comma-Ended m n entries (some rest) k h = k rest h

-- An entry that ended is followed by an end, a comma or an error.
next_entry-Ended :
    (n close : ℕ) (entries : Bytes → Scan) (s : Scan)
    → ((rest : Bytes) → suc (length rest) ≤ n → Ended n (entries rest))
    → Ended n s
    → Ended n (next_entry close entries s)
next_entry-Ended n close entries (refused d) k h = tt
next_entry-Ended n close entries exhausted k h = absurd h
next_entry-Ended n close entries (taken text) k h =
    closed_or-Ended n close (λ rest. after_comma entries (take_byte b',' rest)) text h
      (after_comma-Ended (length text) n entries (take_byte b',' text)
        (λ (rest : Bytes) (l : suc (length rest) ≤ length text). k rest (omega arith))
        (take_byte-Shorter b',' text))

after_colon-Ended :
    (m n : ℕ) (value : Bytes → Scan) (o : Option Bytes)
    → ((rest : Bytes) → suc (length rest) ≤ m → Ended n (value rest))
    → Shorter m o
    → Ended n (after_colon value o)
after_colon-Ended m n value none k h = tt
after_colon-Ended m n value (some rest) k h = k rest h

member-Ended :
    (n : ℕ) (keys : List Bytes) (value : Bytes → Scan) (next : List Bytes → Scan → Scan)
    (o : Option StringToken)
    → ((rest : Bytes) → suc (length rest) ≤ n → Ended n (value rest))
    → ((more : List Bytes) (s : Scan) → Ended n s → Ended n (next more s))
    → TokenWithin n o
    → Ended n (member keys value next o)
member-Ended n keys value next none v k h = tt
member-Ended n keys value next (some t) v k h = elim (Bool-cases (has_key (key t) keys)) [
  | inl e ↦ rw e tt
  | inr e ↦ rw e (
      k (key t ∷ keys) (after_colon value (take_byte b':' t.rest)) (
        after_colon-Ended (length t.rest) n value (take_byte b':' t.rest)
          (λ (rest : Bytes) (l : suc (length rest) ≤ length t.rest). v rest (omega (arith, h)))
          (take_byte-Shorter b':' t.rest)))
]

nested-Ended :
    (n depth : ℕ) (entries : Bytes → Scan) (cs : Bytes)
    → Ended n (entries cs)
    → Ended n (if ltb depth max_depth then entries cs else refused false)
nested-Ended n depth entries cs h = elim (Bool-cases (ltb depth max_depth)) [
  | inl e ↦ rw e h
  | inr e ↦ rw e tt
]

value_at-Ended :
    (n depth : ℕ) (object array : Bytes → Scan) (text : Bytes)
    → length text ≤ n
    → ((rest : Bytes) → suc (length rest) ≤ n → Ended n (object rest))
    → ((rest : Bytes) → suc (length rest) ≤ n → Ended n (array rest))
    → Ended n (value_at depth object array text)
value_at-Ended n depth object array [] l o a = tt
value_at-Ended n depth object array (c ∷ cs) l o a =
    weaken-Ended n n (value_at depth object array (c ∷ cs)) (omega arith) (go (start_of c))
  where
    go :
        (s : Start)
        → Ended n (elim s [
          | opens_object ↦ if ltb depth max_depth then object cs else refused false
          | opens_array ↦ if ltb depth max_depth then array cs else refused false
          | opens_string ↦ behind_string (string_token (c ∷ cs))
          | opens_literal literal ↦ scanned (strip_prefix literal (c ∷ cs))
          | opens_number ↦ scanned (number (c ∷ cs))
        ])
    go opens_object = nested-Ended n depth object cs (o cs l)
    go opens_array = nested-Ended n depth array cs (a cs l)
    go opens_string =
        weaken-Ended (suc (length cs)) n _ l
          (string-Ended (suc (length cs)) (string_token (c ∷ cs)) (token-within (c ∷ cs)))
    go (opens_literal literal) = weaken-Ended (suc (length cs)) n _ l (
        scanned-Ended (suc (length cs)) (strip_prefix literal (c ∷ cs))
          (prefix-within literal (c ∷ cs)))
    go opens_number =
        weaken-Ended (suc (length cs)) n _ l
          (scanned-Ended (suc (length cs)) (number (c ∷ cs)) (number-within (c ∷ cs)))

mutual
  unfolding scan_value

  scan_value-Ended :
      (fuel depth : ℕ) (text : Bytes)
      → length text + length text + 1 ≤ fuel
      → Ended (length text) (scan_value fuel depth text)
  scan_value-Ended zero depth text l = omega arith
  scan_value-Ended (suc fuel) depth text l =
      value_at-Ended (length text) depth _ _ (space text) (space-le text)
        (λ (rest : Bytes) (s : suc (length rest) ≤ length text).
          weaken-Ended (length rest) (length text) _ (omega arith) (
            closed_or-Ended (length rest) b'}' (λ r. scan_members fuel (suc depth) [] r) rest
              (omega arith) (scan_members-Ended fuel (suc depth) [] rest (omega arith))))
        (λ (rest : Bytes) (s : suc (length rest) ≤ length text).
          weaken-Ended (length rest) (length text) _ (omega arith) (
            closed_or-Ended (length rest) b']' (λ r. scan_elements fuel (suc depth) r) rest
              (omega arith) (scan_elements-Ended fuel (suc depth) rest (omega arith))))

  scan_members-Ended :
      (fuel depth : ℕ) (keys : List Bytes) (text : Bytes)
      → length text + length text + 2 ≤ fuel
      → Ended (length text) (scan_members fuel depth keys text)
  scan_members-Ended zero depth keys text l = omega arith
  scan_members-Ended (suc fuel) depth keys text l =
      member-Ended (length text) keys _ _ (string_token text)
        (λ (rest : Bytes) (s : suc (length rest) ≤ length text).
          weaken-Ended (length rest) (length text) _ (omega arith)
            (scan_value-Ended fuel depth rest (omega arith)))
        (λ (more : List Bytes) (v : Scan) (h : Ended (length text) v).
          next_entry-Ended (length text) b'}' _ v
            (λ (rest : Bytes) (s : suc (length rest) ≤ length text).
              weaken-Ended (length rest) (length text) _ (omega arith)
                (scan_members-Ended fuel depth more rest (omega arith)))
            h)
        (token-within text)

  scan_elements-Ended :
      (fuel depth : ℕ) (text : Bytes)
      → length text + length text + 2 ≤ fuel
      → Ended (length text) (scan_elements fuel depth text)
  scan_elements-Ended zero depth text l = omega arith
  scan_elements-Ended (suc fuel) depth text l =
      next_entry-Ended (length text) b']' _ (scan_value fuel depth text)
        (λ (rest : Bytes) (s : suc (length rest) ≤ length text).
          weaken-Ended (length rest) (length text) _ (omega arith)
            (scan_elements-Ended fuel depth rest (omega arith)))
        (scan_value-Ended fuel depth text (omega arith))

judge-ends :
    (valid : Bytes → Bool) (decode_error : Option Error) (input : Bytes) (n : ℕ) (s : Scan)
    → Ended n s
    → judge_scan valid decode_error input s ≢ stuck
judge-ends valid decode_error input n (refused true) h = λ e. cc
judge-ends valid decode_error input n (refused false) h = λ e. cc
judge-ends valid decode_error input n exhausted h = absurd h
judge-ends valid decode_error input n (taken rest) h =
    elim (Bool-cases (not (is_nil (space rest)))) [
      | inl e ↦ rw e (λ q. cc)
      | inr e ↦ elim (Bool-cases (not (valid input))) [
        | inl v ↦ rw (e, v) (λ q. cc)
        | inr v ↦ rw (e, v) (λ q. cc)
      ]
    ]

-- The check of a document gives an answer for every text: the fuel that its length gives is enough.
pub validate_binding_document-ends :
    (valid : Bytes → Bool) (decode_error : Option Error) (input : Bytes)
    → validate_binding_document valid decode_error input ≢ stuck
unfolding validate_binding_document
validate_binding_document-ends valid decode_error input =
    judge-ends valid decode_error input (length input) (scan_value (fuel_for input) 0 input)
      (scan_value-Ended (fuel_for input) 0 input (omega arith))
