-- ===== src/JsonDoc/Entries.antt =====
-- The scanner over the entries of a container, with whitespace wherever it is allowed.
use guardy.Base.{
  ℕ, suc, ◌≤◌, ltb, ◌==◌, Bool, true, false, not, ◌&&◌, ◌≡◌, refl, ap, ◌∙◌, arith, List, [], ◌∷◌,
  ◌++◌, none, some, Bool-cases, inl, inr, if◌then◌else◌,
}
use guardy.Ext.Bytes.{Bytes}
use guardy.JsonDoc.Strings.{key}
use guardy.JsonDoc.Scanner.{
  Scan, taken, refused, is_space, space, take_byte, string_token, number, max_depth, scanned,
  value_at, closed_or, after_comma, after_colon, next_entry, has_key, member,
}
use guardy.JsonDoc.Printing.{
  Piece, print_string, Json, null, boolean, numeral, string, empty_object, empty_array, object,
  array, Members, sole, also, Elements, sole_element, also_element, print, print_members,
  print_elements, Gaps, print_member, IsGap, AreGaps, IsString, IsJson, AreMembers, AreElements,
  member_key,
}
use guardy.JsonDoc.Parts.{string_from_lem, number-Opens, Opens, OpensNumber, token_of}
use guardy.JsonDoc.Spaced.{take_byte-gap, string_token-gap}

abbrev pub verdict : Bool → Bytes → Scan
verdict true rest = taken rest
verdict false rest = refused true

pub string_token_lem :
    (ps : List Piece) (rest : Bytes)
    → IsString ps
    → string_token (print_string ps rest) ≡ some (token_of ps rest)
unfolding string_token print_string take_byte space
string_token_lem ps rest h = string_from_lem ps rest h

key-member_key : (ps : List Piece) (rest : Bytes) → key (token_of ps rest) ≡ member_key ps
unfolding key member_key
key-member_key ps rest = refl

print-Opens : (v : Json) (rest : Bytes) → IsJson v → Opens (print v rest)
unfolding print IsJson print_string
print-Opens null rest h = (refl, refl)
print-Opens (boolean true) rest h = (refl, refl)
print-Opens (boolean false) rest h = (refl, refl)
print-Opens (numeral n) rest h = (number-Opens n rest h).0
print-Opens (string ps) rest h = (refl, refl)
print-Opens (empty_object gap) rest h = (refl, refl)
print-Opens (empty_array gap) rest h = (refl, refl)
print-Opens (object ms) rest h = (refl, refl)
print-Opens (array es) rest h = (refl, refl)

pub Opens-space : (text : Bytes) → Opens text → space text ≡ text
unfolding space
Opens-space [] h = refl
Opens-space (c ∷ cs) h = rw (h.0) refl

Opens-take : (text : Bytes) → Opens text → take_byte b']' text ≡ none
unfolding take_byte space
Opens-take [] h = refl
Opens-take (c ∷ cs) h = rw (h.0) (rw (h.1) refl)

pub members-take :
    (ms : Members) (rest : Bytes) → AreMembers ms → take_byte b'}' (print_members ms rest) ≡ none
unfolding take_byte space print_members print_string AreMembers
members-take (sole g ps v) rest h = take_byte-gap b'}' g.before_key _ h.0.0
members-take (also g ps v ms) rest h = take_byte-gap b'}' g.before_key _ h.0.0

pub elements-take :
    (es : Elements) (rest : Bytes) → AreElements es → take_byte b']' (print_elements es rest) ≡ none
unfolding print_elements AreElements
elements-take (sole_element g v) rest h =
    take_byte-gap b']' g.before _ h.0.0 ∙ Opens-take _ (print-Opens v _ h.1)
elements-take (also_element g v es) rest h =
    take_byte-gap b']' g.before _ h.0.0 ∙ Opens-take _ (print-Opens v _ h.1)

pub number-scans :
    (d : ℕ) (o a : Bytes → Scan) (text rest : Bytes)
    → OpensNumber text
    → number text ≡ some rest
    → value_at d o a text ≡ taken rest
number-scans d o a [] rest h e = absurd h
number-scans d o a (c ∷ cs) rest h e = rw (h, value_at) (ap scanned e)

pub closed_or-entries :
    (close : ℕ) (k : Bytes → Scan) (text : Bytes)
    → take_byte close text ≡ none
    → closed_or close k text ≡ k text
closed_or-entries close k text e = rw (e, closed_or) refl

pub closed_or-closes :
    (close : ℕ) (k : Bytes → Scan) (text rest : Bytes)
    → take_byte close text ≡ some rest
    → closed_or close k text ≡ taken rest
closed_or-closes close k text rest e = rw (e, closed_or) refl

take_comma :
    (close : ℕ) (text : Bytes) → (close == b',') ≡ false → take_byte close (b',' ∷ text) ≡ none
unfolding take_byte space
take_comma close text ne = let other : (b',' == close) ≡ false = ground (arith, ne) in rw other refl

take_close :
    (close : ℕ) (rest : Bytes) → is_space close ≡ false → take_byte close (close ∷ rest) ≡ some rest
unfolding take_byte space
take_close close rest ne = let same : (close == close) ≡ true = ground arith in rw ne (rw same refl)

-- Behind a value: its verdict goes first.
pub comma-next :
    (close : ℕ) (k : Bytes → Scan) (b : Bool) (gap text rest : Bytes) (s : Scan) (good : Bool)
    → (close == b',') ≡ false
    → IsGap gap
    → s ≡ verdict b (gap ++ b',' ∷ text)
    → k text ≡ verdict good rest
    → next_entry close k s ≡ verdict (b && good) rest
unfolding take_byte space
comma-next close k true gap text rest s good ne g e h =
    ap (next_entry close k) e
    ∙ closed_or-entries close (λ r. after_comma k (take_byte b',' r)) (gap ++ b',' ∷ text)
        (take_byte-gap close gap (b',' ∷ text) g ∙ take_comma close text ne)
    ∙ ap (after_comma k) (take_byte-gap b',' gap (b',' ∷ text) g)
    ∙ h
comma-next close k false gap text rest s good ne g e h = ap (next_entry close k) e

pub close-next :
    (close : ℕ) (k : Bytes → Scan) (b : Bool) (gap rest : Bytes) (s : Scan)
    → is_space close ≡ false
    → IsGap gap
    → s ≡ verdict b (gap ++ close ∷ rest)
    → next_entry close k s ≡ verdict b rest
close-next close k true gap rest s ne g e =
    ap (next_entry close k) e
    ∙ closed_or-closes close (λ r. after_comma k (take_byte b',' r)) (gap ++ close ∷ rest) rest
        (take_byte-gap close gap (close ∷ rest) g ∙ take_close close rest ne)
close-next close k false gap rest s ne g e = ap (next_entry close k) e

pub nested :
    (d : ℕ) (s : Scan) → suc d ≤ max_depth → (if ltb d max_depth then s else refused false) ≡ s
nested d s l = let e : ltb d max_depth ≡ true = ground (arith, l) in rw e refl

-- A member: its key is new, or the scan is refused.
pub member-verdict :
    (keys : List Bytes) (value : Bytes → Scan) (next : List Bytes → Scan → Scan) (g : Gaps)
    (ps : List Piece) (text rest : Bytes) (good : Bool)
    → AreGaps g
    → IsString ps
    → next (member_key ps ∷ keys) (value (g.before_value ++ text)) ≡ verdict good rest
    → member keys value next (string_token (print_member g ps text))
      ≡ verdict (not (has_key (member_key ps) keys) && good) rest
unfolding take_byte space member_key key
member-verdict keys value next g ps text rest good a h e =
    let behind = b':' ∷ (g.before_value ++ text) in
    ap (member keys value next) (
      string_token-gap g.before_key (print_string ps (g.before_colon ++ behind)) a.0
      ∙ string_token_lem ps (g.before_colon ++ behind) h)
    ∙ (elim (Bool-cases (has_key (member_key ps) keys)) [
      | inl k ↦ rw k refl
      | inr k ↦ rw k (
          ap (λ o. next (member_key ps ∷ keys) (after_colon value o))
            (take_byte-gap b':' g.before_colon behind a.1)
          ∙ e)
    ])
