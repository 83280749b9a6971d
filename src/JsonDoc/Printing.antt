-- ===== src/JsonDoc/Printing.antt =====
-- JSON documents as trees, their texts, and when no object of theirs has a key twice.
use guardy.Base.{
  ℕ, suc, leb, ◌==◌, Bool, true, false, not, ◌&&◌, ◌||◌, ◌≡◌, List, [], ◌∷◌, ◌++◌, Option, none,
  some, max, any, All,
}
use guardy.Ext.Bytes.{Bytes}
use guardy.JsonDoc.Strings.{quote, backslash, is_simple_escape, is_hex, key}
use guardy.JsonDoc.Scanner.{is_digit, is_space, has_key, true_text, false_text, null_text}

-- The pieces of a string.
pub data Piece : Type 0 where
  plain : ℕ → Piece
  simple : ℕ → Piece
  unicode : ℕ → ℕ → ℕ → ℕ → Piece

-- Digits, at least one.
pub record Digits : Type 0 where
  pub first : ℕ
  pub others : Bytes

pub data Whole : Type 0 where
  zero_digit : Whole
  whole_digits : Digits → Whole

-- The letter of an exponent, its sign and its digits.
pub record Exponent : Type 0 where
  pub letter : ℕ
  pub sign : Option ℕ
  pub power : Digits

pub record Number : Type 0 where
  pub negative : Bool
  pub whole : Whole
  pub fraction : Option Digits
  pub exponent : Option Exponent

-- The whitespace about the key and the value of a member.
pub record Gaps : Type 0 where
  pub before_key : Bytes
  pub before_colon : Bytes
  pub before_value : Bytes
  pub behind : Bytes

-- The whitespace about an element.
pub record Room : Type 0 where
  pub before : Bytes
  pub behind : Bytes

mutual
  pub data Json : Type 0 where
    null : Json
    boolean : Bool → Json
    numeral : Number → Json
    string : List Piece → Json
    empty_object empty_array : Bytes → Json
    object : Members → Json
    array : Elements → Json

  pub data Members : Type 0 where
    sole : Gaps → List Piece → Json → Members
    also : Gaps → List Piece → Json → Members → Members

  pub data Elements : Type 0 where
    sole_element : Room → Json → Elements
    also_element : Room → Json → Elements → Elements

-- The texts, each before what follows it.
abbrev pub print_piece : Piece → Bytes → Bytes
print_piece (plain c) rest = c ∷ rest
print_piece (simple c) rest = backslash ∷ c ∷ rest
print_piece (unicode a b c d) rest = backslash ∷ b'u' ∷ a ∷ b ∷ c ∷ d ∷ rest

unfoldable pub print_pieces : List Piece → Bytes → Bytes
print_pieces [] rest = rest
print_pieces (p ∷ ps) rest = print_piece p (print_pieces ps rest)

unfoldable pub print_string : List Piece → Bytes → Bytes
unfolding print_pieces
print_string ps rest = quote ∷ print_pieces ps (quote ∷ rest)

abbrev pub print_digits : Digits → Bytes → Bytes
print_digits ds rest = ds.first ∷ ds.others ++ rest

abbrev pub print_sign : Option ℕ → Bytes → Bytes
print_sign none rest = rest
print_sign (some c) rest = c ∷ rest

abbrev pub print_exponent : Option Exponent → Bytes → Bytes
print_exponent none rest = rest
print_exponent (some e) rest = e.letter ∷ print_sign e.sign (print_digits e.power rest)

abbrev pub print_fraction : Option Digits → Bytes → Bytes
print_fraction none rest = rest
print_fraction (some ds) rest = b'.' ∷ print_digits ds rest

abbrev pub print_whole : Whole → Bytes → Bytes
print_whole zero_digit rest = b'0' ∷ rest
print_whole (whole_digits ds) rest = print_digits ds rest

abbrev pub print_minus : Bool → Bytes → Bytes
print_minus true rest = b'-' ∷ rest
print_minus false rest = rest

unfoldable pub print_number : Number → Bytes → Bytes
print_number n rest =
    print_minus n.negative
      (print_whole n.whole (print_fraction n.fraction (print_exponent n.exponent rest)))

abbrev pub print_boolean : Bool → Bytes → Bytes
print_boolean true rest = true_text ++ rest
print_boolean false rest = false_text ++ rest

-- A member, before the text of its value.
abbrev pub print_member : Gaps → List Piece → Bytes → Bytes
print_member g ps value =
    g.before_key ++ print_string ps (g.before_colon ++ (b':' ∷ (g.before_value ++ value)))

unfoldable mutual
  unfolding print_string print_number

  pub print : Json → Bytes → Bytes
  print null rest = null_text ++ rest
  print (boolean b) rest = print_boolean b rest
  print (numeral n) rest = print_number n rest
  print (string ps) rest = print_string ps rest
  print (empty_object gap) rest = b'{' ∷ gap ++ b'}' ∷ rest
  print (empty_array gap) rest = b'[' ∷ gap ++ b']' ∷ rest
  print (object ms) rest = b'{' ∷ print_members ms (b'}' ∷ rest)
  print (array es) rest = b'[' ∷ print_elements es (b']' ∷ rest)

  pub print_members : Members → Bytes → Bytes
  print_members (sole g ps v) rest = print_member g ps (print v (g.behind ++ rest))
  print_members (also g ps v ms) rest =
      print_member g ps (print v (g.behind ++ b',' ∷ print_members ms rest))

  pub print_elements : Elements → Bytes → Bytes
  print_elements (sole_element g v) rest = g.before ++ print v (g.behind ++ rest)
  print_elements (also_element g v es) rest =
      g.before ++ print v (g.behind ++ b',' ∷ print_elements es rest)

-- What makes a tree the tree of a text.
abbrev pub is_piece : Piece → Bool
is_piece (plain c) = leb 32 c && not (c == quote) && not (c == backslash)
is_piece (simple c) = is_simple_escape c
is_piece (unicode a b c d) = is_hex a && is_hex b && is_hex c && is_hex d

abbrev pub IsGap : Bytes → Type 0
IsGap = All (λ c. is_space c ≡ true)

abbrev pub AreGaps : Gaps → Type 0
AreGaps g = IsGap g.before_key × IsGap g.before_colon × IsGap g.before_value × IsGap g.behind

abbrev pub IsRoom : Room → Type 0
IsRoom g = IsGap g.before × IsGap g.behind

abbrev pub IsString : List Piece → Type 0
IsString = All (λ p. is_piece p ≡ true)

abbrev pub IsDigits : Digits → Type 0
IsDigits ds = (is_digit ds.first ≡ true) × All (λ c. is_digit c ≡ true) ds.others

-- No leading zero.
abbrev pub IsWhole : Whole → Type 0
IsWhole zero_digit = Unit
IsWhole (whole_digits ds) = ((ds.first == b'0') ≡ false) × IsDigits ds

abbrev pub IsFraction : Option Digits → Type 0
IsFraction none = Unit
IsFraction (some ds) = IsDigits ds

abbrev pub IsSign : Option ℕ → Type 0
IsSign none = Unit
IsSign (some c) = (c == b'+' || c == b'-') ≡ true

abbrev pub IsExponent : Option Exponent → Type 0
IsExponent none = Unit
IsExponent (some e) =
    ((e.letter == b'e' || e.letter == b'E') ≡ true) × IsSign e.sign × IsDigits e.power

abbrev pub IsNumber : Number → Type 0
IsNumber n = IsWhole n.whole × IsFraction n.fraction × IsExponent n.exponent

unfoldable mutual
  pub IsJson : Json → Type 0
  IsJson null = Unit
  IsJson (boolean b) = Unit
  IsJson (numeral n) = IsNumber n
  IsJson (string ps) = IsString ps
  IsJson (empty_object gap) = IsGap gap
  IsJson (empty_array gap) = IsGap gap
  IsJson (object ms) = AreMembers ms
  IsJson (array es) = AreElements es

  pub AreMembers : Members → Type 0
  AreMembers (sole g ps v) = AreGaps g × IsString ps × IsJson v
  AreMembers (also g ps v ms) = AreGaps g × IsString ps × IsJson v × AreMembers ms

  pub AreElements : Elements → Type 0
  AreElements (sole_element g v) = IsRoom g × IsJson v
  AreElements (also_element g v es) = IsRoom g × IsJson v × AreElements es

-- How deep the containers are nested.
unfoldable mutual
  pub depth : Json → ℕ
  depth null = 0
  depth (boolean b) = 0
  depth (numeral n) = 0
  depth (string ps) = 0
  depth (empty_object gap) = 1
  depth (empty_array gap) = 1
  depth (object ms) = suc (depth_members ms)
  depth (array es) = suc (depth_elements es)

  pub depth_members : Members → ℕ
  depth_members (sole g ps v) = depth v
  depth_members (also g ps v ms) = max (depth v) (depth_members ms)

  pub depth_elements : Elements → ℕ
  depth_elements (sole_element g v) = depth v
  depth_elements (also_element g v es) = max (depth v) (depth_elements es)

abbrev pub is_escape : Piece → Bool
is_escape (plain c) = false
is_escape _ = true

-- The key that a string of a member stands for.
unfoldable pub member_key : List Piece → Bytes
unfolding key print_pieces
member_key ps = key (record { body = print_pieces ps []; escaped = any is_escape ps; rest = [] })

-- No object has a key twice.
unfoldable mutual
  unfolding member_key

  pub unique : Json → Bool
  unique null = true
  unique (boolean b) = true
  unique (numeral n) = true
  unique (string ps) = true
  unique (empty_object gap) = true
  unique (empty_array gap) = true
  unique (object ms) = unique_members [] ms
  unique (array es) = unique_elements es

  -- The keys of the members before these are given.
  pub unique_members : List Bytes → Members → Bool
  unique_members keys (sole g ps v) = not (has_key (member_key ps) keys) && unique v
  unique_members keys (also g ps v ms) =
      not (has_key (member_key ps) keys) && (unique v && unique_members (member_key ps ∷ keys) ms)

  pub unique_elements : Elements → Bool
  unique_elements (sole_element g v) = unique v
  unique_elements (also_element g v es) = unique v && unique_elements es
