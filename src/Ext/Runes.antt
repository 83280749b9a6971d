-- ===== src/Ext/Runes.antt =====
-- What the extensions use of `unicode/utf8`: runes by value and size. The size is that of
-- `Release.Utf8`; the tables of the package `unicode` are the parameter `Categories`.
use guardy.Base.{
  ℕ, zero, suc, ◌+◌, ◌-◌, ◌*◌, ◌%◌, ◌==◌, ltb, leb, Bool, ◌&&◌, ◌||◌, [], ◌∷◌, if◌then◌else◌,
  length, get_or, drop,
}
use guardy.Release.Utf8.{rune_size}
use guardy.Ext.Bytes.{Bytes}

-- `unicode.IsLetter`, `IsNumber` and `IsMark`.
pub record Categories : Type 0 where
  pub letter : ℕ → Bool
  pub number : ℕ → Bool
  pub mark : ℕ → Bool

-- The rune that `size` bytes encode; a size of 1 beyond ASCII is an invalid byte, U+FFFD.
abbrev pub rune_of : ℕ → Bytes → ℕ
rune_of size text =
    let c = get_or text 0 0 in
    if size == 2
    then c % 32 * 64 + get_or text 1 0 % 64
    else if size == 3
    then c % 16 * 4096 + get_or text 1 0 % 64 * 64 + get_or text 2 0 % 64
    else if size == 4
    then c % 8 * 262144
      + get_or text 1 0 % 64 * 4096
      + get_or text 2 0 % 64 * 64
      + get_or text 3 0 % 64
    else if size == 1 && ltb c 128
    then c
    else 65533

-- `utf8.DecodeRuneInString` by its rune.
unfoldable pub first_rune : Bytes → ℕ
unfolding rune_size
first_rune text = rune_of (rune_size text) text

-- The longest of the last 4, 3, 2 bytes that are one rune, or else the last byte alone: the size of
-- `utf8.DecodeLastRuneInString`.
abbrev pub is_last_rune : ℕ → Bytes → Bool
is_last_rune k text = leb k (length text) && rune_size (drop (length text - k) text) == k

unfoldable pub last_size : Bytes → ℕ
unfolding rune_size
last_size text =
    if is_last_rune 4 text
    then 4
    else if is_last_rune 3 text
    then 3
    else if is_last_rune 2 text
    then 2
    else if length text == 0
    then 0
    else 1

unfoldable pub last_rune : Bytes → ℕ
unfolding last_size rune_size
last_rune text = rune_of (last_size text) (drop (length text - last_size text) text)

-- `utf8.RuneCountInString`; a rune takes a byte at least.
unfoldable pub count_from : ℕ → Bytes → ℕ
unfolding rune_size
count_from fuel [] = 0
count_from zero (c ∷ cs) = 0
count_from (suc fuel) (c ∷ cs) = suc (count_from fuel (drop (rune_size (c ∷ cs)) (c ∷ cs)))

unfoldable pub rune_count : Bytes → ℕ
unfolding count_from
rune_count text = count_from (length text) text

-- `isWordRune`, and the class of the expression for words.
unfoldable pub is_word_rune : Categories → ℕ → Bool
is_word_rune u r = u.letter r || u.number r || u.mark r || r == b'_'
