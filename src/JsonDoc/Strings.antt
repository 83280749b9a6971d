-- ===== src/JsonDoc/Strings.antt =====
-- The strings of a JSON text: `stringToken`, `escape` and `key`, with what `json.Unmarshal` makes of a
-- quoted string.
use guardy.Base.{
  ℕ, zero, suc, ◌+◌, ◌-◌, ◌*◌, ◌/◌, ◌%◌, ltb, leb, ◌==◌, Bool, true, false, not, ◌&&◌, ◌||◌, [],
  ◌∷◌, ◌++◌, Option, none, some, if◌then◌else◌, length, take, drop, get_or, any,
}
use guardy.Release.Utf8.{rune_size, valid_utf8}
use guardy.Ext.Bytes.{Bytes}

abbrev pub quote : ℕ
quote = 34

abbrev pub backslash : ℕ
backslash = 92

-- A string that was scanned: what is between its quotes, and the text behind it.
pub record StringToken : Type 0 where
  pub body : Bytes
  pub escaped : Bool
  pub rest : Bytes

-- `"\/bfnrt`
abbrev pub simple_escapes : Bytes
simple_escapes = quote ∷ backslash ∷ b'/' ∷ b'b' ∷ b'f' ∷ b'n' ∷ b'r' ∷ b't' ∷ []

abbrev pub is_simple_escape : ℕ → Bool
is_simple_escape c = any (λ d. d == c) simple_escapes

abbrev pub is_hex : ℕ → Bool
is_hex c = (leb b'0' c && leb c b'9') || (leb b'a' c && leb c b'f') || (leb b'A' c && leb c b'F')

abbrev pub four_hex : Bytes → Bool
four_hex (a ∷ b ∷ c ∷ d ∷ rest) = is_hex a && is_hex b && is_hex c && is_hex d
four_hex _ = false

-- How many bytes behind the backslash belong to the escape, if it is one.
unfoldable pub escape : Bytes → Option ℕ
escape [] = none
escape (c ∷ cs) =
    if is_simple_escape c then some 1 else if c == b'u' && four_hex cs then some 5 else none

abbrev pub add_byte : ℕ → Option StringToken → Option StringToken
add_byte c none = none
add_byte c (some t) = some (record t { body = c ∷ t.body })

abbrev pub add_escape : ℕ → Option StringToken → Option StringToken
add_escape c none = none
add_escape c (some t) = some (record t { body = c ∷ t.body; escaped = true })

-- The loop of `stringToken` behind the opening quote; the first `skip` bytes are those of an escape
-- that was checked.
unfoldable pub string_from : ℕ → Bytes → Option StringToken
unfolding escape
string_from skip [] = none
string_from (suc skip) (c ∷ cs) = add_byte c (string_from skip cs)
string_from zero (c ∷ cs) =
    let more = string_from zero cs in
    if c == quote
    then some (record { body = []; escaped = false; rest = cs })
    else if ltb c 32
    then none
    else if c == backslash
    then elim (escape cs) [ none ↦ none | some n ↦ add_escape c (string_from n cs) ]
    else add_byte c more

-- `utf8.EncodeRune`.
unfoldable pub encode_rune : ℕ → Bytes
encode_rune r =
    if ltb r 128
    then r ∷ []
    else if ltb r 2048
    then (192 + r / 64) ∷ (128 + r % 64) ∷ []
    else if ltb r 65536
    then (224 + r / 4096) ∷ (128 + r / 64 % 64) ∷ (128 + r % 64) ∷ []
    else (240 + r / 262144) ∷ (128 + r / 4096 % 64) ∷ (128 + r / 64 % 64) ∷ (128 + r % 64) ∷ []

-- U+FFFD.
abbrev pub replacement : Bytes
replacement = 239 ∷ 191 ∷ 189 ∷ []

abbrev pub hex_value : ℕ → ℕ
hex_value c = if leb c b'9' then c - b'0' else if leb c b'F' then c - b'A' + 10 else c - b'a' + 10

abbrev pub hex4 : Bytes → ℕ
hex4 text =
    hex_value (get_or text 0 b'0') * 4096
    + hex_value (get_or text 1 b'0') * 256
    + hex_value (get_or text 2 b'0') * 16
    + hex_value (get_or text 3 b'0')

-- `getu4`: the number of an escape `\uhhhh` that a text begins with.
abbrev pub get_u4 : Bytes → Option ℕ
get_u4 (b ∷ u ∷ text) =
    if b == backslash && u == b'u' && four_hex text then some (hex4 text) else none
get_u4 _ = none

abbrev pub is_high : ℕ → Bool
is_high r = leb 55296 r && ltb r 56320

abbrev pub is_low : ℕ → Bool
is_low r = leb 56320 r && ltb r 57344

-- A surrogate with what follows it: their rune, or the replacement for one that stands alone.
abbrev pub paired : ℕ → Option ℕ → Bytes × ℕ
paired r none = (replacement, 6)
paired r (some s) =
    if is_high r && is_low s
    then (encode_rune ((r - 55296) * 1024 + (s - 56320) + 65536), 12)
    else (replacement, 6)

abbrev pub simple_escape : ℕ → ℕ
simple_escape c =
    if c == b'b'
    then 8
    else if c == b'f'
    then 12
    else if c == b'n'
    then 10
    else if c == b'r'
    then 13
    else if c == b't'
    then 9
    else c

abbrev pub unicode_escape : Bytes → Bytes × ℕ
unicode_escape text =
    let r = hex4 text in
    if is_high r || is_low r then paired r (get_u4 (drop 4 text)) else (encode_rune r, 6)

abbrev pub escape_at : Bytes → Bytes × ℕ
escape_at [] = ([], 1)
escape_at (c ∷ cs) = if c == b'u' then unicode_escape cs else (simple_escape c ∷ [], 2)

-- An invalid byte is replaced.
abbrev pub rune_at : ℕ → Bytes → Bytes × ℕ
rune_at c text =
    let size = rune_size text in
    (if size == 1 && leb 128 c then replacement else take size text, size)

-- What the first rune or escape stands for, and how many bytes it takes.
unfoldable pub piece_at : Bytes → Bytes × ℕ
unfolding encode_rune rune_size
piece_at [] = ([], 0)
piece_at (c ∷ cs) = if c == backslash then escape_at cs else rune_at c (c ∷ cs)

-- A piece takes a byte at least.
unfoldable pub unquote_from : ℕ → Bytes → Bytes
unfolding piece_at
unquote_from fuel [] = []
unquote_from zero (c ∷ cs) = []
unquote_from (suc fuel) (c ∷ cs) =
    let (out, n) = piece_at (c ∷ cs) in out ++ unquote_from fuel (drop n (c ∷ cs))

-- What `json.Unmarshal` makes of a quoted string.
unfoldable pub unquote : Bytes → Bytes
unfolding unquote_from
unquote body = unquote_from (length body) body

-- `key`: a body without an escape that is valid UTF-8 is the key.
unfoldable pub key : StringToken → Bytes
unfolding unquote valid_utf8
key t = if not t.escaped && valid_utf8 t.body then t.body else unquote t.body
