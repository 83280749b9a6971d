-- ===== src/Stream/Buffer.antt =====
-- stream.go: `streamBuffer`, the bounded ring of pending bytes. Go ints that never go negative are
-- natural numbers; `copied` is a uint64 counter and wraps.
pub mod Contents
pub mod Append
use guardy.Base.{
  ℕ, ◌+◌, ◌-◌, ◌*◌, ◌%◌, ◌^◌, ◌≤◌, ◌<◌, min, max, ltb, leb, ◌==◌, if◌then◌else◌, List, [], ◌∷◌,
  ◌++◌, Bool, true, false, length, get_or, take, drop, replicate,
}
use guardy.Base.Index.{blit, tabulate}

abbrev pub add_u64 : ℕ → ℕ → ℕ
add_u64 a b = (a + b) % 2 ^ 64

pub record StreamBuffer : Type 0 where
  pub bytes : List ℕ
  pub head : ℕ
  pub size : ℕ
  pub copied : ℕ

abbrev pub empty_buffer : StreamBuffer
empty_buffer = record { bytes = []; head = 0; size = 0; copied = 0 }

-- An index out of range panics in the source; `Contents.in_bounds` rules it out.
unfoldable pub byte_at : StreamBuffer → ℕ → ℕ
byte_at b i = get_or b.bytes ((b.head + i) % length b.bytes) 0

-- The capacity of the new ring: doubled, but no more than `max_bytes` and no less than `required`.
-- The source compares `len <= max - len` on signed numbers.
abbrev pub grown_capacity : ℕ → ℕ → ℕ → ℕ
grown_capacity old required max_bytes =
    if leb (old + old) max_bytes then min max_bytes (max required (old * 2)) else max_bytes

-- The loop that copies the `size` pending bytes to the front of the new ring.
unfoldable pub grow : StreamBuffer → ℕ → StreamBuffer
grow b capacity = record {
  bytes = tabulate b.size (byte_at b) ++ replicate (capacity - b.size) 0;
  head = 0;
  size = b.size;
  copied = add_u64 b.copied b.size;
}

unfoldable pub reserve : StreamBuffer → ℕ → ℕ → StreamBuffer
reserve b required max_bytes =
    if ltb (length b.bytes) required
    then grow b (grown_capacity (length b.bytes) required max_bytes)
    else b

-- The two calls of `copy`, the second from the front of the ring.
unfoldable pub copy_in : StreamBuffer → List ℕ → StreamBuffer
copy_in b p =
    let tail = (b.head + b.size) % length b.bytes in
    let first = min (length p) (length b.bytes - tail) in
    record b {
      bytes = blit (blit b.bytes tail (take first p)) 0 (drop first p);
      size = b.size + length p;
      copied = add_u64 b.copied (length p);
    }

unfoldable pub append : StreamBuffer → List ℕ → ℕ → StreamBuffer
append b p max_bytes =
    let r = reserve b (b.size + length p) max_bytes in if length p == 0 then r else copy_in r p

-- `prefix` returns the unit and counts the copy.
unfoldable pub prefix : StreamBuffer → ℕ → List ℕ × StreamBuffer
prefix b n =
    let first = min n (length b.bytes - b.head) in
    if n == 0 then ([], b) else (
      take first (drop b.head b.bytes) ++ take (n - first) b.bytes,
      record b { copied = add_u64 b.copied n },
    )

unfoldable pub consume : StreamBuffer → ℕ → StreamBuffer
consume b n =
    let size = b.size - n in
    let head = (b.head + n) % length b.bytes in
    record b { size = size; head = if size == 0 then 0 else head }

unfoldable pub clear : StreamBuffer → StreamBuffer
clear b = record b { bytes = []; head = 0; size = 0 }
