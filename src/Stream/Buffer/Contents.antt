-- ===== src/Stream/Buffer/Contents.antt =====
-- The ring holds a queue of bytes: appending, reading and consuming are those of the list of its
-- contents, and every index lies inside the ring.
use native.Mathlib.Nat.{mod-lt, mod-eq_of_lt, mod-eq-sub-mod, mod-add-mod, add_assoc}
use guardy.Base.{
  ℕ, zero, suc, ◌+◌, ◌-◌, ◌%◌, ◌≤◌, ◌<◌, min, ltb, ltb→lt, ◌≡◌, ◌⊎◌, inl, inr, refl, sym, ap, ◌∙◌,
  List, ◌++◌, Bool-cases, length, get_or, take, drop, arith, length-append, length-take,
  length-drop, if◌then◌else◌,
}
use guardy.Base.Index.{
  tabulate, length-tabulate, get_or-tabulate, get_or-append, get_or-take, get_or-drop, tabulate-of,
}
use guardy.Stream.Buffer.{StreamBuffer, byte_at, prefix, consume, add_u64}

-- The pending bytes, oldest first.
abbrev pub contents : StreamBuffer → List ℕ
contents b = tabulate b.size (byte_at b)

pub length-contents : (b : StreamBuffer) → length (contents b) ≡ b.size
length-contents b = length-tabulate b.size (byte_at b)

-- A ring of at most `max_bytes`.
pub record IsValid (max_bytes : ℕ) (b : StreamBuffer) : Type 0 where
  pub fits : b.size ≤ length b.bytes
  pub bounded : length b.bytes ≤ max_bytes
  pub head_in : (b.head ≡ 0) ⊎ (b.head < length b.bytes)

-- Every pending byte is read inside the ring.
pub in_bounds :
    (m : ℕ) (b : StreamBuffer) (i : ℕ)
    → IsValid m b
    → i < b.size
    → (b.head + i) % length b.bytes < length b.bytes
in_bounds m b i v h = mod-lt (b.head + i) {m = length b.bytes} (omega arith)

-- An index below twice the length wraps once at most.
pub wrap-once : (k n : ℕ) → k < n + n → k % n ≡ (if ltb k n then k else k - n)
wrap-once k n h = elim (Bool-cases (ltb k n)) [
  | inl e ↦ rw e (mod-eq_of_lt (ltb→lt k n e))
  | inr e ↦ rw e (mod-eq-sub-mod {n = k} {m = n} (ground arith) ∙ mod-eq_of_lt (ground arith))
]

byte_at-wrap :
    (m : ℕ) (b : StreamBuffer) (i : ℕ)
    → IsValid m b
    → i < length b.bytes
    → byte_at b i
      ≡ get_or b.bytes
          (if ltb (b.head + i) (length b.bytes) then b.head + i else b.head + i - length b.bytes)
          0
unfolding byte_at
byte_at-wrap m b i v h =
    ap (λ k. get_or b.bytes k 0) (wrap-once (b.head + i) (length b.bytes) (omega arith))

-- The two slices of `prefix` together read round the end of the ring.
two_slices :
    (xs : List ℕ) (head n i : ℕ)
    → head ≤ length xs
    → n ≤ length xs
    → i < n
    → let first = min n (length xs - head) in
      get_or (take first (drop head xs) ++ take (n - first) xs) i 0
      ≡ get_or xs (if ltb (head + i) (length xs) then head + i else head + i - length xs) 0
two_slices xs head n i h k l =
    let first = min n (length xs - head) in
    ground (
      arith,
      get_or-append (take first (drop head xs)) (take (n - first) xs) i 0,
      length-take first (drop head xs),
      length-drop head xs,
      get_or-take first (drop head xs) i 0,
      get_or-drop head xs i 0,
      get_or-take (n - first) xs (i - first) 0,
    )

length-two_slices :
    (xs : List ℕ) (head n : ℕ)
    → head ≤ length xs
    → n ≤ length xs
    → let first = min n (length xs - head) in
      length (take first (drop head xs) ++ take (n - first) xs) ≡ n
length-two_slices xs head n h k =
    let first = min n (length xs - head) in
    omega (
      arith,
      length-append (take first (drop head xs)) (take (n - first) xs),
      length-take first (drop head xs),
      length-drop head xs,
      length-take (n - first) xs,
    )

-- The first bytes of a table are the table up to there.
take-tabulate : (n k : ℕ) (f : ℕ → ℕ) → n ≤ k → take n (tabulate k f) ≡ tabulate n f
take-tabulate n k f h =
    tabulate-of (take n (tabulate k f)) n f 0
      (omega (arith, length-take n (tabulate k f), length-tabulate k f))
      (λ i l. ground (arith, get_or-take n (tabulate k f) i 0, get_or-tabulate k f i 0))

prefix-suc :
    (b : StreamBuffer) (n : ℕ)
    → prefix b (suc n) ≡ (
      take (min (suc n) (length b.bytes - b.head)) (drop b.head b.bytes)
          ++ take (suc n - min (suc n) (length b.bytes - b.head)) b.bytes,
      record b { copied = add_u64 b.copied (suc n) },
    )
unfolding prefix
prefix-suc b n = ground arith

-- Reading a unit of a valid ring, of no more than the pending bytes, gives the first `n` of them and leaves the same bytes pending.
prefix-contents :
    (m : ℕ) (b : StreamBuffer) (n : ℕ)
    → IsValid m b
    → n ≤ b.size
    → ((prefix b n).0 ≡ take n (contents b)) × (contents (prefix b n).1 ≡ contents b)
prefix-contents m b zero v h = unfold prefix in (refl, refl)
prefix-contents m b (suc n) v h = rw (prefix-suc b n) (
  tabulate-of _ (suc n) (byte_at b) 0
        (length-two_slices b.bytes b.head (suc n) (omega arith) (omega arith))
        (λ i l.
          two_slices b.bytes b.head (suc n) i (omega arith) (omega arith) l
          ∙ sym (byte_at-wrap m b i v (omega arith)))
      ∙ sym (take-tabulate (suc n) b.size (byte_at b) h),
  unfold byte_at in refl,
)

byte_at-consume :
    (m : ℕ) (b : StreamBuffer) (n i : ℕ)
    → IsValid m b
    → n + i < b.size
    → byte_at (consume b n) i ≡ byte_at b (n + i)
unfolding consume byte_at
byte_at-consume m b n i v h =
    ground (arith, mod-add-mod (b.head + n) (length b.bytes) i, add_assoc b.head n i)

-- Consuming a unit of a valid ring, of no more than the pending bytes, drops it from the front of the pending bytes and touches no other.
consume-contents :
    (m : ℕ) (b : StreamBuffer) (n : ℕ)
    → IsValid m b
    → n ≤ b.size
    → contents (consume b n) ≡ drop n (contents b)
consume-contents m b n v h = sym (
    tabulate-of (drop n (contents b)) (consume b n).size (byte_at (consume b n)) 0
      (unfold consume in omega (arith, length-contents b, length-drop n (contents b)))
      (λ i l. reads i (unfold consume in omega arith)))
  where
    reads : (i : ℕ) → n + i < b.size → get_or (drop n (contents b)) i 0 ≡ byte_at (consume b n) i
    reads i l = ground (
      arith,
      get_or-drop n (contents b) i 0,
      get_or-tabulate b.size (byte_at b) (n + i) 0,
      byte_at-consume m b n i v l,
    )

pub consume-IsValid :
    (m : ℕ) (b : StreamBuffer) (n : ℕ) → IsValid m b → n ≤ b.size → IsValid m (consume b n)
unfolding consume
consume-IsValid m b n v h = ground (arith, mod-lt (b.head + n) {m = length b.bytes})
