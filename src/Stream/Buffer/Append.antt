-- ===== src/Stream/Buffer/Append.antt =====
-- Appending to the ring, with growth and wrapping, appends to the list of its contents.
use native.Mathlib.Nat.{mod-eq_of_lt}
use guardy.Base.{
  ℕ, ◌+◌, ◌-◌, ◌%◌, ◌≤◌, ◌<◌, min, ltb, ◌≡◌, inl, inr, refl, sym, ap, ◌∙◌, List, [], ◌∷◌, ◌++◌,
  Bool-cases, length, get_or, take, drop, arith, length-append, length-take, length-drop,
  length-replicate, replicate, if◌then◌else◌, append-nil,
}
use guardy.Base.Index.{
  tabulate, blit, length-tabulate, get_or-tabulate, length-blit, get_or-append, get_or-take,
  get_or-drop, get_or-blit, tabulate-of,
}
use guardy.Stream.Buffer.{StreamBuffer, byte_at, grow, reserve, grown_capacity, copy_in, append}
use guardy.Stream.Buffer.Contents.{contents, length-contents, IsValid, wrap-once}

-- What `reserve` must leave: the same bytes, and room for `required` of them.
reserve_room :
    (m : ℕ) (b : StreamBuffer) (required : ℕ)
    → IsValid m b
    → b.size ≤ required
    → required ≤ m
    → IsValid m (reserve b required m)
      × (required ≤ length (reserve b required m).bytes)
      × ((reserve b required m).size ≡ b.size)
unfolding reserve grow
reserve_room m b required v h k =
    let capacity = grown_capacity (length b.bytes) required m in
    ground (
      arith,
      length-append (tabulate b.size (byte_at b)) (replicate (capacity - b.size) 0),
      length-tabulate b.size (byte_at b),
      length-replicate {A = ℕ} (capacity - b.size) 0,
    )

byte_at-grow :
    (b : StreamBuffer) (capacity i : ℕ)
    → i < b.size
    → b.size ≤ capacity
    → byte_at (grow b capacity) i ≡ byte_at b i
byte_at-grow b capacity i h k =
    unfold byte_at grow in
    ground (
      arith,
      length-append (tabulate b.size (byte_at b)) (replicate (capacity - b.size) 0),
      length-tabulate b.size (byte_at b),
      length-replicate {A = ℕ} (capacity - b.size) 0,
      mod-eq_of_lt {n = i} {m = capacity},
      get_or-append (tabulate b.size (byte_at b)) (replicate (capacity - b.size) 0) i 0,
      get_or-tabulate b.size (byte_at b) i 0,
    )

-- Making room keeps the pending bytes.
reserve-contents :
    (m : ℕ) (b : StreamBuffer) (required : ℕ)
    → IsValid m b
    → b.size ≤ required
    → required ≤ m
    → contents (reserve b required m) ≡ contents b
unfolding reserve
reserve-contents m b required v h k = elim (Bool-cases (ltb (length b.bytes) required)) [
  | inl e ↦ rw (e, reserve) (grown (grown_capacity (length b.bytes) required m) (ground arith))
  | inr e ↦ rw (e, reserve) refl
]
  where
    grown : (capacity : ℕ) → b.size ≤ capacity → contents (grow b capacity) ≡ contents b
    grown capacity l = sym (
        tabulate-of (contents b) (grow b capacity).size (byte_at (grow b capacity)) 0
          (unfold grow in length-contents b)
          (λ i j. ground (
            arith,
            get_or-tabulate b.size (byte_at b) i 0 (unfold grow in j),
            byte_at-grow b capacity i (unfold grow in j) l,
          )))

-- Two writes that do not meet, read at an index: the second at the front of the ring.
get_or-blit_twice :
    (xs p q : List ℕ) (tail j : ℕ)
    → tail + length p ≤ length xs
    → length q ≤ tail
    → get_or (blit (blit xs tail p) 0 q) j 0 ≡ (
        if ltb j (length q)
        then get_or q j 0
        else if ltb j tail
        then get_or xs j 0
        else if ltb j (tail + length p)
        then get_or p (j - tail) 0
        else get_or xs j 0)
get_or-blit_twice xs p q tail j h k =
    ground (
      arith,
      length-blit xs tail p,
      get_or-blit (blit xs tail p) 0 q j 0,
      get_or-blit xs tail p j 0,
    )

-- What the ring holds at a pending index after the copy.
byte_at-copy_in :
    (m : ℕ) (b : StreamBuffer) (p : List ℕ) (i : ℕ)
    → IsValid m b
    → b.size + length p ≤ length b.bytes
    → i < b.size + length p
    → byte_at (copy_in b p) i ≡ (if ltb i b.size then byte_at b i else get_or p (i - b.size) 0)
unfolding copy_in byte_at
byte_at-copy_in m b p i v h k =
    let size = length b.bytes in
    let tail = (b.head + b.size) % size in
    let first = min (length p) (size - tail) in
    ground (
      arith,
      wrap-once (b.head + b.size) size,
      wrap-once (b.head + i) size,
      length-blit (blit b.bytes tail (take first p)) 0 (drop first p),
      length-blit b.bytes tail (take first p),
      length-take first p,
      length-drop first p,
      get_or-take first p (i - b.size) 0,
      get_or-drop first p ((b.head + i) % size) 0,
      get_or-blit_twice b.bytes (take first p) (drop first p) tail ((b.head + i) % size),
    )

copy_in-contents :
    (m : ℕ) (b : StreamBuffer) (p : List ℕ)
    → IsValid m b
    → b.size + length p ≤ length b.bytes
    → contents (copy_in b p) ≡ contents b ++ p
copy_in-contents m b p v h = sym (
    tabulate-of (contents b ++ p) (copy_in b p).size (byte_at (copy_in b p)) 0
      (unfold copy_in in omega (arith, length-append (contents b) p, length-contents b))
      (λ i l. reads i (unfold copy_in in l)))
  where
    reads : (i : ℕ) → i < b.size + length p → get_or (contents b ++ p) i 0 ≡ byte_at (copy_in b p) i
    reads i l = ground (
      arith,
      length-contents b,
      get_or-append (contents b) p i 0,
      get_or-tabulate b.size (byte_at b) i 0,
      byte_at-copy_in m b p i v h l,
    )

copy_in-IsValid :
    (m : ℕ) (b : StreamBuffer) (p : List ℕ)
    → IsValid m b
    → b.size + length p ≤ length b.bytes
    → IsValid m (copy_in b p)
unfolding copy_in
copy_in-IsValid m b p v h =
    let tail = (b.head + b.size) % length b.bytes in
    let first = min (length p) (length b.bytes - tail) in
    ground (
      arith,
      length-blit (blit b.bytes tail (take first p)) 0 (drop first p),
      length-blit b.bytes tail (take first p),
    )

append-cons :
    (b : StreamBuffer) (x : ℕ) (p : List ℕ) (m : ℕ)
    → append b (x ∷ p) m ≡ copy_in (reserve b (b.size + length (x ∷ p)) m) (x ∷ p)
unfolding append
append-cons b x p m = ground arith

-- Appending bytes that fit into the budget to a valid ring puts them behind the pending ones, through growth and
-- round the end of the ring, and keeps the ring within the budget.
pub append-contents :
    (m : ℕ) (b : StreamBuffer) (p : List ℕ)
    → IsValid m b
    → b.size + length p ≤ m
    → (contents (append b p m) ≡ contents b ++ p) × IsValid m (append b p m)
append-contents m b [] v h =
    unfold append in
    let (w, room, same) = reserve_room m b (b.size + 0) v (omega arith) h in
    (reserve-contents m b (b.size + 0) v (omega arith) h ∙ sym (append-nil (contents b)), w)
append-contents m b (x ∷ p) v h =
    let required = b.size + length (x ∷ p) in
    let (w, room, same) = reserve_room m b required v (omega arith) h in
    let fits : (reserve b required m).size + length (x ∷ p) ≤ length (reserve b required m).bytes =
      omega arith in
    rw (append-cons b x p m) (
      copy_in-contents m (reserve b required m) (x ∷ p) w fits
          ∙ ap (λ xs. xs ++ x ∷ p) (reserve-contents m b required v (omega arith) h),
      copy_in-IsValid m (reserve b required m) (x ∷ p) w fits,
    )
