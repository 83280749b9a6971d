-- ===== src/Stream/Splitter/JsonResume.antt =====
-- A JSON scanner that resumes returns what a scan from its former place returns.
use guardy.Base.{
  ℕ, zero, suc, ◌+◌, ◌-◌, ◌≤◌, ◌<◌, ◌≡◌, inl, inr, refl, sym, ap, ◌∙◌, Bool, false, List, [], ◌∷◌,
  ◌++◌, length, drop, arith, length-append, length-drop,
}
use guardy.Stream.Buffer.{StreamBuffer, byte_at}
use guardy.Stream.Buffer.Contents.{contents, length-contents}
use guardy.Stream.Splitter.{
  FrameScanner, Framed, framed, Round, again, return, json_round, json_from, json, finish_json,
}
use guardy.Stream.Splitter.JsonUnits.{
  InUnit, again-round, return-round, Round-cases, json_from-again, json_from-return,
}
use guardy.Stream.Splitter.Resume.{drop-all, drop-contents}

-- The rounds of the scanner over a list of bytes.
pub json_bytes : FrameScanner → List ℕ → ℕ → Round
json_bytes f [] max_bytes = again f
json_bytes f (c ∷ cs) max_bytes = elim (json_round f c max_bytes) [
  | again g ↦ json_bytes g cs max_bytes
  | return g r ↦ return g r
]

-- What the scanner returns after those rounds.
pub settle : Round → ℕ → ℕ → Bool → FrameScanner × Framed
settle (again g) size max_bytes final = (g, finish_json g size max_bytes final)
settle (return g r) size max_bytes final = (g, r)

json_bytes-again :
    (f g : FrameScanner) (c : ℕ) (cs : List ℕ) (m : ℕ)
    → json_round f c m ≡ again g
    → json_bytes f (c ∷ cs) m ≡ json_bytes g cs m
unfolding json_bytes
json_bytes-again f g c cs m e = rw (e, json_bytes)

json_bytes-return :
    (f g : FrameScanner) (r : Framed) (c : ℕ) (cs : List ℕ) (m : ℕ)
    → json_round f c m ≡ return g r
    → json_bytes f (c ∷ cs) m ≡ return g r
unfolding json_bytes
json_bytes-return f g r c cs m e = rw (e, json_bytes)

json_from-settle :
    (k : ℕ) (f : FrameScanner) (b : StreamBuffer) (m : ℕ) (final : Bool)
    → k + f.offset ≡ b.size
    → InUnit f m
    → json_from k f b m final ≡ settle (json_bytes f (drop f.offset (contents b)) m) b.size m final
json_from-settle zero f b m final e i =
    rw (drop-all f.offset (contents b) (omega (arith, length-contents b)))
      (unfold json_from json_bytes settle in refl)
json_from-settle (suc k) f b m final e i =
    rw (drop-contents b f.offset (omega arith))
      (elim (Round-cases (json_round f (byte_at b f.offset) m)) [
        | inl (g, r) ↦
            let moved = again-round f g (byte_at b f.offset) m r i in
            rw
              (
                json_from-again k f g b m final r,
                json_bytes-again f g (byte_at b f.offset) (drop (suc f.offset) (contents b)) m r,
              )
              (json_from-settle k g b m final (omega arith) moved.1
                ∙ ap (λ o. settle (json_bytes g (drop o (contents b)) m) b.size m final)
                    {y = suc f.offset} (omega arith))
        | inr (g, x, r) ↦
            rw
              (
                json_from-return k f g x b m final r,
                json_bytes-return f g x (byte_at b f.offset) (drop (suc f.offset) (contents b)) m r,
              )
              (unfold settle in refl)
      ])

-- The scanner at the end of some bytes that hold no end of a unit.
json_bytes-again_offset :
    (f g : FrameScanner) (xs : List ℕ) (m : ℕ)
    → InUnit f m
    → json_bytes f xs m ≡ again g
    → (g.offset ≡ f.offset + length xs) × InUnit g m
json_bytes-again_offset f g [] m i e = unfold json_bytes in ground arith
json_bytes-again_offset f g (x ∷ xs) m i e = elim (Round-cases (json_round f x m)) [
  | inl (h, r) ↦
      let moved = again-round f h x m r i in
      let rest =
        json_bytes-again_offset h g xs m moved.1 (rw (json_bytes-again f h x xs m r) at e) in
      (omega arith, rest.1)
  | inr (h, y, r) ↦ absurd (not_again (sym (json_bytes-return f h y x xs m r) ∙ e))
]
  where
    not_again : {h : FrameScanner} {y : Framed} → return h y ≡ again g → ⊥
    not_again z = cc

json_bytes-append :
    (f g : FrameScanner) (xs ys : List ℕ) (m : ℕ)
    → json_bytes f xs m ≡ again g
    → json_bytes f (xs ++ ys) m ≡ json_bytes g ys m
json_bytes-append f g [] ys m e = ap (λ h. json_bytes h ys m) (unfold json_bytes in ground arith)
json_bytes-append f g (x ∷ xs) ys m e = elim (Round-cases (json_round f x m)) [
  | inl (h, r) ↦
      json_bytes-again f h x (xs ++ ys) m r
      ∙ json_bytes-append h g xs ys m (rw (json_bytes-again f h x xs m r) at e)
  | inr (h, y, r) ↦ absurd (not_again (sym (json_bytes-return f h y x xs m r) ∙ e))
]
  where
    not_again : {h : FrameScanner} {y : Framed} → return h y ≡ again g → ⊥
    not_again z = cc

-- A unit that is returned is not empty.
json_bytes-pos :
    (f g : FrameScanner) (xs : List ℕ) (m n : ℕ)
    → InUnit f m
    → json_bytes f xs m ≡ return g (framed n)
    → 0 < n
json_bytes-pos f g [] m n i e = absurd (unfold json_bytes in ground arith)
json_bytes-pos f g (x ∷ xs) m n i e = elim (Round-cases (json_round f x m)) [
  | inl (h, r) ↦
      json_bytes-pos h g xs m n (again-round f h x m r i).1
        (rw (json_bytes-again f h x xs m r) at e)
  | inr (h, y, r) ↦
      let same : return h y ≡ return g (framed n) = sym (json_bytes-return f h y x xs m r) ∙ e in
      let (place, done) = return-round f g x m n (r ∙ same) in ground arith
]

drop-append : (n : ℕ) (xs ys : List ℕ) → n ≤ length xs → drop n (xs ++ ys) ≡ drop n xs ++ ys
drop-append zero xs ys h = refl
drop-append (suc n) [] ys h = absurd (omega arith)
drop-append (suc n) (x ∷ xs) ys h = drop-append n xs ys (omega arith)

settle-return :
    (g : FrameScanner) (r : Framed) (size m : ℕ) (final : Bool)
    → settle (return g r) size m final ≡ (g, r)
unfolding settle
settle-return g r size m final = refl

settle-again :
    (g : FrameScanner) (size m : ℕ) (final : Bool)
    → settle (again g) size m final ≡ (g, finish_json g size m final)
unfolding settle
settle-again g size m final = refl

pub json-settle :
    (f : FrameScanner) (b : StreamBuffer) (m : ℕ) (final : Bool)
    → f.offset ≤ b.size
    → InUnit f m
    → json f b m final ≡ settle (json_bytes f (drop f.offset (contents b)) m) b.size m final
unfolding json
json-settle f b m final h i = json_from-settle (b.size - f.offset) f b m final (omega arith) i

-- The bytes that come behind a scanner which has read the whole buffer.
drop-grown :
    (b c : StreamBuffer) (p : List ℕ) (n : ℕ)
    → contents c ≡ contents b ++ p
    → n ≡ b.size
    → drop n (contents c) ≡ p
drop-grown b c p n q e =
    ap (drop n) q
    ∙ drop-append n (contents b) p (omega (arith, length-contents b))
    ∙ ap (λ xs. xs ++ p) (drop-all n (contents b) (omega (arith, length-contents b)))

size-grown :
    (b c : StreamBuffer) (p : List ℕ) → contents c ≡ contents b ++ p → c.size ≡ b.size + length p
size-grown b c p q =
    omega (arith, length-contents c, length-contents b, ap length q, length-append (contents b) p)

module _ (f : FrameScanner) (b c : StreamBuffer) (p : List ℕ) (m : ℕ) (h : f.offset ≤ b.size)
    (i : InUnit f m) (q : contents c ≡ contents b ++ p) where
  abbrev pending : List ℕ
  pending = drop f.offset (contents b)

  -- No unit was found because the bytes ran out.
  ran_out :
      (json f b m false).1 ≡ framed 0
      → (g : FrameScanner) × (json_bytes f pending m ≡ again g) × ((json f b m false).0 ≡ g)
  ran_out e = elim (Round-cases (json_bytes f pending m)) [
    | inl (g, r) ↦ (
      g,
      r,
      ap (λ z. z.0)
          (json-settle f b m false h i
            ∙ ap (λ z. settle z b.size m false) r
            ∙ settle-again g b.size m false),
    )
    | inr (g, x, r) ↦
        let found : x ≡ framed 0 =
          sym (
            ap (λ z. z.1)
              (json-settle f b m false h i
                ∙ ap (λ z. settle z b.size m false) r
                ∙ settle-return g x b.size m false))
          ∙ e in
        absurd (omega (arith, json_bytes-pos f g pending m 0 i (r ∙ ap (return g) found)))
  ]

  -- From there both scans read the same bytes.
  same_scan :
      (final : Bool) (g : FrameScanner)
      → json_bytes f pending m ≡ again g
      → json g c m final ≡ json f c m final
  same_scan final g r =
      let (moved, kept) = json_bytes-again_offset f g pending m i r in
      let at_end : g.offset ≡ b.size =
        omega (arith, length-drop f.offset (contents b), length-contents b) in
      let split : json_bytes f (drop f.offset (contents c)) m ≡ json_bytes g p m =
        ap (λ xs. json_bytes f xs m)
          (ap (drop f.offset) q
            ∙ drop-append f.offset (contents b) p (omega (arith, length-contents b)))
        ∙ json_bytes-append f g pending p m r in
      json-settle g c m final (omega (arith, size-grown b c p q)) kept
      ∙ ap (λ xs. settle (json_bytes g xs m) c.size m final) (drop-grown b c p g.offset q at_end)
      ∙ sym (ap (λ z. settle z c.size m final) split)
      ∙ sym (json-settle f c m final (omega (arith, size-grown b c p q)) i)

-- When the JSON scanner finds no unit and more bytes arrive, resuming it returns what a scan of all
-- the bytes from its former place returns, the scanner and its counter of visited bytes included.
pub json_resumes :
    (f : FrameScanner) (b c : StreamBuffer) (p : List ℕ) (m : ℕ) (final : Bool)
    → f.offset ≤ b.size
    → InUnit f m
    → (json f b m false).1 ≡ framed 0
    → contents c ≡ contents b ++ p
    → json (json f b m false).0 c m final ≡ json f c m final
json_resumes f b c p m final h i e q =
    let (g, r, stopped) = ran_out f b c p m h i q e in
    ap (λ x. json x c m final) stopped ∙ same_scan f b c p m h i q final g r
