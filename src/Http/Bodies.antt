-- ===== src/Http/Bodies.antt =====
-- The wrappers of bodies: what adopting, closing and the end of a callback leave open.
use guardy.Base.{
  ℕ, ◌<◌, ◌==◌, true, false, ◌||◌, ◌≡◌, ◌≢◌, inl, inr, refl, sym, ap, subst, ◌∙◌, arith, List, [],
  ◌∷◌, ◌++◌, Option, Bool-cases,
}
use guardy.Fault.Tree.{Error}
use guardy.Ext.Bytes.{Bytes}
use guardy.Http.{
  Body, no_body, raw, owned, Request, Called, Left, kept, dropped, replaced, is_closed, close_owned,
  adopt, adopt_body, close_replaced, finish_callback, restore_body, borrow, apply_left,
}

-- Every wrapper that was made is closed; or every one but `k`.
abbrev pub Closed : {W : Type 0} → Request W → Type 0
Closed r = (j : ℕ) → j < r.made → is_closed j r.closed ≡ true

abbrev pub ClosedBut : {W : Type 0} → ℕ → Request W → Type 0
ClosedBut k r = (j : ℕ) → j < r.made → j ≢ k → is_closed j r.closed ≡ true

-- A request whose body may be one of the wrappers, and the others are closed.
abbrev pub Tidy : {W : Type 0} → Request W → Type 0
Tidy r = (j : ℕ) → j < r.made → r.body ≢ owned j → is_closed j r.closed ≡ true

is_closed-snoc : (j k : ℕ) (ks : List ℕ) → is_closed j (ks ++ k ∷ []) ≡ (is_closed j ks || (k == j))
is_closed-snoc j k [] = ground arith
is_closed-snoc j k (n ∷ ks) = ground (arith, is_closed-snoc j k ks)

same-closed : (j k : ℕ) (ks : List ℕ) → is_closed k ks ≡ true → k ≡ j → is_closed j ks ≡ true
same-closed j k ks h e = subst (λ n. is_closed n ks ≡ true) e h

module _ {W : Type 0} (close_err : ℕ → Option Error) where
  close-is_closed :
      (k : ℕ) (r : Request W) (j : ℕ)
      → is_closed j (close_owned close_err k r).1.closed ≡ (is_closed j r.closed || (k == j))
  unfolding close_owned
  close-is_closed k r j = elim (Bool-cases (is_closed k r.closed)) [
    | inl e ↦ rw e (ground (arith, same-closed j k r.closed e))
    | inr e ↦ rw e (is_closed-snoc j k r.closed)
  ]

  close-made : (k : ℕ) (r : Request W) → (close_owned close_err k r).1.made ≡ r.made
  unfolding close_owned
  close-made k r = ground arith

  close-but :
      (k n : ℕ) (r : Request W)
      → ((j : ℕ) → j < r.made → j ≢ k → j ≢ n → is_closed j r.closed ≡ true)
      → ClosedBut n (close_owned close_err k r).1
  close-but k n r h j lt ne =
      ground (arith, close-is_closed k r j, h j (omega (arith, close-made k r)))

  pub close-Closed : (k : ℕ) (r : Request W) → ClosedBut k r → Closed (close_owned close_err k r).1
  close-Closed k r h j lt =
      ground (arith, close-is_closed k r j, h j (omega (arith, close-made k r)))

  adopt_body-but :
      (b : Body) (r : Request W)
      → ((j : ℕ) → j < r.made → b ≢ owned j → is_closed j r.closed ≡ true)
      → ClosedBut (adopt_body close_err b r).0 (adopt_body close_err b r).1
  adopt_body-but (owned k) r h j lt ne = h j lt (λ e. ne (cc))
  adopt_body-but raw r h j lt ne = h j (omega arith) (λ e. cc)
  adopt_body-but no_body r h j lt ne = h j (omega arith) (λ e. cc)

  pub adopt-but : (r : Request W) → Tidy r → ClosedBut (adopt close_err r).0 (adopt close_err r).1
  unfolding adopt
  adopt-but r h = adopt_body-but r.body r h

  adopt_body-beside :
      (k : ℕ) (b : Body) (r : Request W)
      → ClosedBut k r
      → (j : ℕ) → j < (adopt_body close_err b r).1.made
      → j ≢ k
      → j ≢ (adopt_body close_err b r).0
      → is_closed j (adopt_body close_err b r).1.closed ≡ true
  adopt_body-beside k (owned n) r h j lt ne ne' = h j lt ne
  adopt_body-beside k raw r h j lt ne ne' = h j (omega arith) ne
  adopt_body-beside k no_body r h j lt ne ne' = h j (omega arith) ne

  close_replaced-but :
      (cur k : ℕ) (r : Request W)
      → ((j : ℕ) → j < r.made → j ≢ k → j ≢ cur → is_closed j r.closed ≡ true)
      → ClosedBut cur (close_replaced close_err cur k r).1
  close_replaced-but cur k r h = elim (Bool-cases (cur == k)) [
    | inl e ↦ rw e (λ j lt ne. h j lt (λ p. ne (ground arith)) ne)
    | inr e ↦ rw e (close-but k cur r h)
  ]

  -- Closing at the end of a callback leaves only the body that is kept.
  pub finish-Closed :
      (k : ℕ) (r : Request W) → ClosedBut k r → Closed (finish_callback close_err k false r).1
  unfolding finish_callback adopt
  finish-Closed k r h =
      let cur = (adopt_body close_err r.body r).0 in
      let s = (adopt_body close_err r.body r).1 in
      close-Closed cur (close_replaced close_err cur k s).1
        (close_replaced-but cur k s (adopt_body-beside k r.body r h))

  but-Tidy : (k : ℕ) (r : Request W) → r.body ≡ owned k → ClosedBut k r → Tidy r
  but-Tidy k r e h j lt ne = h j lt (λ p. ne (e ∙ ap owned (sym p)))

  pub Closed-Tidy : (r : Request W) → Closed r → Tidy r
  Closed-Tidy r h j lt ne = h j lt

  adopt_body-body :
      (b : Body) (r : Request W)
      → r.body ≡ b
      → (adopt_body close_err b r).1.body ≡ owned (adopt_body close_err b r).0
  adopt_body-body (owned k) r e = e
  adopt_body-body raw r e = refl
  adopt_body-body no_body r e = refl

  close_replaced-body :
      (cur k : ℕ) (r : Request W) → (close_replaced close_err cur k r).1.body ≡ r.body
  unfolding close_owned
  close_replaced-body cur k r = ground arith

  -- A callback's body that is kept is the only one that may be open.
  pub finish-Tidy :
      (k : ℕ) (r : Request W) → ClosedBut k r → Tidy (finish_callback close_err k true r).1
  unfolding finish_callback adopt
  finish-Tidy k r h =
      let cur = (adopt_body close_err r.body r).0 in
      let s = (adopt_body close_err r.body r).1 in
      but-Tidy cur (close_replaced close_err cur k s).1
        (close_replaced-body cur k s ∙ adopt_body-body r.body r refl)
        (close_replaced-but cur k s (adopt_body-beside k r.body r h))

  pub restore-but :
      (text : Bytes) (r : Request W)
      → Closed r
      → ClosedBut (restore_body close_err text r).0 (restore_body close_err text r).1
  unfolding restore_body adopt
  restore-but text r h j lt ne = h j (omega arith)

  pub restore-Tidy :
      (text : Bytes) (r : Request W) → Closed r → Tidy (restore_body close_err text r).1
  unfolding restore_body adopt
  restore-Tidy text r h j lt ne = h j (ground arith)

  apply_left-but :
      (left : Left) (k : ℕ) (r : Request W)
      → ClosedBut k r
      → ClosedBut k (apply_left close_err left r)
  apply_left-but kept k r h = h
  apply_left-but dropped k r h = h
  apply_left-but (replaced text) k r h = h

  pub borrow-but :
      {A : Type 0} (k : ℕ) (answer : Called A × W) (r : Request W)
      → ClosedBut k r
      → ClosedBut k (borrow close_err k answer r)
  unfolding borrow
  borrow-but k (c, w) r h = elim (Bool-cases c.closes) [
    | inl e ↦ rw e (apply_left-but c.left k _ (λ j lt ne. close-Closed k r h j lt))
    | inr e ↦ rw e (apply_left-but c.left k _ h)
  ]
