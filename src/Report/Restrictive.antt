-- ===== src/Report/Restrictive.antt =====
-- The aggregated payload kind is the most restrictive one, whatever the order of the reports.
use mathlib.Core.List.{Perm, Permᴰ}
use mathlib.Core.Logic.{∥∥₁_elim}
use native.Mathlib.Nat.{ℕ_set}
use guardy.Base.{ℕ, ◌≤◌, max, ◌≡◌, ◌⊎◌, inl, refl, ap, ◌∙◌, List, [], ◌∷◌, arith, All}
use guardy.Kinds.{PayloadKind, safe_user_text, payload_kind_priority}
use guardy.Report.{Report, narrow, aggregate_from, aggregate_payload_kind}

-- The highest priority among some reports.
pub top_priority : List Report → ℕ
top_priority [] = 1
top_priority (r ∷ rs) = max (payload_kind_priority r.payload_kind) (top_priority rs)

narrow-priority :
    (best k : PayloadKind)
    → 1 ≤ payload_kind_priority best
    → payload_kind_priority (narrow best k)
      ≡ max (payload_kind_priority best) (payload_kind_priority k)
unfolding narrow payload_kind_priority
narrow-priority best k h = ground arith

aggregate_from-priority :
    (best : PayloadKind) (rs : List Report)
    → 1 ≤ payload_kind_priority best
    → payload_kind_priority (aggregate_from best rs)
      ≡ max (payload_kind_priority best) (top_priority rs)
unfolding aggregate_from top_priority
aggregate_from-priority best [] h = omega arith
aggregate_from-priority best (r ∷ rs) h = omega (
  arith,
  narrow-priority best r.payload_kind h,
  aggregate_from-priority (narrow best r.payload_kind) rs,
)

-- The priority of the aggregated kind is the highest one among the reports, and at least that of
-- safe user text.
pub aggregate_payload_kind-priority :
    (rs : List Report) → payload_kind_priority (aggregate_payload_kind rs) ≡ max 1 (top_priority rs)
unfolding aggregate_payload_kind payload_kind_priority
aggregate_payload_kind-priority rs =
    aggregate_from-priority safe_user_text rs (unfold payload_kind_priority in omega arith)

-- A kind in range is known by its priority.
kind_of_priority :
    (k l : PayloadKind)
    → 1 ≤ payload_kind_priority k
    → payload_kind_priority k ≡ payload_kind_priority l
    → k ≡ l
unfolding payload_kind_priority
kind_of_priority k l h e = ground arith

top_priority-perm : {xs ys : List Report} → Permᴰ xs ys → top_priority xs ≡ top_priority ys
unfolding top_priority
top_priority-perm Permᴰ.nil = refl
top_priority-perm (Permᴰ.cons e p) =
    omega (arith, ap (λ r. payload_kind_priority r.payload_kind) e, top_priority-perm p)
top_priority-perm (Permᴰ.swap e d) = omega (
  arith,
  ap (λ r. payload_kind_priority r.payload_kind) e,
  ap (λ r. payload_kind_priority r.payload_kind) d,
)
top_priority-perm (Permᴰ.trans p q) = top_priority-perm p ∙ top_priority-perm q

-- The aggregated kind does not depend on the order in which the reports arrived.
pub aggregate_payload_kind-perm :
    {xs ys : List Report} → Perm xs ys → aggregate_payload_kind xs ≡ aggregate_payload_kind ys
aggregate_payload_kind-perm {xs} {ys} p =
    kind_of_priority (aggregate_payload_kind xs) (aggregate_payload_kind ys)
      (omega (arith, aggregate_payload_kind-priority xs))
      (omega (
        arith,
        aggregate_payload_kind-priority xs,
        aggregate_payload_kind-priority ys,
        ∥∥₁_elim p (ℕ_set (top_priority xs) (top_priority ys)) top_priority-perm,
      ))

All-le-top :
    (n : ℕ) (rs : List Report)
    → top_priority rs ≤ n
    → All (λ r. payload_kind_priority r.payload_kind ≤ n) rs
unfolding top_priority
All-le-top n [] h = tt
All-le-top n (r ∷ rs) h = (omega arith, All-le-top n rs (omega arith))

-- The kind of one of the reports.
abbrev pub Attains : PayloadKind → List Report → Type 0
Attains k [] = ⊥
Attains k (r ∷ rs) = (k ≡ r.payload_kind) ⊎ Attains k rs

aggregate_from-Attains :
    (best : PayloadKind) (rs : List Report)
    → (aggregate_from best rs ≡ best) ⊎ Attains (aggregate_from best rs) rs
unfolding aggregate_from narrow
aggregate_from-Attains best [] = inl refl
aggregate_from-Attains best (r ∷ rs) =
    ground (arith, aggregate_from-Attains (narrow best r.payload_kind) rs)

-- Every report's kind is at most as restrictive as the aggregate, and the aggregate is safe user
-- text or the kind of one of the reports, so nothing is lost and nothing is made up.
aggregate_payload_kind-bounds :
    (rs : List Report)
    → All
        (λ r.
          payload_kind_priority r.payload_kind ≤ payload_kind_priority (aggregate_payload_kind rs))
        rs
      × ((aggregate_payload_kind rs ≡ safe_user_text) ⊎ Attains (aggregate_payload_kind rs) rs)
unfolding aggregate_payload_kind
aggregate_payload_kind-bounds rs = (
  All-le-top _ rs (omega (arith, aggregate_payload_kind-priority rs)),
  aggregate_from-Attains safe_user_text rs,
)
