-- ===== src/Decision/Priority.antt =====
-- `RunResult.Decision`: the strongest report decides, in any order, and observations never do.
use mathlib.Core.List.{Perm, Permᴰ}
use mathlib.Core.Logic.{∥∥₁_elim}
use native.Mathlib.Nat.{ℕ_set}
use guardy.Base.{
  ℕ, ◌≤◌, max, true, false, ◌≡◌, ◌↔◌, ◌⊎◌, refl, ◌∙◌, List, [], ◌∷◌, Option, none, some,
  if◌then◌else◌, arith, All,
}
use guardy.Kinds.{FailureDisposition, system_fault}
use guardy.Report.{Report, effective, is_observation, normalize_report, finish_report}
use guardy.Report.Disposition.{effective_stable, effective_known}
use guardy.Decision.{report_priority, select_from, decide_by, decision_of}

-- The highest priority among the reports that are no observations.
unfoldable pub top_rank : List Report → ℕ
top_rank [] = 0
top_rank (r ∷ rs) =
    if is_observation (some r) then top_rank rs else max (report_priority r) (top_rank rs)

rank_of : Option Report → ℕ
rank_of none = 0
rank_of (some r) = report_priority r

select_from-rank :
    (selected : Option Report) (p : ℕ) (rs : List Report)
    → p ≡ rank_of selected
    → rank_of (select_from selected p rs) ≡ max p (top_rank rs)
unfolding select_from top_rank rank_of
select_from-rank selected p [] e = omega arith
select_from-rank selected p (r ∷ rs) e =
    ground (
      arith,
      select_from-rank selected p rs e,
      select_from-rank (some r) (report_priority r) rs refl,
    )

report_priority-normalize :
    (r : Report) → report_priority (normalize_report (some r)) ≡ report_priority r
unfolding report_priority normalize_report
report_priority-normalize r = ground (arith, effective_stable r)

report_priority_pos : (r : Report) → 1 ≤ report_priority r
unfolding report_priority
report_priority_pos r = ground arith

decide_by-priority :
    (selected : Option Report) → report_priority (decide_by selected) ≡ max 1 (rank_of selected)
unfolding rank_of
decide_by-priority none = unfold report_priority finish_report in refl
decide_by-priority (some r) = omega (arith, report_priority-normalize r, report_priority_pos r)

-- The report that decides a run has the highest priority among the reports that are no
-- observations, and that of a pass if there is none.
pub decision_of-priority :
    (rs : List Report) → report_priority (decision_of rs) ≡ max 1 (top_rank rs)
unfolding decision_of rank_of
decision_of-priority rs =
    omega (arith, decide_by-priority (select_from none 0 rs), select_from-rank none 0 rs refl)

-- A disposition is known by the priority that it gives.
effective_of_priority :
    (r s : Report) → report_priority r ≡ report_priority s → effective r ≡ effective s
unfolding report_priority
effective_of_priority r s e = ground (arith, effective_known r, effective_known s)

top_rank-perm : {xs ys : List Report} → Permᴰ xs ys → top_rank xs ≡ top_rank ys
unfolding top_rank
top_rank-perm Permᴰ.nil = refl
top_rank-perm (Permᴰ.cons {a = r} e p) = rw (← e) (ground (arith, top_rank-perm p))
top_rank-perm (Permᴰ.swap e d) = rw (← e, ← d) (ground arith)
top_rank-perm (Permᴰ.trans p q) = top_rank-perm p ∙ top_rank-perm q

-- Neither the disposition nor the priority of the decision depends on the order of the reports,
-- which the parallel phase leaves open.
pub decision_of-perm :
    {xs ys : List Report}
    → Perm xs ys
    → (effective (decision_of xs) ≡ effective (decision_of ys))
      × (report_priority (decision_of xs) ≡ report_priority (decision_of ys))
decision_of-perm {xs} {ys} p = (effective_of_priority (decision_of xs) (decision_of ys) same, same)
  where
    same : report_priority (decision_of xs) ≡ report_priority (decision_of ys)
    same = omega (
      arith,
      decision_of-priority xs,
      decision_of-priority ys,
      ∥∥₁_elim p (ℕ_set (top_rank xs) (top_rank ys)) top_rank-perm,
    )

-- A report that a run may let pass: an observation, or one of disposition none.
abbrev pub Harmless : Report → Type 0
Harmless r = (is_observation (some r) ≡ true) ⊎ (effective r ≡ FailureDisposition.none)

-- A fault among the reports.
abbrev pub HasFault : List Report → Type 0
HasFault [] = ⊥
HasFault (r ∷ rs) = (effective r ≡ system_fault) ⊎ HasFault rs

effective-none_priority :
    (r : Report) → (effective r ≡ FailureDisposition.none) ↔ (report_priority r ≤ 2)
unfolding report_priority
effective-none_priority r = (λ e. ground arith, λ h. ground (arith, effective_known r))

effective-fault_priority : (r : Report) → (effective r ≡ system_fault) ↔ (7 ≤ report_priority r)
unfolding report_priority
effective-fault_priority r = (λ e. ground arith, λ h. ground arith)

fault-not-observation : (r : Report) → effective r ≡ system_fault → is_observation (some r) ≡ false
unfolding is_observation
fault-not-observation r e = ground arith

top_rank-Harmless : (rs : List Report) → (top_rank rs ≤ 2) ↔ All Harmless rs
unfolding top_rank
top_rank-Harmless [] = (λ h. tt, λ h. omega arith)
top_rank-Harmless (r ∷ rs) = (
  λ h. (ground (arith, effective-none_priority r), ground (arith, top_rank-Harmless rs)),
  λ h. ground (arith, effective-none_priority r, top_rank-Harmless rs),
)

top_rank-fault : (rs : List Report) → (7 ≤ top_rank rs) ↔ HasFault rs
unfolding top_rank
top_rank-fault [] = (λ h. omega arith, λ h. elim h [ ])
top_rank-fault (r ∷ rs) = (
  λ h. ground (arith, effective-fault_priority r, top_rank-fault rs),
  λ h. ground (arith, effective-fault_priority r, fault-not-observation r, top_rank-fault rs),
)

-- A run is let pass exactly when every report is an observation or of disposition none.
pub decision_of-none_iff :
    (rs : List Report) → (effective (decision_of rs) ≡ FailureDisposition.none) ↔ All Harmless rs
decision_of-none_iff rs = (
  λ e.
      (top_rank-Harmless rs).0
        (omega (arith, decision_of-priority rs, (effective-none_priority (decision_of rs)).0 e)),
  λ h.
      (effective-none_priority (decision_of rs)).1
        (omega (arith, decision_of-priority rs, (top_rank-Harmless rs).1 h)),
)

-- A run is a fault exactly when one of its reports is: no block, retry or shadow mode hides it.
pub decision_of-fault_iff :
    (rs : List Report) → (effective (decision_of rs) ≡ system_fault) ↔ HasFault rs
decision_of-fault_iff rs = (
  λ e.
      (top_rank-fault rs).0
        (omega (arith, decision_of-priority rs, (effective-fault_priority (decision_of rs)).0 e)),
  λ h.
      (effective-fault_priority (decision_of rs)).1
        (omega (arith, decision_of-priority rs, (top_rank-fault rs).1 h)),
)
