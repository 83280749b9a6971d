-- ===== src/Pipeline/UserChannel.antt =====
-- The user channel: a value reaches the caller of `Run` only if every report calls it safe text and
-- none denies it.
use guardy.Base.{
  ◌≤◌, true, false, ◌≡◌, ◌≢◌, ◌⊎◌, refl, List, [], ◌∷◌, ◌++◌, some, arith, Bool-cases, inl, inr,
}
use guardy.Kinds.{
  PayloadKind, safe_user_text, same_kind, terminal_deny, system_fault, kind_out_of_range,
}
use guardy.Report.{
  Report, effective, is_terminal_deny, is_system_fault, effective_disposition, finish_report,
  is_observation, aggregate_payload_kind,
}
use guardy.Decision.{decision_of, report_priority}
use guardy.Decision.Priority.{top_rank, decision_of-priority}
use guardy.Decision.Canonical.{aggregate-in_range}
use guardy.Pipeline.Rules.{Pipeline}
use guardy.Pipeline.Run.{finalize_result, channel_reports, unsafe, denied, user_channel_report}

top_rank-last :
    (xs : List Report) (r : Report)
    → is_observation (some r) ≡ false
    → report_priority r ≤ top_rank (xs ++ r ∷ [])
unfolding top_rank
top_rank-last [] r o = ground arith
top_rank-last (x ∷ xs) r o = ground (arith, top_rank-last xs r o)

module _ {W T : Type 0} (origin : T) (p : Pipeline W T) where
  user_channel_report-priority :
      (k : PayloadKind)
      → kind_out_of_range k ≡ false
      → (report_priority (user_channel_report p k) ≡ 6)
        × (is_observation (some (user_channel_report p k)) ≡ false)
  unfolding user_channel_report finish_report report_priority is_observation
  user_channel_report-priority k h = (ground arith, ground arith)

  high_priority :
      (r : Report)
      → 6 ≤ report_priority r
      → (effective r ≡ terminal_deny) ⊎ (effective r ≡ system_fault)
  unfolding report_priority
  high_priority r h = ground arith

  unsafe-channel_reports :
      (reports : List Report)
      → p.user_channel ≡ true
      → same_kind (aggregate_payload_kind reports) safe_user_text ≡ false
      → (unsafe p reports ≡ true)
        × (channel_reports p reports
            ≡ reports ++ user_channel_report p (aggregate_payload_kind reports) ∷ [])
  unfolding unsafe channel_reports
  unsafe-channel_reports reports u k = (ground arith, ground arith)

  -- On the user channel `finalizeResult`, of reports that call the value anything but safe user text,
  -- yields the zero value, and the reports of its result decide a denial or a fault.
  pub finalize_result-unsafe :
      (output : T) (reports : List Report)
      → p.user_channel ≡ true
      → same_kind (aggregate_payload_kind reports) safe_user_text ≡ false
      → let r = finalize_result origin p output reports in
        (r.output ≡ origin)
        × ((effective (decision_of r.reports) ≡ terminal_deny)
            ⊎ (effective (decision_of r.reports) ≡ system_fault))
  unfolding finalize_result
  finalize_result-unsafe output reports u k =
      let kind = aggregate_payload_kind reports in
      let fits = user_channel_report-priority kind (aggregate-in_range reports) in
      let shown = unsafe-channel_reports reports u k in
      (
        rw (shown.0) refl,
        rw (shown.1) (
            high_priority _ (
              omega (
                arith,
                decision_of-priority (reports ++ user_channel_report p kind ∷ []),
                top_rank-last reports (user_channel_report p kind) fits.1,
                fits.0,
              ))),
      )

  safe-channel_reports :
      (reports : List Report)
      → p.user_channel ≡ true
      → unsafe p reports ≡ false
      → (channel_reports p reports ≡ reports)
        × (same_kind (aggregate_payload_kind reports) safe_user_text ≡ true)
  unfolding unsafe channel_reports
  safe-channel_reports reports u e = (ground arith, ground arith)

  denied-false :
      (reports : List Report)
      → p.user_channel ≡ true
      → denied p reports ≡ false
      → (effective (decision_of reports) ≢ terminal_deny)
        × (effective (decision_of reports) ≢ system_fault)
  unfolding denied is_terminal_deny is_system_fault effective_disposition
  denied-false reports u d = (λ e. ground arith, λ e. ground arith)

  -- On the user channel a value that is returned is the one given, it is safe user text, and the
  -- decision is neither a denial nor a fault.
  pub finalize_result-output :
      (output : T) (reports : List Report)
      → p.user_channel ≡ true
      → let r = finalize_result origin p output reports in
        (r.output ≡ origin)
        ⊎ ((r.output ≡ output)
            × (r.reports ≡ reports)
            × (same_kind (aggregate_payload_kind reports) safe_user_text ≡ true)
            × (effective (decision_of r.reports) ≢ terminal_deny)
            × (effective (decision_of r.reports) ≢ system_fault))
  unfolding finalize_result
  finalize_result-output output reports u = elim (Bool-cases (unsafe p reports)) [
    | inl e ↦ inl (rw e refl)
    | inr e ↦
        let same = safe-channel_reports reports u e in
        rw (e, same.0)
          (elim (Bool-cases (denied p reports)) [
            | inl d ↦ inl (rw d refl)
            | inr d ↦
                let allowed = denied-false reports u d in
                rw d (inr (refl, refl, same.1, allowed.0, allowed.1))
          ])
  ]
