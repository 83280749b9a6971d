-- ===== src/Pipeline/FailClosed.antt =====
-- A run of the sequential phases fails closed: it goes on only past reports that let the value pass,
-- and it returns an error only with a fault as its decision.
use guardy.Base.{
  Bool, true, false, ◌≡◌, ◌≢◌, inl, inr, refl, List, [], ◌∷◌, ◌++◌, Option, some, is_some, arith,
  All, All-append, Bool-cases, Option-cases, if◌then◌else◌,
}
use guardy.Kinds.{FailureDisposition, system_fault}
use guardy.Report.{
  Report, effective, is_observation, normalize_report, is_retryable_correction, is_terminal_deny,
  is_system_fault, effective_disposition,
}
use guardy.Report.Disposition.{normalize_report_lem, effective_known}
use guardy.Decision.{decision_of}
use guardy.Decision.Priority.{Harmless, HasFault, decision_of-none_iff, decision_of-fault_iff}
use guardy.Fault.Tree.{Error}
use guardy.Fault.Outcome.{validator_fault_report}
use guardy.Scope.{Scope}
use guardy.Pipeline.Rules.{
  ValidationPhase, Context, Pipeline, Call, Outcome, Next, goes, ends, sequential, policy, and_then,
  should_short_circuit, join_ctx,
}
use guardy.Pipeline.Run.{
  validator_fault_result, finalize_result, after_report, after_call, run_rules, run_sequential,
  finalized, sequential_rules, policy_rules, channel_reports, unsafe,
}

HasFault-append : (xs ys : List Report) → HasFault ys → HasFault (xs ++ ys)
HasFault-append [] ys h = h
HasFault-append (x ∷ xs) ys h = inr (HasFault-append xs ys h)

fault_report-fault : (e : Error) → effective (validator_fault_report e) ≡ system_fault
unfolding validator_fault_report effective
fault_report-fault e = refl

-- Every fault result decides a system fault, whatever was reported before, and keeps the value.
pub validator_fault_result-fault :
    {T : Type 0} (output : T) (reports : List Report) (e : Error)
    → let o = validator_fault_result output reports e in
      (effective (decision_of o.result.reports) ≡ system_fault)
      × (o.result.output ≡ output)
      × (is_some o.error ≡ true)
unfolding validator_fault_result
validator_fault_result-fault output reports e = (
  (decision_of-fault_iff _).1 (HasFault-append reports _ (inl (fault_report-fault _))),
  refl,
  refl,
)

-- A report that stops a sequential phase is one that no run may let pass, and the other way round.
pub short_circuit-Harmless :
    (r : Report)
    → (should_short_circuit (some r) ≡ true → Harmless r → ⊥)
      × (should_short_circuit (some r) ≡ false → Harmless r)
unfolding should_short_circuit is_retryable_correction is_terminal_deny is_system_fault
    effective_disposition
short_circuit-Harmless r =
    let same = normalize_report_lem r in
    let known = effective_known r in (λ e h. ground arith, λ e. ground arith)

normalize-Harmless : (r : Report) → Harmless r → Harmless (normalize_report (some r))
normalize-Harmless r h = let same = normalize_report_lem r in ground arith

normalize-Harmful : (r : Report) → (Harmless r → ⊥) → Harmless (normalize_report (some r)) → ⊥
normalize-Harmful r h k = let same = normalize_report_lem r in h (ground arith)

-- A result that stops a run: with an error its decision is a fault, and without one its decision
-- does not let the value pass.
abbrev pub Closed : {T : Type 0} → Outcome T → Type 0
Closed o =
    (is_some o.error ≡ true → effective (decision_of o.result.reports) ≡ system_fault)
    × (is_some o.error ≡ false → effective (decision_of o.result.reports) ≢ FailureDisposition.none)

-- A phase goes on past harmless reports only, and returns from `Run` closed.
abbrev pub GoesHarmless : {W T : Type 0} → Next W T → Type 0
GoesHarmless (goes out reports w) = All Harmless reports
GoesHarmless (ends o w) = Closed o

All-last : (xs : List Report) (r : Report) → All Harmless (xs ++ r ∷ []) → Harmless r
All-last [] r h = h.0
All-last (x ∷ xs) r h = All-last xs r h.1

All-first : (xs ys : List Report) → All Harmless (xs ++ ys) → All Harmless xs
All-first [] ys h = tt
All-first (x ∷ xs) ys h = (h.0, All-first xs ys h.1)

GoesHarmless-if :
    {W T : Type 0} (b : Bool) (x y : Next W T)
    → GoesHarmless x
    → GoesHarmless y
    → GoesHarmless (if b then x else y)
GoesHarmless-if true x y h k = h
GoesHarmless-if false x y h k = k

GoesHarmless-and_then :
    {W T : Type 0} (n : Next W T) (k : T → List Report → W → Next W T)
    → GoesHarmless n
    → ((out : T) (reports : List Report) (w : W)
        → All Harmless reports
        → GoesHarmless (k out reports w))
    → GoesHarmless (and_then n k)
GoesHarmless-and_then (ends o w) k h g = h
GoesHarmless-and_then (goes out reports w) k h g = g out reports w h

fault-Closed :
    {T : Type 0} (output : T) (reports : List Report) (e : Error)
    → Closed (validator_fault_result output reports e)
fault-Closed output reports e =
    let (fault, same, given) = validator_fault_result-fault output reports e in
    (λ h. fault, λ h. absurd (ground arith))

module _ {W T : Type 0} (origin : T) (p : Pipeline W T) where
  -- Adding the report of the user channel hides no report.
  finalized-Harmless :
      (out : T) (reports : List Report)
      → effective (decision_of (finalize_result origin p out reports).reports)
        ≡ FailureDisposition.none
      → All Harmless reports
  unfolding finalize_result channel_reports
  finalized-Harmless out reports e = elim (Bool-cases (unsafe p reports)) [
    | inl u ↦ All-first reports _ (rw (u, channel_reports) at (all_harmless))
    | inr u ↦ rw (u, channel_reports) at (all_harmless)
  ]
    where
      all_harmless : All Harmless (channel_reports p reports)
      all_harmless = (decision_of-none_iff (channel_reports p reports)).0 e

module _ {W T : Type 0} (ctx_err : W → Option Error) (origin : T) (p : Pipeline W T)
    (scope : Scope) where
  -- A stopping report ends the run without an error and is counted against the value.
  stopped-Closed :
      (out : T) (reports : List Report) (rep : Report)
      → should_short_circuit (some rep) ≡ true
      → Closed (finalized origin p out (reports ++ normalize_report (some rep) ∷ []))
  stopped-Closed out reports rep e = (
    λ h. cc,
    λ h k.
        normalize-Harmful rep ((short_circuit-Harmless rep).0 e)
          (All-last reports _ (finalized-Harmless origin p out _ k)),
  )

  after_report-GoesHarmless :
      (phase : ValidationPhase) (call : Call T) (reports : List Report) (w : W)
      → All Harmless reports
      → GoesHarmless (after_report ctx_err origin p scope phase call reports w)
  unfolding after_report
  after_report-GoesHarmless phase call reports w h = elim (Option-cases call.report) [
    | inl e ↦ rw (e, after_report) (unfold should_short_circuit is_observation in h)
    | inr (rep, e) ↦
        rw (e, after_report)
          (elim (Bool-cases (should_short_circuit (some rep))) [
            | inl stop ↦ rw stop (stopped-Closed call.output reports rep stop)
            | inr go ↦
                let all =
                  All-append Harmless reports (normalize_report (some rep) ∷ []) h
                    (normalize-Harmless rep ((short_circuit-Harmless rep).1 go), tt) in
                rw go (GoesHarmless-if (is_observation (some rep)) _ _ all all)
          ])
  ]

  after_call-GoesHarmless :
      (phase : ValidationPhase) (current : T) (reports : List Report) (call : Call T) (w : W)
      → All Harmless reports
      → GoesHarmless (after_call ctx_err origin p scope phase current reports (call, w))
  unfolding after_call
  after_call-GoesHarmless phase current reports call w h =
      elim (Option-cases (join_ctx call.error (ctx_err w))) [
        | inl e ↦ rw (e, after_call) (after_report-GoesHarmless phase call reports w h)
        | inr (err, e) ↦ rw (e, after_call) (fault-Closed current _ err)
      ]

  -- However the rules answer, a sequential phase that starts past harmless reports goes on past
  -- harmless reports, or returns from `Run` closed.
  pub run_rules-GoesHarmless :
      (phase : ValidationPhase) (rules : List (Context → W → T → Call T × W)) (current : T)
      (reports : List Report) (w : W)
      → All Harmless reports
      → GoesHarmless (run_rules ctx_err origin p scope phase rules current reports w)
  unfolding run_rules
  run_rules-GoesHarmless phase [] current reports w h = h
  run_rules-GoesHarmless phase (rule ∷ rules) current reports w h =
      elim (Option-cases (ctx_err w)) [
        | inl e ↦
            rw (e, run_rules)
              (GoesHarmless-and_then _ _ (after_call-GoesHarmless phase current reports _ _ h)
                (λ out all v k. run_rules-GoesHarmless phase rules out all v k))
        | inr (err, e) ↦ rw (e, run_rules) (fault-Closed current reports err)
      ]

  -- However the rules answer, the two sequential phases together either go on past reports that are
  -- all observations or of disposition none, or return from `Run` closed: with an error only as a
  -- fault, and without one never with a decision that lets the value pass.
  pub run_sequential-GoesHarmless :
      (input : T) (w : W) → GoesHarmless (run_sequential ctx_err origin p scope input w)
  unfolding run_sequential
  run_sequential-GoesHarmless input w =
      GoesHarmless-and_then _ _
        (run_rules-GoesHarmless sequential (sequential_rules ctx_err origin p scope) input [] w tt)
        (λ out reports v h.
          run_rules-GoesHarmless policy (policy_rules ctx_err origin p scope) out reports v h)
