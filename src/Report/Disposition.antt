-- ===== src/Report/Disposition.antt =====
-- The effective disposition against an independent reading of the fields.
use guardy.Base.{true, false, ◌≡◌, ◌↔◌, ◌⊎◌, some, arith}
use guardy.Kinds.{
  pass, block, redact, retry, FailureDisposition, terminal_deny, retryable_correction, system_fault,
  disposition_out_of_range,
}
use guardy.Report.{
  Report, ControlSpec, effective, out_of_range, normalize_report, finish_report, is_observation,
  apply_control_defaults,
}

-- A report passes (disposition none) exactly when its fields are in range, its action is pass or
-- redact, it is not fatal and its validator set no disposition.
pub effective-none_iff :
    (r : Report)
    → (effective r ≡ FailureDisposition.none) ↔ (
        (out_of_range r ≡ false)
        × ((r.action ≡ pass) ⊎ (r.action ≡ redact))
        × (r.fatal ≡ false)
        × (r.disposition ≡ FailureDisposition.none))
unfolding effective
effective-none_iff r =
    (λ e. (ground arith, ground arith, ground arith, ground arith), λ h. ground arith)

-- A report asks for a correction exactly when its fields are in range, its action is retry, it is
-- not fatal, and its validator either set that disposition or set none and marked it retryable.
effective-retryable_iff :
    (r : Report)
    → (effective r ≡ retryable_correction) ↔ (
        (out_of_range r ≡ false)
        × (r.action ≡ retry)
        × (r.fatal ≡ false)
        × ((r.disposition ≡ retryable_correction)
            ⊎ ((r.disposition ≡ FailureDisposition.none) × (r.retryable ≡ true))))
unfolding effective
effective-retryable_iff r =
    (λ e. (ground arith, ground arith, ground arith, ground arith), λ h. ground arith)

-- A report is a fault exactly when a field is out of range, its validator set that disposition, or
-- it asks for a correction with an action that is not retry.
effective-fault_iff :
    (r : Report)
    → (effective r ≡ system_fault) ↔ (
        (out_of_range r ≡ true)
        ⊎ (r.disposition ≡ system_fault)
        ⊎ ((r.disposition ≡ retryable_correction) × (r.action ≡ retry → ⊥)))
unfolding effective
effective-fault_iff r = (λ e. ground arith, λ h. ground arith)

-- The effective disposition is one of the four that are declared.
pub effective_known : (r : Report) → disposition_out_of_range (effective r) ≡ false
unfolding effective
effective_known r = ground arith

-- Storing the effective disposition in the report does not change it.
pub effective_stable :
    (r : Report) → effective (record r { disposition = effective r }) ≡ effective r
unfolding effective
effective_stable r = ground arith

-- Normalizing a report keeps what it decides: its effective disposition and whether it is an
-- observation; normalizing again changes nothing.
pub normalize_report_lem :
    (r : Report)
    → (effective (normalize_report (some r)) ≡ effective r)
      × (is_observation (some (normalize_report (some r))) ≡ is_observation (some r))
      × (normalize_report (some (normalize_report (some r))) ≡ normalize_report (some r))
unfolding normalize_report is_observation
normalize_report_lem r =
    (effective_stable r, ground (arith, effective_stable r), ground (arith, effective_stable r))

-- A shadow block is an observation only while it is neither fatal nor a fault.
is_observation_iff :
    (r : Report)
    → (is_observation (some r) ≡ true) ↔ (
        (r.shadow_mode ≡ true)
        × (r.action ≡ block)
        × (r.fatal ≡ false)
        × (effective r ≡ terminal_deny))
unfolding is_observation
is_observation_iff r =
    (λ e. (ground arith, ground arith, ground arith, ground arith), λ h. ground arith)

-- A finished report carries its effective disposition, and a spec for another action makes it a
-- fault.
pub finish_report_lem :
    (r : Report) (spec : ControlSpec)
    → (effective (finish_report r spec) ≡ (finish_report r spec).disposition)
      × ((r.action ≡ spec.action → ⊥) → (finish_report r spec).disposition ≡ system_fault)
unfolding finish_report
finish_report_lem r spec = (effective_stable (apply_control_defaults r spec), λ h. ground arith)
