-- ===== src/Examples/Reports.antt =====
-- Concrete reports and what they decide.
use guardy.Base.{true, ◌≡◌, refl}
use guardy.Kinds.{
  block, retry, terminal_deny, retryable_correction, system_fault, internal_control_signal,
  technical_payload,
}
use guardy.Report.{Report, zero_report, effective}

abbrev shadow_block : Report
shadow_block = record zero_report {
  action = block;
  code = "PII";
  shadow_mode = true;
  payload_kind = technical_payload;
}

abbrev correction : Report
correction = record zero_report {
  action = retry;
  feedback = "add a citation";
  retryable = true;
  payload_kind = internal_control_signal;
}

-- A correction asked for by a block.
abbrev contradiction : Report
contradiction = record zero_report { action = block; disposition = retryable_correction }

shadow_block_denies : effective shadow_block ≡ terminal_deny
unfolding effective
shadow_block_denies = refl

contradiction_faults : effective contradiction ≡ system_fault
unfolding effective
contradiction_faults = refl
