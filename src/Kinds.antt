-- ===== src/Kinds.antt =====
-- guardy.go, disposition.go and payload.go: the three enumerations that a report carries. Each is a
-- Go int; `unknown n` is a value outside the declared constants, numbered by `n`.
use guardy.Base.{ℕ, ◌==◌, Bool, true, false, String, if◌then◌else◌, ltb}

pub data Action : Type 0 where
  pass block redact retry : Action
  unknown : ℕ → Action

pub data FailureDisposition : Type 0 where
  none terminal_deny retryable_correction system_fault : FailureDisposition
  unknown : ℕ → FailureDisposition

pub data PayloadKind : Type 0 where
  safe_user_text internal_control_signal technical_payload : PayloadKind
  unknown : ℕ → PayloadKind

-- `==` on each of them.
abbrev pub same_action : Action → Action → Bool
same_action pass pass = true
same_action block block = true
same_action redact redact = true
same_action retry retry = true
same_action (Action.unknown m) (Action.unknown n) = m == n
same_action _ _ = false

abbrev pub same_disposition : FailureDisposition → FailureDisposition → Bool
same_disposition none none = true
same_disposition terminal_deny terminal_deny = true
same_disposition retryable_correction retryable_correction = true
same_disposition system_fault system_fault = true
same_disposition (FailureDisposition.unknown m) (FailureDisposition.unknown n) = m == n
same_disposition _ _ = false

abbrev pub same_kind : PayloadKind → PayloadKind → Bool
same_kind safe_user_text safe_user_text = true
same_kind internal_control_signal internal_control_signal = true
same_kind technical_payload technical_payload = true
same_kind (PayloadKind.unknown m) (PayloadKind.unknown n) = m == n
same_kind _ _ = false

-- The range tests `a < ActionPass || a > ActionRetry` and their like.
abbrev pub action_out_of_range : Action → Bool
action_out_of_range (Action.unknown n) = true
action_out_of_range _ = false

abbrev pub disposition_out_of_range : FailureDisposition → Bool
disposition_out_of_range (FailureDisposition.unknown n) = true
disposition_out_of_range _ = false

abbrev pub kind_out_of_range : PayloadKind → Bool
kind_out_of_range (PayloadKind.unknown n) = true
kind_out_of_range _ = false

-- The `String` methods.
unfoldable pub action_name : Action → String
action_name pass = "pass"
action_name block = "block"
action_name redact = "redact"
action_name retry = "retry"
action_name (Action.unknown n) = "unknown"

unfoldable pub disposition_name : FailureDisposition → String
disposition_name none = "none"
disposition_name terminal_deny = "terminal_deny"
disposition_name retryable_correction = "retryable_correction"
disposition_name system_fault = "system_fault"
disposition_name (FailureDisposition.unknown n) = "unknown"

unfoldable pub kind_name : PayloadKind → String
kind_name safe_user_text = "safe_user_text"
kind_name internal_control_signal = "internal_control_signal"
kind_name technical_payload = "technical_payload"
kind_name (PayloadKind.unknown n) = "unknown"

unfoldable pub payload_kind_priority : PayloadKind → ℕ
payload_kind_priority technical_payload = 3
payload_kind_priority internal_control_signal = 2
payload_kind_priority safe_user_text = 1
payload_kind_priority (PayloadKind.unknown n) = 0

-- The more restrictive of two kinds, `k` only if its priority is above.
unfoldable pub more_restrictive : PayloadKind → PayloadKind → PayloadKind
unfolding payload_kind_priority
more_restrictive best k =
    if ltb (payload_kind_priority best) (payload_kind_priority k) then k else best
