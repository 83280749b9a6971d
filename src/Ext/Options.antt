-- ===== src/Ext/Options.antt =====
-- ext/options.go: the configuration of the rules, its checks and the reports that it makes.
use text.Mathlib.Text.{◌==◌ as str_eq}
use guardy.Base.{
  ℕ, ◌+◌, Bool, true, false, not, ◌&&◌, ◌||◌, String, List, [], ◌∷◌, Option, none, some, is_empty,
  if◌then◌else◌,
}
use guardy.Kinds.{Action, pass, block, redact, same_action}
use guardy.Report.{Report, ControlSpec, zero_report, finish_report, spec_of}
use guardy.Fault.Tree.{Error, misconfigured}
use guardy.Pipeline.Build.{indexed}
use guardy.Ext.Bytes.{Bytes, same_bytes, text_of}
use guardy.Ext.TokenVault.{TokenVault}

-- `"[REDACTED]"`.
abbrev pub redacted : Bytes
redacted = b'[' ∷ b'R' ∷ b'E' ∷ b'D' ∷ b'A' ∷ b'C' ∷ b'T' ∷ b'E' ∷ b'D' ∷ b']' ∷ []

-- A `TokenVault` field: nil, an interface that holds a nil pointer, or a vault.
pub data VaultSlot (W : Type 0) : Type 0 where
  no_vault typed_nil : VaultSlot W
  vault : TokenVault W → VaultSlot W

pub record RuleConfig (W : Type 0) : Type 0 where
  pub action : Action
  pub code : String
  pub severity : String
  pub reason : String
  pub name : String
  pub redaction_replacement : Bytes
  pub lowercase : Bool
  pub token_vault : VaultSlot W
  pub retryable : Option Bool
  pub fatal : Bool
  pub safe_user_message : String
  -- The bits of `specified`.
  pub replacement_set : Bool
  pub lowercase_set : Bool
  pub vault_set : Bool

-- A configuration that a constructor of a rule starts from.
abbrev pub defaults : {W : Type 0} → Action → String → String → Bytes → RuleConfig W
defaults action severity name replacement = record {
  action = action;
  code = "";
  severity = severity;
  reason = "";
  name = name;
  redaction_replacement = replacement;
  lowercase = false;
  token_vault = no_vault;
  retryable = none;
  fatal = false;
  safe_user_message = "";
  replacement_set = false;
  lowercase_set = false;
  vault_set = false;
}

pub data RuleOption (W : Type 0) : Type 0 where
  nil_option : RuleOption W
  with_action : Action → RuleOption W
  with_code with_severity with_reason with_name with_safe_user_message : String → RuleOption W
  with_redaction_replacement : Bytes → RuleOption W
  with_lowercase with_retryable with_fatal : Bool → RuleOption W
  with_token_vault : VaultSlot W → RuleOption W

-- A configuration, or the error of one.
pub data Configured (W : Type 0) : Type 0 where
  configured : RuleConfig W → Configured W
  rejected : Error → Configured W

abbrev pub redactable : String → Bool
redactable component =
    str_eq component "regex" || str_eq component "wordlist" || str_eq component "pii"

abbrev pub default_replacement : String → Bytes
default_replacement component = if redactable component then redacted else []

abbrev pub valid_action : String → Action → Bool
valid_action component a =
    if str_eq component "technical_json"
    then same_action a pass
    else same_action a block || (redactable component && same_action a redact)

abbrev pub with_mutated : Report → Bytes → Report
with_mutated rep clean = record rep { mutated_text = text_of clean }

module _ {W : Type 0} where
  unfoldable pub apply_option : RuleOption W → RuleConfig W → RuleConfig W
  apply_option nil_option c = c
  apply_option (with_action a) c = record c { action = a }
  apply_option (with_code t) c = record c { code = t }
  apply_option (with_severity t) c = record c { severity = t }
  apply_option (with_reason t) c = record c { reason = t }
  apply_option (with_name t) c = record c { name = t }
  apply_option (with_safe_user_message t) c = record c { safe_user_message = t }
  apply_option (with_redaction_replacement t) c = record c {
    redaction_replacement = t;
    replacement_set = true;
  }
  apply_option (with_lowercase b) c = record c { lowercase = b; lowercase_set = true }
  apply_option (with_retryable b) c = record c { retryable = some b }
  apply_option (with_fatal b) c = record c { fatal = b }
  apply_option (with_token_vault v) c = record c { token_vault = v; vault_set = true }

  abbrev pub is_nil_option : RuleOption W → Bool
  is_nil_option nil_option = true
  is_nil_option _ = false

  -- `applyOptions` from the index `i` on.
  unfoldable pub apply_options : String → ℕ → RuleConfig W → List (RuleOption W) → Configured W
  unfolding apply_option
  apply_options component i cfg [] = configured cfg
  apply_options component i cfg (opt ∷ opts) =
      let rest = apply_options component (i + 1) (apply_option opt cfg) opts in
      if is_nil_option opt
      then rejected (misconfigured component (indexed "options" i) "required")
      else rest

  abbrev pub has_vault : VaultSlot W → Bool
  has_vault no_vault = false
  has_vault _ = true

  abbrev pub nil_component : VaultSlot W → Bool
  nil_component (vault v) = false
  nil_component _ = true

  unfoldable pub validate_vault_options : String → RuleConfig W → Bytes → Option Error
  validate_vault_options component cfg replacement =
      if not (cfg.vault_set || has_vault cfg.token_vault)
      then none
      else if not (str_eq component "wordlist" || str_eq component "pii")
          || not (same_action cfg.action redact)
      then some (misconfigured component "vault" "unsupported")
      else if cfg.replacement_set || not (same_bytes cfg.redaction_replacement replacement)
      then some (misconfigured component "replacement" "unsupported_with_vault")
      else if nil_component cfg.token_vault
      then some (misconfigured component "vault" "required")
      else none

  unfoldable pub validate_rule_options : String → RuleConfig W → Option Error
  unfolding validate_vault_options
  validate_rule_options component cfg =
      if not (valid_action component cfg.action)
      then some (misconfigured component "action" "unsupported")
      else if not (str_eq component "wordlist") && (cfg.lowercase_set || cfg.lowercase)
      then some (misconfigured component "lowercase" "unsupported")
      else if (cfg.replacement_set
            || not (same_bytes cfg.redaction_replacement (default_replacement component)))
          && (not (redactable component) || not (same_action cfg.action redact))
      then some (misconfigured component "replacement" "unsupported")
      else validate_vault_options component cfg (default_replacement component)

  -- `applyOptions` with `validateRuleOptions` behind it, as each constructor calls them.
  unfoldable pub configure : String → RuleConfig W → List (RuleOption W) → Configured W
  unfolding apply_options validate_rule_options
  configure component cfg opts = elim (apply_options component 0 cfg opts) [
    | rejected e ↦ rejected e
    | configured c ↦ elim (validate_rule_options component c) [
      | some e ↦ rejected e
      | none ↦ configured c
    ]
  ]

  unfoldable pub pass_report : RuleConfig W → Report
  pass_report cfg =
      finish_report
        (record zero_report {
          action = pass;
          validator = cfg.name;
          code = cfg.code;
          severity = cfg.severity;
        })
        (spec_of pass)

  abbrev pub control_of : RuleConfig W → Action → ControlSpec
  control_of cfg action = record {
    action = action;
    retryable = cfg.retryable;
    fatal = cfg.fatal;
    safe_user_message = cfg.safe_user_message;
  }

  -- `violationReport`, with `FinalizeRuleReport`.
  unfoldable pub violation_report : RuleConfig W → Action → String → Report
  violation_report cfg action fallback_reason =
      finish_report
        (record zero_report {
          action = action;
          validator = cfg.name;
          code = cfg.code;
          severity = cfg.severity;
          reason = if is_empty cfg.reason then fallback_reason else cfg.reason;
        })
        (control_of cfg action)

-- What a rule over a text returns: the text and its report, or a fault.
pub data Checked : Type 0 where
  checked : Bytes → Report → Checked
  faulted : Error → Checked
  -- A slice out of range, which panics.
  crashed : Checked
