-- ===== src/Release/Compile.antt =====
-- release.go: CompileStream, checkStreamCapabilities and supportsStreamRule.
use guardy.Base.{
  ℕ, ltb, leb, ◌==◌, Bool, true, false, not, ◌&&◌, ◌||◌, List, [], ◌∷◌, Option, none, some,
  is_empty, if◌then◌else◌,
}
use guardy.Kinds.{system_fault}
use guardy.Fault.Tree.{Error, leaf}
use guardy.Stream.Buffer.{empty_buffer}
use guardy.Stream.Splitter.{fresh}
use guardy.Release.{
  ReleaseProfile, whole_response, validated_units, best_effort, uncategorized, stream_unsupported,
  StreamOutcome, StreamProcessor, StreamConfig, ReleaseError, no_decision,
}

pub record StreamCapabilities : Type 0 where
  pub partial : Bool
  pub unit : Bool
  pub final_stage : Bool
  pub lookbehind : ℕ
  pub lookahead : ℕ

-- A rule that declares nothing is `none`.
abbrev pub supports_stream_rule : ReleaseProfile → Option StreamCapabilities → Bool
supports_stream_rule profile none = false
supports_stream_rule validated_units (some c) = c.lookbehind == 0 && c.lookahead == 0 && c.unit
supports_stream_rule _ (some c) = c.lookbehind == 0 && c.lookahead == 0 && c.partial

abbrev pub lacks_final : Option StreamCapabilities → Bool
lacks_final none = false
lacks_final (some c) = not c.final_stage

abbrev pub rule_error : ReleaseProfile → Option StreamCapabilities → Option Error
rule_error whole_response rule =
    if lacks_final rule then some (leaf "guardy: final stage unsupported") else none
rule_error profile rule =
    if supports_stream_rule profile rule
    then none
    else some (leaf "guardy: unsupported rule capability")

-- The rules are those of the pipeline, the layers of their middleware and those of the policies.
unfoldable pub check_stream_capabilities :
    ReleaseProfile → List (Option StreamCapabilities) → Option Error
check_stream_capabilities profile [] = none
check_stream_capabilities profile (rule ∷ rules) = elim (rule_error profile rule) [
  | some e ↦ some e
  | none ↦ check_stream_capabilities profile rules
]

abbrev pub zero_outcome : StreamOutcome
zero_outcome = record {
  identity = "";
  category = uncategorized;
  decision = no_decision;
  sequence = 0;
  released_bytes = 0;
  received_bytes = 0;
  peak_pending_bytes = 0;
  terminal = false;
  fallback = false;
}

abbrev pub stream_configuration_error : Error → ReleaseError
stream_configuration_error cause =
    let d = record no_decision { disposition = system_fault } in
    record {
      outcome = record zero_outcome {
        category = stream_unsupported;
        decision = d;
        terminal = true;
      };
      cause = cause;
      failure = d;
    }

pub data CompiledStream (W : Type 0) : Type 0 where
  opened : StreamConfig W → StreamProcessor W → CompiledStream W
  unfit : ReleaseError → CompiledStream W

-- `utf8.UTFMax`.
abbrev pub utf_max : ℕ
utf_max = 4

abbrev pub is_best_effort : ReleaseProfile → Bool
is_best_effort best_effort = true
is_best_effort _ = false

abbrev pub is_units : ReleaseProfile → Bool
is_units validated_units = true
is_units _ = false

module _ {W : Type 0} where
  -- A limit that is not positive counts as zero; `absent` tells of a nil writer or pipeline.
  abbrev pub incomplete : Bool → ℕ → StreamConfig W → Bool
  incomplete absent timeout cfg =
      absent
      || is_empty cfg.identity
      || cfg.max_input_bytes == 0
      || cfg.max_pending_bytes == 0
      || cfg.max_unit_bytes == 0
      || cfg.max_output_bytes == 0
      || timeout == 0

  abbrev pub opening : StreamConfig W → W → StreamProcessor W
  opening cfg w = record {
    pending = empty_buffer;
    framer = fresh 0;
    outcome = record zero_outcome { identity = cfg.identity };
    terminal_err = none;
    fallback_attempted = false;
    world = w;
    sent = [];
    fallback_sent = [];
  }

  abbrev pub unfit_for : Error → CompiledStream W
  unfit_for cause = unfit (stream_configuration_error cause)

  abbrev pub after_policy : StreamConfig W → W → Option Error → CompiledStream W
  after_policy cfg w none = opened cfg (opening cfg w)
  after_policy cfg w (some e) = unfit_for e

  abbrev pub after_capabilities :
      StreamConfig W → W → Option Error → Option Error → CompiledStream W
  after_capabilities cfg w policy_error none = after_policy cfg w policy_error
  after_capabilities cfg w policy_error (some e) = unfit_for e

  -- A profile that the code does not know is `none`; `policy_error` is what validateDeliveryPolicy
  -- says of the delivery.
  unfoldable pub compile_stream :
      Bool
      → ℕ
      → Option ReleaseProfile
      → List (Option StreamCapabilities)
      → Option Error
      → StreamConfig W
      → W
      → CompiledStream W
  unfolding check_stream_capabilities
  compile_stream absent timeout profile rules policy_error cfg w =
      if incomplete absent timeout cfg
      then unfit_for (leaf "guardy: invalid stream configuration")
      else elim profile [
        | none ↦ unfit_for (leaf "guardy: explicit release profile required")
        | some p ↦
            if is_best_effort p && (cfg.json_values || ltb cfg.max_unit_bytes utf_max)
            then unfit_for (leaf "guardy: incompatible incremental framing or unit limit")
            else if is_units p && cfg.json_values && leb cfg.max_pending_bytes cfg.max_unit_bytes
            then unfit_for
                (leaf "guardy: JSON framing requires pending capacity greater than unit limit")
            else after_capabilities (record cfg { profile = p }) w policy_error
                (check_stream_capabilities p rules)
      ]
