-- ===== src/Release.antt =====
-- release.go: the processor that releases a stream of text as a whole, by validated units or as it
-- comes. Bytes are numbers; the world `W` is what the guard, the transport and the observer change.
pub mod Utf8
pub mod Units
pub mod Approval
pub mod Steps
pub mod Bounds
pub mod Reach
pub mod Terminal
pub mod Whole
pub mod Progress
pub mod Drained
pub mod FallbackDelivery
pub mod Compile
pub mod Opened
use guardy.Base.{
  ℕ, ◌+◌, ◌==◌, Bool, true, false, ◌||◌, String, List, [], ◌∷◌, ◌++◌, Option, none, some,
  if◌then◌else◌,
}
use guardy.Kinds.{FailureDisposition, system_fault, same_disposition}
use guardy.Decision.{Decision, decision_from_report}
use guardy.Fault.Tree.{Error}
use guardy.Fault.Outcome.{failure_decision}
use guardy.Route.{ℤ}
use guardy.Delivery.{Delivered, Fallback}
use guardy.Stream.Buffer.{StreamBuffer, clear}
use guardy.Stream.Splitter.{FrameScanner, reset}

pub data ReleaseProfile : Type 0 where
  whole_response validated_units best_effort : ReleaseProfile

pub data StreamStage : Type 0 where
  stream_partial stream_unit stream_final : StreamStage

-- `uncategorized` is the empty category of a stream that goes on.
pub data StreamCategory : Type 0 where
  uncategorized stream_success stream_incomplete stream_malformed stream_limit : StreamCategory
  stream_timeout stream_fault stream_unsupported stream_blocked stream_transport : StreamCategory

abbrev pub is_timeout : StreamCategory → Bool
is_timeout stream_timeout = true
is_timeout _ = false

abbrev pub is_whole_response : ReleaseProfile → Bool
is_whole_response whole_response = true
is_whole_response _ = false

abbrev pub is_validated_units : ReleaseProfile → Bool
is_validated_units validated_units = true
is_validated_units _ = false

pub record StreamOutcome : Type 0 where
  pub identity : String
  pub category : StreamCategory
  pub decision : Decision
  pub sequence : ℕ
  pub released_bytes : ℕ
  pub received_bytes : ℕ
  pub peak_pending_bytes : ℕ
  pub terminal : Bool
  pub fallback : Bool

-- `ReleaseError`, of which `Failure` is the decision and the cause.
pub record ReleaseError : Type 0 where
  pub outcome : StreamOutcome
  pub cause : Error
  pub failure : Decision

pub record StreamEvent : Type 0 where
  pub outcome : StreamOutcome
  pub stage : StreamStage

-- What the source asks `encoding/json`: whether a text is valid.
pub record Encoding : Type 0 where
  pub valid_json : List ℕ → Bool

-- `StreamConfig` with positive limits. `guard` is `GuardDelivery` of its pipeline and policy without
-- a fallback, under the context with the timeout, whose error `guard_ctx_err` is; the scope that the
-- factory makes reaches it through the world. `transport` is the writer.
pub record StreamConfig (W : Type 0) : Type 0 where
  pub identity : String
  pub profile : ReleaseProfile
  pub json_values : Bool
  pub max_input_bytes : ℕ
  pub max_pending_bytes : ℕ
  pub max_unit_bytes : ℕ
  pub max_output_bytes : ℕ
  pub scope_factory : StreamStage → W → Option Error × W
  pub guard : StreamStage → W → List ℕ → Delivered (List ℕ) × W
  pub guard_ctx_err : W → Option Error
  pub transport : W → List ℕ → (ℤ × Option Error) × W
  pub observer : Option (W → StreamEvent → W)
  pub fallback : Fallback (List ℕ)

-- `sent` and `fallback_sent` are what the transport took, which the source leaves to the writer.
pub record StreamProcessor (W : Type 0) : Type 0 where
  pub pending : StreamBuffer
  pub framer : FrameScanner
  pub outcome : StreamOutcome
  pub terminal_err : Option ReleaseError
  pub fallback_attempted : Bool
  pub world : W
  pub sent : List ℕ
  pub fallback_sent : List ℕ

-- A method's state afterwards, and its error.
abbrev pub Result : Type 0 → Type 0
Result W = StreamProcessor W × Option ReleaseError

-- `DecisionFromReport(nil)`.
abbrev pub no_decision : Decision
no_decision = decision_from_report none

abbrev pub safe_event : StreamOutcome → StreamStage → StreamEvent
safe_event outcome stage = record {
  outcome = record outcome { decision = record (outcome.decision) { retry_feedback = "" } };
  stage = stage;
}

abbrev pub decision_in : Option Decision → Decision → Decision
decision_in none d = d
decision_in (some found) d = found

-- The decision of a failure, which is never none.
unfoldable pub failure_of : StreamCategory → Error → Decision → Decision
failure_of category cause decision =
    let d = decision_in (failure_decision cause) decision in
    if is_timeout category || same_disposition d.disposition FailureDisposition.none
    then record d { disposition = system_fault }
    else d

module _ {W : Type 0} (cfg : StreamConfig W) where
  -- A panic of the observer is recovered; what it did to the world stays.
  unfoldable pub observe_outcome :
      StreamProcessor W → StreamOutcome → StreamStage → StreamProcessor W
  observe_outcome s outcome stage = elim cfg.observer [
    | none ↦ s
    | some o ↦ record s { world = o s.world (safe_event outcome stage) }
  ]

  unfoldable pub observe : StreamProcessor W → StreamStage → StreamProcessor W
  observe s stage = observe_outcome s s.outcome stage

  abbrev pub failed_outcome : StreamOutcome → StreamCategory → Decision → StreamOutcome
  failed_outcome o category d = record o { category = category; decision = d; terminal = true }

  unfoldable pub fail : StreamProcessor W → StreamCategory → Error → Decision → Result W
  fail s category cause decision =
      let d = failure_of category cause decision in
      let o = failed_outcome s.outcome category d in
      let e : ReleaseError = record { outcome = o; cause = cause; failure = d } in
      (
        observe
            (record s {
              pending = clear s.pending;
              framer = reset s.framer;
              outcome = o;
              terminal_err = some e;
            })
            stream_final,
        some e,
      )
