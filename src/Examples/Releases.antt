-- ===== src/Examples/Releases.antt =====
-- A whole response of three bytes in two writes, whose guard passes every text on.
use guardy.Base.{
  is_some, ℕ, some, ◌≤◌, ◌+◌, true, false, ◌≡◌, refl, List, [], ◌∷◌, Option, none, arith, length,
}
use guardy.Kinds.{safe_user_text}
use guardy.Decision.{pass_decision}
use guardy.Fault.Tree.{Error, leaf}
use guardy.Route.{pos}
use guardy.Delivery.{Delivered, candidate}
use guardy.Base.Index.{blit, tabulate}
use guardy.Stream.Buffer.{
  consume, empty_buffer, append, copy_in, reserve, grow, byte_at, clear, prefix,
}
use guardy.Stream.Splitter.{
  newline, newline_from, newline_unit_boundary, boundary_from, fresh, reset,
}
use guardy.Release.{
  Encoding, StreamConfig, StreamProcessor, whole_response, validated_units, uncategorized,
  stream_blocked, fail, failure_of, observe, observe_outcome, no_decision,
}
use guardy.Release.Compile.{StreamCapabilities, compile_stream, opened, unfit_for}
use guardy.Release.Opened.{Kept, compile_stream-Kept}
use guardy.Release.Progress.{write_context-all}
use guardy.Release.Drained.{release_pending-Drained}
use guardy.Release.Utf8.{full_rune, valid_utf8, valid_from, rune_size, lead}
use guardy.Release.Units.{next_unit, newline_unit, valid_representation}
use guardy.Release.Approval.{
  validate_and_release, settle, approval, approve_value, consult, judge_delivery, settle_write,
}
use guardy.Release.Steps.{
  StreamError, release_pending, release_round, release_unit, write_context, admitted, accept_input,
  completed, release_all, complete, abort,
}
use guardy.Release.Bounds.{Counted}
use guardy.Release.Reach.{Op, write, complete_op, apply_op, apply_ops, apply_ops-Counted}
use guardy.Release.Terminal.{complete-terminal}
use guardy.Release.FallbackDelivery.{deliver_fallback, unavailable}
use guardy.Release.FallbackDelivery.Once.{Sparing, deliver_fallback-once}

abbrev no_json : Encoding
no_json = record { valid_json = λ p. false }

abbrev no_error : ℕ → Option Error
no_error w = none

abbrev passed_on : List ℕ → Delivered (List ℕ)
passed_on value = record {
  guarded = record {
    value = value;
    kind = safe_user_text;
    decision = pass_decision;
    reports = [];
    deliverable = true;
    channel = "user";
    fallback = false;
    configuration_id = "";
  };
  error = none;
}

-- The world counts the writes.
abbrev answer : StreamConfig ℕ
answer = record {
  identity = "answer";
  profile = whole_response;
  json_values = false;
  max_input_bytes = 16;
  max_pending_bytes = 8;
  max_unit_bytes = 8;
  max_output_bytes = 8;
  scope_factory = λ stage w. (none, w);
  guard = λ stage w value. (passed_on value, w);
  guard_ctx_err = no_error;
  transport = λ w value. ((pos (length value), none), w + 1);
  observer = none;
  fallback = candidate (63 ∷ []);
}

abbrev started : StreamProcessor ℕ
started = record {
  pending = empty_buffer;
  framer = fresh 0;
  outcome = record {
    identity = "answer";
    category = uncategorized;
    decision = no_decision;
    sequence = 0;
    released_bytes = 0;
    received_bytes = 0;
    peak_pending_bytes = 0;
    terminal = false;
    fallback = false;
  };
  terminal_err = none;
  fallback_attempted = false;
  world = 0;
  sent = [];
  fallback_sent = [];
}

started-Counted : Counted answer started
started-Counted = record {
  received_within = omega arith;
  released_within = omega arith;
  released_sent = refl;
}

abbrev ops : List Op
ops = write (72 ∷ []) ∷ write (105 ∷ 33 ∷ []) ∷ complete_op ∷ []

apply_ops-Counted_example : Counted answer (apply_ops no_json no_error answer ops started)
apply_ops-Counted_example = apply_ops-Counted no_json no_error answer ops started started-Counted

complete-terminal_example :
    ((complete no_json no_error answer started).0.outcome.terminal ≡ true)
    × ((abort no_json no_error answer started none).0.outcome.terminal ≡ true)
complete-terminal_example = complete-terminal no_json no_error answer started none

abbrev aborted : StreamProcessor ℕ
aborted = (abort no_json no_error answer started none).0

all_sent : (apply_ops no_json no_error answer ops started).sent ≡ 72 ∷ 105 ∷ 33 ∷ []
unfolding apply_ops apply_op complete write_context admitted accept_input append copy_in reserve
    grow completed release_all blit tabulate validate_and_release settle approval approve_value
    consult judge_delivery settle_write valid_representation fail failure_of observe observe_outcome
    byte_at clear prefix reset valid_utf8 valid_from rune_size lead
all_sent = refl

-- A stream that was denied.
abbrev refused_stream : StreamProcessor ℕ
refused_stream = record started {
  outcome = record (started.outcome) { category = stream_blocked; terminal = true };
}

refused_stream-Sparing : Sparing 8 refused_stream
refused_stream-Sparing = record { unsent = λ e. refl; total = omega arith }

deliver_fallback-once_example :
    let t = (deliver_fallback no_json answer refused_stream).0 in
    (deliver_fallback no_json answer t ≡ (t, t.outcome, some unavailable))
    × (t.outcome ≡ refused_stream.outcome)
    × (t.sent ≡ refused_stream.sent)
    × (refused_stream.outcome.released_bytes + length t.fallback_sent ≤ 8)
deliver_fallback-once_example =
    deliver_fallback-once no_json answer refused_stream refused_stream-Sparing

abbrev greeting : List ℕ
greeting = 72 ∷ 105 ∷ 33 ∷ []

greeting_taken : (write_context no_json no_error answer started greeting).1 ≡ 3
unfolding write_context admitted accept_input
greeting_taken = refl

write_context-all_example :
    let r = write_context no_json no_error answer started greeting in
    (r.2 ≡ StreamError.no_error → r.1 ≡ 3)
    × (started.outcome.terminal ≡ true
        → (¬ (r.2 ≡ StreamError.no_error)) × (r.1 ≡ 0) × (r.0 ≡ started))
write_context-all_example = write_context-all no_json no_error answer started greeting

-- The same stream released line by line.
abbrev by_line : StreamConfig ℕ
by_line = record answer { profile = validated_units }

abbrev half_written : StreamProcessor ℕ
half_written = record started {
  pending = record { bytes = 72 ∷ 105 ∷ 0 ∷ []; head = 0; size = 2; copied = 0 };
}

half_written_released :
    is_some (release_pending no_json no_error by_line 2 half_written true).1 ≡ false
unfolding release_pending release_round release_unit next_unit newline_unit newline newline_from
    byte_at prefix validate_and_release settle approval approve_value consult judge_delivery
    settle_write valid_representation newline_unit_boundary boundary_from observe observe_outcome
    consume reset valid_utf8 valid_from rune_size lead
half_written_released = refl

release_pending-Drained_example :
    (release_pending no_json no_error by_line 2 half_written true).0.pending.size ≡ 0
release_pending-Drained_example =
    release_pending-Drained no_json no_error by_line 2 half_written (omega arith)
      half_written_released

two_byte_rune : valid_utf8 (195 ∷ 169 ∷ []) ≡ true
unfolding valid_utf8 valid_from rune_size lead
two_byte_rune = refl

surrogate : valid_utf8 (237 ∷ 160 ∷ 128 ∷ []) ≡ false
unfolding valid_utf8 valid_from rune_size lead
surrogate = refl

cut_rune : full_rune (226 ∷ 130 ∷ []) ≡ false
unfolding full_rune lead
cut_rune = refl

-- A rule that may see a whole response and no more.
abbrev final_only : StreamCapabilities
final_only = record {
  partial = false;
  unit = false;
  final_stage = true;
  lookbehind = 0;
  lookahead = 0;
}

opens_answer :
    compile_stream false 1 (some whole_response) (some final_only ∷ none ∷ []) none answer 0
    ≡ opened answer started
unfolding compile_stream
opens_answer = refl

rejects_units :
    compile_stream false 1 (some validated_units) (some final_only ∷ []) none answer 0
    ≡ unfit_for (leaf "guardy: unsupported rule capability")
unfolding compile_stream
rejects_units = refl

compile_stream-Kept_example :
    Kept no_json no_error
      (compile_stream false 1 (some whole_response) (some final_only ∷ none ∷ []) none answer 0)
compile_stream-Kept_example =
    compile_stream-Kept no_json no_error false 1 (some whole_response) (some final_only ∷ none ∷ [])
      none answer 0
