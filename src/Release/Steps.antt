-- ===== src/Release/Steps.antt =====
-- release.go: the operations of the processor. The mutex makes each one step.
use guardy.Base.{
  ℕ, zero, suc, ◌+◌, ◌-◌, min, max, ltb, leb, ◌==◌, Bool, true, false, not, ◌&&◌, List, [], ◌∷◌,
  Option, none, some, if◌then◌else◌, length, take, drop,
}
use guardy.Fault.Tree.{Error, leaf}
use guardy.Stream.Buffer.{append, prefix, consume, clear}
use guardy.Stream.Splitter.{reset}
use guardy.Release.{
  Encoding, StreamConfig, StreamProcessor, StreamStage, stream_partial, stream_unit, stream_final,
  stream_success, stream_incomplete, stream_limit, stream_timeout, ReleaseError, Result,
  is_whole_response, is_validated_units, no_decision, fail, observe,
}
use guardy.Release.Units.{NextUnit, unit, no_unit, next_unit, unit_limit_error}
use guardy.Release.Approval.{validate_and_release}

-- What a method returns as its error.
pub data StreamError : Type 0 where
  no_error closed_pipe : StreamError
  released : ReleaseError → StreamError

abbrev pub error_or : Option ReleaseError → StreamError → StreamError
error_or none e = e
error_or (some r) e = released r

module _ {W : Type 0} (encoding : Encoding) (ctx_err : W → Option Error)
    (cfg : StreamConfig W) where
  abbrev pub unit_stage : StreamStage
  unit_stage = if is_validated_units cfg.profile then stream_unit else stream_partial

  abbrev pub counts_lines : Bool
  counts_lines = is_validated_units cfg.profile && not cfg.json_values

  -- The rest of a round of `releasePending` after the unit was released.
  abbrev pub consumed : StreamProcessor W → ℕ → StreamProcessor W
  consumed s n = record s { pending = consume s.pending n; framer = reset s.framer }

  -- The unit is read before it is judged, which counts the copy.
  abbrev pub unit_read : StreamProcessor W → ℕ → StreamProcessor W
  unit_read s n = record s { pending = (prefix s.pending n).1 }

  unfoldable pub release_unit : StreamProcessor W → ℕ → Result W
  release_unit s n =
      validate_and_release encoding cfg (unit_read s n) (prefix s.pending n).0 unit_stage

  abbrev pub next : StreamProcessor W → Bool → StreamProcessor W × NextUnit
  next s final =
      let (f, u) = next_unit encoding cfg s.framer s.pending final in (record s { framer = f }, u)

  abbrev pub after_unit : (StreamProcessor W → Result W) → ℕ → Result W → Result W
  after_unit more n (t, some e) = (t, some e)
  after_unit more n (t, none) = more (consumed t n)

  -- A round of `releasePending` from the unit on, which goes on by `more`.
  unfoldable pub release_round :
      (StreamProcessor W → Result W) → StreamProcessor W × NextUnit → Result W
  release_round more (s, no_unit category cause) = fail cfg s category cause no_decision
  release_round more (s, unit n) =
      if n == 0
      then (s, none)
      else if ltb cfg.max_unit_bytes n
      then fail cfg s stream_limit unit_limit_error no_decision
      else after_unit more n (release_unit s n)

  -- `releasePending`: every round takes a byte at least, so that as many rounds as bytes are enough.
  unfoldable pub release_pending : ℕ → StreamProcessor W → Bool → Result W
  release_pending zero s final = (s, none)
  release_pending (suc fuel) s final =
      if s.pending.size == 0
      then (s, none)
      else release_round (λ t. release_pending fuel t final) (next s final)

  -- `acceptInput` and `WriteContext` return the number of bytes accepted as well.
  abbrev pub Accepted : Type 0
  Accepted = StreamProcessor W × ℕ × Option ReleaseError

  abbrev pub budget : ℕ
  budget =
      if counts_lines then min cfg.max_pending_bytes cfg.max_unit_bytes else cfg.max_pending_bytes

  abbrev pub received : StreamProcessor W → List ℕ → StreamProcessor W
  received s p =
      let pending = append s.pending p budget in
      record s {
        pending = pending;
        outcome = record (s.outcome) {
          received_bytes = s.outcome.received_bytes + length p;
          peak_pending_bytes = max s.outcome.peak_pending_bytes (length pending.bytes);
        };
      }

  abbrev pub release_received : StreamProcessor W → Result W
  release_received s =
      if is_whole_response cfg.profile then (s, none) else release_pending s.pending.size s false

  abbrev pub with_count : ℕ → Result W → Accepted
  with_count accepted (s, e) = (s, accepted, e)

  -- The loop takes a byte at least in each round.
  unfoldable pub accept_input : ℕ → StreamProcessor W → ℕ → List ℕ → Accepted
  accept_input zero s accepted p = (s, accepted, none)
  accept_input (suc fuel) s accepted [] = (s, accepted, none)
  accept_input (suc fuel) s accepted (c ∷ p) =
      let room = budget - s.pending.size in
      let n = min room (suc (length p)) in
      let (t, err) = release_received (received s (take n (c ∷ p))) in
      let rest = accept_input fuel t (accepted + n) (drop n (c ∷ p)) in
      if counts_lines && leb cfg.max_unit_bytes s.pending.size
      then with_count accepted (fail cfg s stream_limit unit_limit_error no_decision)
      else if room == 0
      then with_count accepted (fail cfg s stream_limit (leaf "guardy: pending limit") no_decision)
      else elim err [ some e ↦ (t, accepted + n, some e) | none ↦ rest ]

  -- The tests of a write before any byte is taken.
  unfoldable pub admitted : StreamProcessor W → List ℕ → Accepted
  admitted s p =
      if ltb (cfg.max_input_bytes - s.outcome.received_bytes) (length p)
      then with_count 0 (fail cfg s stream_limit (leaf "guardy: input limit") no_decision)
      else elim (ctx_err s.world) [
        | some e ↦ with_count 0 (fail cfg s stream_timeout e no_decision)
        | none ↦ accept_input (length p) s 0 p
      ]

  abbrev pub with_error : Accepted → StreamProcessor W × ℕ × StreamError
  with_error (s, n, e) = (s, n, error_or e no_error)

  unfoldable pub write_context : StreamProcessor W → List ℕ → StreamProcessor W × ℕ × StreamError
  write_context s p =
      if s.outcome.terminal
      then (s, 0, error_or s.terminal_err closed_pipe)
      else with_error (admitted s p)

  -- The end of `Complete` after everything was released.
  abbrev pub succeeded : StreamProcessor W → StreamProcessor W
  succeeded s =
      observe cfg
        (record s {
          pending = clear s.pending;
          framer = reset s.framer;
          outcome = record (s.outcome) { terminal = true; category = stream_success };
        })
        stream_final

  abbrev pub finish : Result W → Result W
  finish (s, some e) = (s, some e)
  finish (s, none) = (succeeded s, none)

  unfoldable pub release_all : StreamProcessor W → Result W
  release_all s =
      if is_whole_response cfg.profile
      then (if ltb cfg.max_unit_bytes s.pending.size
          then fail cfg s stream_limit unit_limit_error no_decision
          else validate_and_release encoding cfg (unit_read s s.pending.size)
              (prefix s.pending s.pending.size).0 stream_final)
      else release_pending s.pending.size s true

  -- `Complete` of a stream that goes on.
  unfoldable pub completed : StreamProcessor W → Result W
  completed s = elim (ctx_err s.world) [
    | some e ↦ fail cfg s stream_timeout e no_decision
    | none ↦ finish (release_all s)
  ]

  unfoldable pub complete : StreamProcessor W → Result W
  complete s = if s.outcome.terminal then (s, s.terminal_err) else completed s

  abbrev pub cause_or_eof : Option Error → Error
  cause_or_eof none = leaf "unexpected EOF"
  cause_or_eof (some e) = e

  unfoldable pub abort : StreamProcessor W → Option Error → Result W
  abort s cause =
      if s.outcome.terminal
      then (s, s.terminal_err)
      else fail cfg s stream_incomplete (cause_or_eof cause) no_decision
