-- ===== src/Release/Approval.antt =====
-- release.go: `validateAndRelease`, the one place where bytes reach the transport.
use guardy.Base.{
  ℕ, ◌+◌, ◌-◌, ltb, ◌==◌, not, ◌&&◌, List, ◌++◌, Option, none, some, if◌then◌else◌, length, take,
}
use guardy.Decision.{Decision, is_system_fault}
use guardy.Fault.Tree.{Error, leaf, join, sentinel, blocked}
use guardy.Route.{ℤ, pos, negsuc}
use guardy.Delivery.{Delivered}
use guardy.Stream.Buffer.{add_u64}
use guardy.Release.Utf8.{valid_utf8}
use guardy.Release.{
  Encoding, StreamConfig, StreamProcessor, StreamStage, StreamCategory, Result, stream_incomplete,
  stream_malformed, stream_fault, stream_timeout, stream_blocked, stream_limit, stream_transport,
  is_whole_response, no_decision, fail, observe,
}
use guardy.Release.Units.{valid_representation, unit_limit_error, invalid_unit_error}

-- A unit is refused, or a value is approved in its place.
pub data Approval : Type 0 where
  refused : StreamCategory → Error → Decision → Approval
  approved : List ℕ → Decision → Approval

-- The count that a write returns lies between 0 and the length, or is invalid.
abbrev pub valid_count : ℤ → ℕ → Option ℕ
valid_count (pos n) size = if ltb size n then none else some n
valid_count (negsuc n) size = none

-- A write that is short of bytes without an error is one.
abbrev pub write_error : Option Error → ℕ → ℕ → Option Error
write_error (some e) n size = some e
write_error none n size = if n == size then none else some (leaf "short write")

module _ {W : Type 0} (encoding : Encoding) (cfg : StreamConfig W) where
  -- The tests of a delivered value.
  unfoldable pub approve_value : ℕ → List ℕ → Decision → Approval
  approve_value released_bytes value d =
      if not (valid_representation encoding cfg value)
      then refused stream_fault invalid_unit_error d
      else if not (is_whole_response cfg.profile) && ltb cfg.max_unit_bytes (length value)
      then refused stream_limit unit_limit_error d
      else if ltb (cfg.max_output_bytes - released_bytes) (length value)
      then refused stream_limit (leaf "guardy: output limit") d
      else approved value d

  abbrev pub block_category : Decision → StreamCategory
  block_category d = if is_system_fault d then stream_fault else stream_blocked

  -- What the delivery of the guard comes to, given the error of its context.
  unfoldable pub judge_delivery : ℕ → Delivered (List ℕ) → Option Error → Approval
  judge_delivery released_bytes d (some ctx) =
      refused stream_timeout (join d.error ctx) d.guarded.decision
  judge_delivery released_bytes d none = elim d.error [
    | some e ↦ refused (block_category d.guarded.decision) e d.guarded.decision
    | none ↦
        if d.guarded.deliverable
        then approve_value released_bytes d.guarded.value d.guarded.decision
        else refused stream_blocked (sentinel blocked) d.guarded.decision
  ]

  -- The call of the scope factory, and of the guard if it gave a scope.
  unfoldable pub consult : StreamStage → ℕ → List ℕ → W → Approval × W
  consult stage released_bytes value w =
      let (err, v) = cfg.scope_factory stage w in
      let (d, u) = cfg.guard stage v value in
      elim err [
        | some e ↦ (refused stream_fault e no_decision, v)
        | none ↦ (judge_delivery released_bytes d (cfg.guard_ctx_err u), u)
      ]

  unfoldable pub approval : StreamProcessor W → List ℕ → StreamStage → Approval × W
  approval s value stage =
      if not (valid_utf8 value)
      then (refused stream_incomplete (leaf "guardy: invalid UTF-8") no_decision, s.world)
      else if not (valid_representation encoding cfg value)
      then (refused stream_malformed invalid_unit_error no_decision, s.world)
      else consult stage s.outcome.released_bytes value s.world

  -- The state after an attempt has been numbered, and after the transport took `n` bytes.
  abbrev pub numbered : StreamProcessor W → Decision → W → StreamProcessor W
  numbered s d w = record s {
    world = w;
    outcome = record (s.outcome) { decision = d; sequence = add_u64 s.outcome.sequence 1 };
  }

  abbrev pub took : StreamProcessor W → List ℕ → ℕ → StreamProcessor W
  took s value n = record s {
    sent = s.sent ++ take n value;
    outcome = record (s.outcome) { released_bytes = s.outcome.released_bytes + n };
  }

  unfoldable pub settle_write :
      StreamProcessor W → List ℕ → Decision → StreamStage → ℤ → Option Error → Result W
  settle_write s value d stage count err = elim (valid_count count (length value)) [
    | none ↦ fail cfg s stream_transport (leaf "guardy: invalid transport byte count") d
    | some n ↦ elim (write_error err n (length value)) [
      | some e ↦ fail cfg (took s value n) stream_transport e d
      | none ↦ (observe cfg (took s value n) stage, none)
    ]
  ]

  unfoldable pub settle : StreamProcessor W → StreamStage → Approval × W → Result W
  settle s stage (refused category cause d, w) = fail cfg (record s { world = w }) category cause d
  settle s stage (approved value d, w) =
      let ((count, err), v) = cfg.transport w value in
      settle_write (numbered s d v) value d stage count err

  unfoldable pub validate_and_release : StreamProcessor W → List ℕ → StreamStage → Result W
  validate_and_release s value stage = settle s stage (approval s value stage)
