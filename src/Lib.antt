-- ===== src/Lib.antt =====
-- Guardy: validation of what enters and leaves a program that talks to a language model.
--
-- A pipeline runs rules over a value. Each rule answers with a report, and the strongest report
-- decides whether the value passes, is denied, is to be corrected, or whether the run is a fault. A
-- host routes by the decision: it guards an HTTP request, binds the arguments of a tool, delivers an
-- output, or releases a stream, which is kept in a bounded ring and cut into units. The rules of the
-- extension mask what they find in a text, through a vault that gives it back.
--
-- The files, by the code that they model:
--   Kinds       guardy.go, disposition.go, payload.go: the enumerations Action, FailureDisposition and
--               PayloadKind, with values out of range.
--   Report      guardy.go, disposition.go, report_control.go, report_helpers.go: Report,
--               effectiveDisposition (`effective`), IsObservation, FinishReport, normalizeReport and
--               AggregatePayloadKind.
--   Decision    guardy.go, decision.go: RunResult.Decision (`decision_of`), ComposeReports,
--               DecisionFromReport, PolicyDecision.
--   Route       route.go: RouteDecision and the budget of retries.
--   Stream      stream.go and stream_splitter.go: streamBuffer (Buffer) and frameScanner (Splitter).
--   Fault       errors.go, completed_observations.go, validator_panic.go: errors as trees (Tree), the
--               walks over them (Walk) and the errors made of reports (Outcome).
--   Scope       scope.go: scopes, requirements, their merging and their check.
--   Pipeline    pipeline.go, policy.go, validator.go, phase.go, observer.go, validator_panic.go: the
--               rules and middleware (Rules), NewPipeline and Use (Build), the sequential phases and the
--               result (Run), the parallel phase and `Run` itself (Parallel).
--   Boundary    boundary.go: profiles, the scope factory and the projection of a delivery.
--   Delivery    guarded_output.go: GuardDelivery, the classifier's verdict and the checked fallback
--               (Judged, Checked and Origin: what it promises; Runs: how a pipeline fills its interface).
--   Release     release.go: CompileStream (Compile) and the StreamProcessor: what it uses of
--               `unicode/utf8` (Utf8), its units (Units), validateAndRelease (Approval), WriteContext,
--               Complete and Abort (Steps), and DeliverFallback (FallbackDelivery); the proofs are in
--               Bounds, Reach, Terminal, Whole, Opened, Progress, Drained and FallbackDelivery.
--   Args        args.go, decode.go: CompileArgs, and Validate with bind (Validation); the proofs are in
--               Corrections and Judged.
--   Http        http_guard.go: the bodies and the answers, and serveGuard with deliverHTTPRequest
--               (Serve); the proofs are in Bodies, Released, Explained and
--               Admitted.
--   JsonDoc     internal/jsondoc/decode.go: the strings and keys (Strings), bindingScanner with
--               validateBindingDocument and Bind (Scanner), and Decode (Reading); Printing has the
--               documents and their texts, and the proofs are in Keys, Bounded, Ended, Parts,
--               Spaced, Entries, Scanned, Documents, Read and Decoded.
--   Ext         the package ext: texts as bytes (Bytes), token_vault.go (TokenVault, and Unredact for
--               UnredactText), spans.go (Spans), options.go (Options), pii_masking.go (Pii, over Runes
--               and Patterns), and length.go, regex.go, tag_sanitizer.go and wordlist.go (Rules, over
--               Words).
--   Base        shared names, tests and list lemmas.
--   Examples    runs on concrete inputs.
--
-- How the parts meet: Pipeline calls Scope for the check of its requirements, appends normalized
-- reports, asks Decision on the user channel and for the report of a fault, and Fault for what a
-- failed rule had observed. Route reads only a decision. Delivery and Args run a pipeline through
-- the interface `Runner`, which Delivery.Runs fills; Http runs one as a function of the scope that
-- Boundary gives it. Release gives each unit that the scanners of Stream find in the ring to a
-- delivery, and sends what is approved. The rules of Ext replace the spans that they find through
-- the vault.
--
-- How state is modelled: a rule, the observer and the context act on a world `W` that is passed
-- along; `ctx.Err()` reads it. A panic is an outcome of a call. The goroutines of the parallel phase
-- are tasks that a schedule, a list of places, lets step; each step is a call of a rule, a test of
-- the context or one section under the mutex, so every interleaving of those is some schedule. A
-- schedule that leaves a task unfinished gives no result. The body of a request is a reference: the
-- wrappers that own a body are numbered as they are made, and the request knows which of them are
-- closed. The maps of the vault are functions of their keys.
--
-- Bounds: the loops of the scanners take the bytes that are left as their bound and so read all of
-- them; a round of the stream processor takes a byte at least, so that the pending bytes, or the
-- bytes written, bound its rounds. A value of a JSON text, or an entry of a container, takes a byte
-- at least before the next one, and a value takes a token, so twice their number is enough. The
-- searches of Ext move on by a byte at least, so the length of the text is enough.
--
-- Numbers: Go ints that cannot be negative are natural numbers; the uint64 counters of the stream
-- and of the vault wrap; the counters of a remediation policy are signed. A float64 is finite, NaN
-- or infinite.
--
-- Parameters: what `reflect` says of types, the rules, the middleware, the observer, the classifier
-- of a delivery, `strings.TrimSpace`, `strings.ToLower`, the context, for a stream its guard,
-- transport and scope factory and what it asks `encoding/json`, for arguments their codec, for a
-- request its callbacks, its scope factory and what closing a body returns, for a rule its vault,
-- its compiled expression and the tables of `unicode`, for a JSON text `json.Valid`, its tokens and
-- the decoding into a target.
--
-- Not modelled: the opaque State of a report; the user-text classifier of guarded_output.go; the
-- list of requirements in the answer to an incomplete scope; the shape of arguments; json_args.go,
-- policies, semantic matching, adapters and the interceptor; of ext, the mapper over slices, the
-- classifiers by a model, the schemas and their redaction; build; telemetry, tooling and examples.
pub mod Base
pub mod Kinds
pub mod Report
pub mod Decision
pub mod Route
pub mod Stream
pub mod Fault
pub mod Scope
pub mod Pipeline
pub mod Delivery
pub mod Release
pub mod Boundary
pub mod Http
pub mod Args
pub mod Ext
pub mod JsonDoc
pub mod Examples
