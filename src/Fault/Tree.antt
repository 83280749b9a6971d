-- ===== src/Fault/Tree.antt =====
-- errors.go, configuration.go, validator_panic.go and scope.go: the errors of the library as a tree,
-- by what `Unwrap` returns, and their texts.
use Prim.Native.String
use guardy.Base.{
  ℕ, Bool, true, false, String, List, [], ◌∷◌, Option, none, some, if◌then◌else◌, is_empty,
}
use guardy.Report.{Report, public_message}

-- The sentinels that the library or the standard library declares.
pub data Sentinel : Type 0 where
  canceled deadline_exceeded : Sentinel
  configuration validator_failed blocked retry_requested scope_incomplete : Sentinel
  scope_incompatible delivery_classification attribute_incomparable : Sentinel

mutual
  pub data Error : Type 0 where
    sentinel : Sentinel → Error
    -- An error of the caller that wraps nothing and one that wraps another, each with its text,
    -- and a joined one.
    leaf : String → Error
    wrapped : String → Error → Error
    joined : Errors → Error
    -- `*ValidatorPanicError` of a value that is no error, and of one that is.
    panic_value : ℕ → Error
    panic_error : Error → Error
    -- `*ValidatorFaultError`: `Failure.Cause` and the report, of which `Failure.Decision` is made.
    validator_fault : Error → Report → Error
    -- `*CompletedObservationsError`.
    observed : Error → Report → Error
    -- `*ConfigurationError` without a cause, by component, field and code.
    misconfigured : String → String → String → Error
    -- `*ScopeIncompleteError` by the missing keys, and `*ScopeTypeError` by the key.
    scope_missing : List String → Error
    scope_type : String → Error
    -- `*DeliveryClassificationError` and `*AttributeComparisonError`.
    unclassified : String → Error
    incomparable : String → Error
    -- `*BlockError` and `*RetryError`: the report, of which message and failure are made.
    block_error : Report → Error
    retry_error : Report → Error

  pub data Errors : Type 0 where
    nil : Errors
    cons : Error → Errors → Errors

-- `errors.Join` of an error that may be nil and one that is not.
abbrev pub join : Option Error → Error → Error
join none e = joined (cons e nil)
join (some d) e = joined (cons d (cons e nil))

-- `errors.Join` of two errors that may be nil.
abbrev pub join_options : Option Error → Option Error → Option Error
join_options none none = none
join_options none (some e) = some (join none e)
join_options (some d) none = some (join none d)
join_options (some d) (some e) = some (join (some d) e)

abbrev pub is_sentinel : Sentinel → Sentinel → Bool
is_sentinel canceled canceled = true
is_sentinel deadline_exceeded deadline_exceeded = true
is_sentinel _ _ = false

-- The `Error` methods.
abbrev pub sentinel_text : Sentinel → String
sentinel_text canceled = "context canceled"
sentinel_text deadline_exceeded = "context deadline exceeded"
sentinel_text configuration = "guardy: invalid configuration"
sentinel_text validator_failed = "guardy: validator failed"
sentinel_text blocked = "guardy: input blocked"
sentinel_text retry_requested = "guardy: retry requested"
sentinel_text scope_incomplete = "guardy: execution scope incomplete"
sentinel_text scope_incompatible = "guardy: incompatible scope value"
sentinel_text delivery_classification = "guardy: unsupported delivery representation"
sentinel_text attribute_incomparable = "guardy: attribute equality requires comparable values"

-- `strings.Join`.
abbrev pub join_texts : String → List String → String
join_texts sep [] = ""
join_texts sep (t ∷ []) = t
join_texts sep (t ∷ u ∷ ts) = String.◌++◌ t (String.◌++◌ sep (join_texts sep (u ∷ ts)))

abbrev pub labelled : String → String → String
labelled text message =
    if is_empty message then text else String.◌++◌ text (String.◌++◌ ": " message)

unfoldable mutual
  pub error_text : Error → String
  error_text (sentinel s) = sentinel_text s
  error_text (leaf text) = text
  error_text (wrapped text e) = text
  error_text (joined es) = join_texts "\n" (error_texts es)
  error_text (panic_value n) = "guardy: validator panicked"
  error_text (panic_error e) = "guardy: validator panicked"
  error_text (validator_fault e r) = sentinel_text validator_failed
  error_text (observed e r) = sentinel_text validator_failed
  error_text (misconfigured component field code) =
      join_texts ""
        (sentinel_text configuration ∷ ": " ∷ component ∷ "." ∷ field ∷ " (" ∷ code ∷ ")" ∷ [])
  error_text (scope_missing keys) = labelled (sentinel_text scope_incomplete) (join_texts ", " keys)
  error_text (scope_type key) = join_texts ": " (sentinel_text scope_incompatible ∷ key ∷ [])
  error_text (unclassified code) = sentinel_text delivery_classification
  error_text (incomparable key) = sentinel_text attribute_incomparable
  error_text (block_error r) = labelled (sentinel_text blocked) (public_message (some r))
  error_text (retry_error r) = sentinel_text retry_requested

  pub error_texts : Errors → List String
  error_texts nil = []
  error_texts (cons e es) = error_text e ∷ error_texts es

-- `fmt.Errorf` with a text before the error that it wraps.
abbrev pub annotated : String → Error → Error
annotated text e = wrapped (join_texts ": " (text ∷ error_text e ∷ [])) e
