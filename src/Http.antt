-- ===== src/Http.antt =====
-- http_guard.go: the middleware that guards a request. The body of the request is a reference; the
-- wrappers that own a body are numbered as they are made, and each closes what it holds once.
pub mod Serve
pub mod Explained
pub mod Admitted
pub mod Bodies
pub mod Released
use guardy.Base.{
  ℕ, ◌+◌, ◌==◌, ltb, Bool, true, false, ◌||◌, String, List, [], ◌∷◌, ◌++◌, Option, none, some,
  is_empty, if◌then◌else◌, length, any,
}
use guardy.Fault.Tree.{
  Sentinel, scope_incomplete, Error, sentinel, leaf, wrapped, joined, panic_value, panic_error,
  validator_fault, observed, misconfigured, scope_missing, scope_type, unclassified, incomparable,
  block_error, retry_error, Errors, nil, cons, join_options, join_texts,
}
use guardy.Fault.Outcome.{or_else}
use guardy.Decision.{Decision}
use guardy.Boundary.{ScopeAnswer}
use guardy.Ext.Bytes.{Bytes}

-- `r.Body`: `http.NoBody` or nil, a body that no wrapper owns, or an `ownedHTTPBody`.
pub data Body : Type 0 where
  no_body raw : Body
  owned : ℕ → Body

-- The request as the middleware sees it: what its body delivers, the wrappers made and those closed.
pub record Request (W : Type 0) : Type 0 where
  pub world : W
  pub body : Body
  pub contents : Bytes
  pub content_length : ℕ
  pub made : ℕ
  pub closed : List ℕ

pub record ErrorBody : Type 0 where
  pub code : String
  pub message : String
  pub missing : List String

-- What the client gets: the answer of the next handler to a request with these contents, or an error.
pub data Response : Type 0 where
  served : Bytes → Response
  answered : ℕ → ErrorBody → Response

-- What a callback leaves in `r.Body`: the borrowed body, none, or one of its own.
pub data Left : Type 0 where
  kept dropped : Left
  replaced : Bytes → Left

pub record Called (A : Type 0) : Type 0 where
  pub value : A
  pub error : Option Error
  pub left : Left
  -- The callback itself closed the body that it borrowed.
  pub closes : Bool

-- `PlainTextInjector`; the length and the header that it sets too are read by no part of the guard.
abbrev pub plain_text_injector : {W : Type 0} → W → Bytes → Called (Unit {0}) × W
plain_text_injector w mutated =
    (record { value = tt; error = none; left = replaced mutated; closes = false }, w)

pub record GuardConfig (W : Type 0) : Type 0 where
  pub scope_factory : Option (W → ScopeAnswer × W)
  pub max_body_bytes : ℕ

-- `DefaultMaxBodyBytes`, 1 << 20.
abbrev pub default_max_body_bytes : ℕ
default_max_body_bytes = 1048576

pub data GuardOption (W : Type 0) : Type 0 where
  nil_option : GuardOption W
  with_scope_factory : Option (W → ScopeAnswer × W) → GuardOption W
  with_max_body_bytes : ℕ → GuardOption W

pub data Configured (W : Type 0) : Type 0 where
  configured : GuardConfig W → Configured W
  misfit : Error → Configured W

abbrev pub apply_options : {W : Type 0} → GuardConfig W → List (GuardOption W) → Configured W
apply_options cfg [] = configured cfg
apply_options cfg (nil_option ∷ opts) = misfit (misconfigured "http_guard" "options" "nil")
apply_options cfg (with_scope_factory f ∷ opts) =
    apply_options (record cfg { scope_factory = f }) opts
apply_options cfg (with_max_body_bytes n ∷ opts) =
    apply_options (record cfg { max_body_bytes = n }) opts

abbrev pub with_limit : {W : Type 0} → Configured W → Configured W
with_limit (misfit e) = misfit e
with_limit (configured cfg) =
    if cfg.max_body_bytes == 0
    then misfit (misconfigured "http_guard" "max_body_bytes" "nonpositive")
    else configured cfg

-- `Guard` up to its middleware, for a pipeline and callbacks of which some may be nil; a limit below
-- zero counts as zero.
unfoldable pub guard : {W : Type 0} → Bool → Bool → Bool → List (GuardOption W) → Configured W
guard nil_pipeline nil_extractor nil_injector opts =
    if nil_pipeline
    then misfit (misconfigured "http_guard" "pipeline" "nil")
    else if nil_extractor
    then misfit (misconfigured "http_guard" "extractor" "nil")
    else if nil_injector
    then misfit (misconfigured "http_guard" "injector" "nil")
    else with_limit (
        apply_options (record { scope_factory = none; max_body_bytes = default_max_body_bytes })
          opts)

abbrev pub is_closed : ℕ → List ℕ → Bool
is_closed k closed = any (λ n. n == k) closed

module _ {W : Type 0} (close_err : ℕ → Option Error) where
  -- `Close` of the wrapper `k`, which remembers its error.
  unfoldable pub close_owned : ℕ → Request W → Option Error × Request W
  close_owned k r =
      (close_err k, if is_closed k r.closed then r else record r { closed = r.closed ++ k ∷ [] })

  -- A body that is not owned is put into a new wrapper.
  abbrev pub adopt_body : Body → Request W → ℕ × Request W
  adopt_body (owned k) r = (k, r)
  adopt_body no_body r = (r.made, record r { body = owned r.made; made = r.made + 1 })
  adopt_body raw r = (r.made, record r { body = owned r.made; made = r.made + 1 })

  unfoldable pub adopt : Request W → ℕ × Request W
  adopt r = adopt_body r.body r

  -- `r.Body = http.NoBody`.
  abbrev pub drop_body : Request W → Request W
  drop_body r = record r { body = no_body }

  -- The borrowed body is closed if the callback has put another into its place.
  abbrev pub close_replaced : ℕ → ℕ → Request W → Option Error × Request W
  close_replaced current borrowed r =
      if current == borrowed then (none, r) else close_owned borrowed r

  abbrev pub close_current : Bool → ℕ → Option Error × Request W → Option Error × Request W
  close_current true current (err, r) = (err, r)
  close_current false current (err, r) =
      let (e, s) = close_owned current r in (join_options err e, drop_body s)

  unfoldable pub finish_callback : ℕ → Bool → Request W → Option Error × Request W
  unfolding adopt close_owned
  finish_callback borrowed keep r =
      let (current, s) = adopt r in close_current keep current (close_replaced current borrowed s)

  unfoldable pub restore_body : Bytes → Request W → ℕ × Request W
  unfolding adopt
  restore_body content r =
      adopt (record r { body = raw; contents = content; content_length = length content })

  -- What a callback did to the borrowed body and to `r.Body`.
  abbrev pub apply_left : Left → Request W → Request W
  apply_left kept r = r
  apply_left dropped r = record r { body = no_body; contents = [] }
  apply_left (replaced content) r = record r { body = raw; contents = content }

  unfoldable pub borrow : {A : Type 0} → ℕ → Called A × W → Request W → Request W
  unfolding close_owned
  borrow k (c, w) r =
      apply_left c.left (record (if c.closes then (close_owned k r).1 else r) { world = w })

-- `errors.Is(err, ErrScopeIncomplete)`, and the keys of the first `*ScopeIncompleteError`.
abbrev pub is_scope_sentinel : Sentinel → Bool
is_scope_sentinel scope_incomplete = true
is_scope_sentinel _ = false

unfoldable mutual
  pub is_scope_incomplete : Error → Bool
  is_scope_incomplete (sentinel s) = is_scope_sentinel s
  is_scope_incomplete (leaf text) = false
  is_scope_incomplete (wrapped text e) = is_scope_incomplete e
  is_scope_incomplete (joined es) = any_scope_incomplete es
  is_scope_incomplete (panic_value n) = false
  is_scope_incomplete (panic_error e) = is_scope_incomplete e
  is_scope_incomplete (validator_fault e r) = is_scope_incomplete e
  is_scope_incomplete (observed e r) = is_scope_incomplete e
  is_scope_incomplete (misconfigured component field code) = false
  is_scope_incomplete (scope_missing keys) = true
  is_scope_incomplete (scope_type key) = false
  is_scope_incomplete (unclassified code) = false
  is_scope_incomplete (incomparable key) = false
  is_scope_incomplete (block_error r) = false
  is_scope_incomplete (retry_error r) = false

  pub any_scope_incomplete : Errors → Bool
  any_scope_incomplete nil = false
  any_scope_incomplete (cons e es) = is_scope_incomplete e || any_scope_incomplete es

unfoldable mutual
  pub scope_error_keys : Error → Option (List String)
  scope_error_keys (sentinel s) = none
  scope_error_keys (leaf text) = none
  scope_error_keys (wrapped text e) = scope_error_keys e
  scope_error_keys (joined es) = first_scope_keys es
  scope_error_keys (panic_value n) = none
  scope_error_keys (panic_error e) = scope_error_keys e
  scope_error_keys (validator_fault e r) = scope_error_keys e
  scope_error_keys (observed e r) = scope_error_keys e
  scope_error_keys (misconfigured component field code) = none
  scope_error_keys (scope_missing keys) = some keys
  scope_error_keys (scope_type key) = none
  scope_error_keys (unclassified code) = none
  scope_error_keys (incomparable key) = none
  scope_error_keys (block_error r) = none
  scope_error_keys (retry_error r) = none

  pub first_scope_keys : Errors → Option (List String)
  first_scope_keys nil = none
  first_scope_keys (cons e es) = or_else (scope_error_keys e) (first_scope_keys es)

abbrev pub or_no_keys : Option (List String) → List String
or_no_keys none = []
or_no_keys (some keys) = keys

-- `MissingScopeKeys`.
unfoldable pub missing_scope_keys : Error → List String
missing_scope_keys e = or_no_keys (scope_error_keys e)

abbrev pub keys_message : List String → String
keys_message [] = "execution scope incomplete"
keys_message (k ∷ ks) =
    join_texts "" ("execution scope incomplete: " ∷ join_texts ", " (k ∷ ks) ∷ [])

unfoldable pub scope_incomplete_message : Error → String
unfolding missing_scope_keys
scope_incomplete_message e = keys_message (missing_scope_keys e)

abbrev pub json_error : ℕ → String → String → Response
json_error status code message =
    answered status (record { code = code; message = message; missing = [] })

-- `writeJSONScopeError` with the status 400.
unfoldable pub json_scope_error : Error → Response
unfolding missing_scope_keys scope_incomplete_message
json_scope_error e = answered 400 (record {
  code = "ATTRIBUTE_MISSING";
  message = scope_incomplete_message e;
  missing = missing_scope_keys e;
})

abbrev pub first_text : String → String → String
first_text a b = if is_empty a then b else a

-- `writeJSONDecisionError` with the status 422.
unfoldable pub json_decision_error : Decision → Response
json_decision_error d =
    json_error 422 (first_text d.code (first_text d.validator "blocked"))
      (first_text d.safe_message d.retry_feedback)

abbrev pub validation_failed : Response
validation_failed = json_error 500 "VALIDATOR_FAILED" "validation failed"
