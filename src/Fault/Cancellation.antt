-- ===== src/Fault/Cancellation.antt =====
-- `cancellationOnly` against the independent causes of an error.
use guardy.Base.{
  Bool, true, false, ◌&&◌, ◌||◌, ◌≡◌, List, [], ◌∷◌, ◌++◌, arith, all, ap₂, sym, ◌∙◌, refl,
}
use guardy.Fault.Tree.{
  canceled, deadline_exceeded, Error, sentinel, leaf, wrapped, joined, panic_value, panic_error,
  validator_fault, observed, misconfigured, scope_missing, scope_type, unclassified, incomparable,
  block_error, retry_error, Errors, nil, cons, is_sentinel,
}
use guardy.Fault.Walk.{cancellation_only, all_cancellation_only}

-- The independent causes of an error: wrappers, carriers and fault marks are looked through, a panic
-- is a cause of its own, and so is a join of nothing.
mutual
  pub causes : Error → List Error
  causes (sentinel s) = sentinel s ∷ []
  causes (leaf text) = leaf text ∷ []
  causes (wrapped text e) = causes e
  causes (joined nil) = joined nil ∷ []
  causes (joined (cons e es)) = causes e ++ causes_all es
  causes (panic_value n) = panic_value n ∷ []
  causes (panic_error e) = panic_error e ∷ []
  causes (validator_fault e r) = causes e
  causes (observed e r) = causes e
  causes (misconfigured component field code) = misconfigured component field code ∷ []
  causes (scope_missing keys) = scope_missing keys ∷ []
  causes (scope_type key) = scope_type key ∷ []
  causes (unclassified code) = unclassified code ∷ []
  causes (incomparable key) = incomparable key ∷ []
  causes (block_error r) = block_error r ∷ []
  causes (retry_error r) = retry_error r ∷ []

  pub causes_all : Errors → List Error
  causes_all nil = []
  causes_all (cons e es) = causes e ++ causes_all es

abbrev pub is_context_sentinel : Error → Bool
is_context_sentinel (sentinel s) = is_sentinel canceled s || is_sentinel deadline_exceeded s
is_context_sentinel _ = false

all-append : (p : Error → Bool) (xs ys : List Error) → all p (xs ++ ys) ≡ (all p xs && all p ys)
all-append p [] ys = ground arith
all-append p (x ∷ xs) ys = ground (arith, all-append p xs ys)

and-true : (b : Bool) → (b && true) ≡ b
and-true true = refl
and-true false = refl

mutual
  unfolding causes causes_all cancellation_only all_cancellation_only

  only-causes : (e : Error) → cancellation_only e ≡ all is_context_sentinel (causes e)
  only-causes (sentinel s) = ground arith
  only-causes (wrapped text e) = only-causes e
  only-causes (joined nil) = ground arith
  only-causes (joined (cons e es)) =
      and-true (cancellation_only e && all_cancellation_only es)
      ∙ ap₂ ◌&&◌ (only-causes e) (all-causes es)
      ∙ sym (all-append is_context_sentinel (causes e) (causes_all es))
  only-causes (validator_fault e r) = only-causes e
  only-causes (observed e r) = only-causes e
  only-causes _ = ground arith

  all-causes : (es : Errors) → all_cancellation_only es ≡ all is_context_sentinel (causes_all es)
  all-causes nil = ground arith
  all-causes (cons e es) =
      ap₂ ◌&&◌ (only-causes e) (all-causes es)
      ∙ sym (all-append is_context_sentinel (causes e) (causes_all es))

-- A failure counts as mere cancellation exactly when every independent cause is a context sentinel:
-- a panic, or one joined cause of another kind, is enough to make it a failure of its own.
pub cancellation_only-causes :
    (e : Error) → cancellation_only e ≡ all is_context_sentinel (causes e)
cancellation_only-causes e = only-causes e
