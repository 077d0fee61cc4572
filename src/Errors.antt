-- ===== src/Errors.antt =====
-- errors.go, the error values of client.go and exec.go, and accumulateErrors of
-- client_resolver.go.
--
-- An `error` is `Option Error`, nil is `none`. `fault` is an error value of the environment (paho,
-- a user callback, a codec, a context), told apart by its number; its chain holds no
-- *multierror.Error. `multi` is a *multierror.Error, of which the code reads the list of errors.
pub mod Accumulate
pub mod Format
use courier_go.Base.{
  ℕ, String, Bool, true, false, Option, none, some, List, [], ◌∷◌, ◌++◌, foldl, ◌≡◌, refl,
}

-- The package's sentinel errors.
pub data Sentinel : Type 0 where
  client_not_initialized connect_timeout publish_timeout subscribe_timeout : Sentinel
  unsubscribe_timeout subscribe_multiple_timeout invalid_exec_opt : Sentinel

-- `errorf` is fmt.Errorf without %w, `wrapf` with it, `joined` is errors.Join.
mutual
  pub data Error : Type 0 where
    sentinel : Sentinel → Error
    fault : ℕ → Error
    errorf : String → Error
    wrapf : String → Error → Error
    joined : Errors → Error
    multi : Errors → Error

  pub data Errors : Type 0 where
    nil : Errors
    cons : Error → Errors → Errors

abbrev pub to_list : Errors → List Error
to_list nil = []
to_list (cons e es) = e ∷ to_list es

abbrev pub from_list : List Error → Errors
from_list [] = nil
from_list (e ∷ es) = cons e (from_list es)

pub to_list-from_list : (es : List Error) → to_list (from_list es) ≡ es
to_list-from_list [] = refl
to_list-from_list (e ∷ es) = λ i. e ∷ to_list-from_list es i

abbrev first {ℓ} : {A : Type ℓ} → Option A → Option A → Option A
first none o = o
first (some a) o = some a

-- errors.As(err, **multierror.Error): the first *multierror.Error on the chain, in pre-order.
mutual
  pub as_multi_of : Error → Option Errors
  as_multi_of (sentinel s) = none
  as_multi_of (fault n) = none
  as_multi_of (errorf msg) = none
  as_multi_of (wrapf msg e) = as_multi_of e
  as_multi_of (joined es) = as_multi_any es
  as_multi_of (multi es) = some es

  pub as_multi_any : Errors → Option Errors
  as_multi_any nil = none
  as_multi_any (cons e es) = first (as_multi_of e) (as_multi_any es)

unfoldable pub as_multi : Option Error → Option Errors
unfolding as_multi_of
as_multi none = none
as_multi (some e) = as_multi_of e

-- What one operand contributes to an appended multierror: nil nothing, a *multierror.Error its
-- errors, any other error itself.
abbrev pub pieces : Option Error → List Error
pieces none = []
pieces (some (multi es)) = to_list es
pieces (some e) = e ∷ []

-- What accumulateErrors takes from github.com/hashicorp/go-multierror: Append onto the errors of a
-- *multierror.Error skips nil and flattens *multierror.Error operands; ErrorOrNil is nil exactly
-- for no errors.
pub record Multierror : Type 0 where
  pub append : List Error → List (Option Error) → List Error
  pub error_or_nil : List Error → Option Error
  pub append-nil : (m : List Error) → append m [] ≡ m
  pub append-cons :
      (m : List Error) (e : Option Error) (es : List (Option Error))
      → append m (e ∷ es) ≡ append (m ++ pieces e) es
  pub error_or_nil-nil : error_or_nil [] ≡ none
  pub error_or_nil-cons :
      (e : Error) (es : List Error) → error_or_nil (e ∷ es) ≡ some (multi (from_list (e ∷ es)))

-- accumulateErrors
unfoldable pub accumulate_errors : Multierror → Option Error → Option Error → Option Error
unfolding as_multi
accumulate_errors lib prev curr = elim (as_multi prev) [
  | some es ↦ lib.error_or_nil (lib.append (to_list es) (curr ∷ []))
  | none ↦ lib.error_or_nil (lib.append [] (prev ∷ curr ∷ []))
]
