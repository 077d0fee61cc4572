-- ===== src/Libs.antt =====
-- What the client takes from github.com/gojekfarm/xtools/generic (its sets, slices and maps) and
-- from go-multierror: operations with the laws that the client relies on.
use courier_go.Base.{
  String, Bool, false, not, ◌&&◌, ◌||◌, Option, none, List, map, foldl, ◌≡◌, str_eq, contains,
}
use courier_go.Errors.{Error, Multierror}

pub record Libs : Type 1 where
  pub multierror : Multierror
  -- generic.Set[string]
  pub StringSet : Type 0
  pub new_set : StringSet
  pub has : StringSet → String → Bool
  pub add : StringSet → String → StringSet
  pub delete : StringSet → List String → StringSet
  pub values : StringSet → List String
  pub has-new_set : (t : String) → has new_set t ≡ false
  pub has-add : (s : StringSet) (t u : String) → has (add s t) u ≡ (str_eq t u || has s u)
  pub has-delete :
      (s : StringSet) (ts : List String) (u : String)
      → has (delete s ts) u ≡ (not (contains ts u) && has s u)
  pub contains-values : (s : StringSet) (t : String) → contains (values s) t ≡ has s t
  -- slice.Reduce folds from the zero value. slice.MapConcurrent runs its function on every element
  -- and returns the results in the order of the elements.
  pub reduce : (Option Error → Option Error → Option Error) → List (Option Error) → Option Error
  pub map_concurrent : {A B : Type 0} → (A → B) → List A → List B
  pub reduce-foldl :
      (f : Option Error → Option Error → Option Error) (rs : List (Option Error))
      → reduce f rs ≡ foldl f none rs
  pub map_concurrent-map : {A B : Type 0} (f : A → B) (xs : List A) → map_concurrent f xs ≡ map f xs
