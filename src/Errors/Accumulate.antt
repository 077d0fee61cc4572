-- ===== src/Errors/Accumulate.antt =====
-- Folding the results of several calls by accumulateErrors.
use courier_go.Base.{
  ◌≡◌, ap, sym, ◌∙◌, Option, none, some, List, [], ◌∷◌, ◌++◌, foldl, append-nil, append_assoc,
}
use courier_go.Errors.{
  Error, multi, to_list, from_list, as_multi, pieces, Multierror, accumulate_errors,
  to_list-from_list,
}

-- Every error that a list of results holds, in order, with multierrors taken apart.
abbrev pub collected : List (Option Error) → List Error
collected [] = []
collected (r ∷ rs) = pieces r ++ collected rs

-- The error that stands for a list of errors: nil for none of them.
abbrev pub combined : List Error → Option Error
combined [] = none
combined (e ∷ es) = some (multi (from_list (e ∷ es)))

module _ (lib : Multierror) where
  error_or_nil-combined : (es : List Error) → lib.error_or_nil es ≡ combined es
  error_or_nil-combined [] = lib.error_or_nil-nil
  error_or_nil-combined (e ∷ es) = lib.error_or_nil-cons e es

  append-one : (m : List Error) (r : Option Error) → lib.append m (r ∷ []) ≡ m ++ pieces r
  append-one m r = lib.append-cons m r [] ∙ lib.append-nil _

  -- One step, from an accumulator that an earlier step left.
  accumulate_errors-combined :
      (m : List Error) (r : Option Error)
      → accumulate_errors lib (combined m) r ≡ combined (m ++ pieces r)
  unfolding accumulate_errors as_multi
  accumulate_errors-combined [] r =
      ap lib.error_or_nil (lib.append-cons [] none (r ∷ []) ∙ append-one [] r)
      ∙ error_or_nil-combined (pieces r)
  accumulate_errors-combined (e ∷ es) r =
      ap lib.error_or_nil (
        append-one (to_list (from_list (e ∷ es))) r
        ∙ ap (λ m. m ++ pieces r) (to_list-from_list (e ∷ es)))
      ∙ error_or_nil-combined (e ∷ es ++ pieces r)

  -- The fold over all results holds exactly the errors of the results, in order.
  pub foldl-accumulate_errors :
      (m : List Error) (rs : List (Option Error))
      → foldl (accumulate_errors lib) (combined m) rs ≡ combined (m ++ collected rs)
  foldl-accumulate_errors m [] = ap combined (sym (append-nil m))
  foldl-accumulate_errors m (r ∷ rs) =
      ap (λ a. foldl (accumulate_errors lib) a rs) (accumulate_errors-combined m r)
      ∙ foldl-accumulate_errors (m ++ pieces r) rs
      ∙ ap combined (append_assoc m (pieces r) (collected rs))
