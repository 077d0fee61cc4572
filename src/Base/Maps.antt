-- ===== src/Base/Maps.antt =====
-- Go maps with string keys as association lists; the order of the list is the iteration order.
use Prim.Native.String.{String}
use mathlib.Core.Path.{◌≡◌, refl}
use mathlib.Core.Bool.{Bool, false, not, ◌&&◌, ◌||◌}
use mathlib.Core.Option.{Option, none, some}
use mathlib.Core.List.{List, [], ◌∷◌}
use native.Mathlib.Omega.{arith}
use text.Mathlib.Text.{◌==◌ as str_eq}
use text.Mathlib.TextEquality.{eq_iff}
use courier_go.Base.Tests.{if◌then◌else◌}

abbrev pub contains : List String → String → Bool
contains [] k = false
contains (j ∷ js) k = str_eq j k || contains js k

module _ {ℓ} {V : Type ℓ} where
  -- m[k]
  abbrev pub lookup : String → List (String × V) → Option V
  lookup k [] = none
  lookup k ((j, v) ∷ m) = if str_eq j k then some v else lookup k m

  -- m[k] = v
  abbrev pub insert : String → V → List (String × V) → List (String × V)
  insert k v [] = (k, v) ∷ []
  insert k v ((j, w) ∷ m) = if str_eq j k then (k, v) ∷ m else (j, w) ∷ insert k v m

  -- delete(m, k)
  abbrev pub delete : String → List (String × V) → List (String × V)
  delete k [] = []
  delete k ((j, w) ∷ m) = let rest = delete k m in if str_eq j k then rest else (j, w) ∷ rest

  abbrev pub keys : List (String × V) → List String
  keys [] = []
  keys ((k, v) ∷ m) = k ∷ keys m

  -- A Go map has each key once.
  abbrev pub HasUniqueKeys : List (String × V) → Type 0
  HasUniqueKeys [] = Unit
  HasUniqueKeys ((k, v) ∷ m) = (contains (keys m) k ≡ false) × HasUniqueKeys m

  -- A key that a map lacks has no value.
  pub lookup_absent :
      (k : String) (m : List (String × V)) → contains (keys m) k ≡ false → lookup k m ≡ none
  lookup_absent k [] h = refl
  lookup_absent k ((j, v) ∷ m) h = ground (arith, lookup_absent k m)

  pub lookup-insert :
      (k j : String) (v : V) (m : List (String × V))
      → lookup j (insert k v m) ≡ (if str_eq k j then some v else lookup j m)
  lookup-insert k j v [] = refl
  lookup-insert k j v ((i, w) ∷ m) =
      ground (arith, eq_iff k j, eq_iff i k, eq_iff i j, lookup-insert k j v m)

  pub lookup-delete :
      (k j : String) (m : List (String × V))
      → lookup j (delete k m) ≡ (if str_eq k j then none else lookup j m)
  lookup-delete k j [] = ground arith
  lookup-delete k j ((i, w) ∷ m) =
      ground (arith, eq_iff k j, eq_iff i k, eq_iff i j, lookup-delete k j m)

  keys-insert :
      (k j : String) (v : V) (m : List (String × V))
      → contains (keys (insert k v m)) j ≡ (str_eq k j || contains (keys m) j)
  keys-insert k j v [] = refl
  keys-insert k j v ((i, w) ∷ m) =
      ground (arith, eq_iff k j, eq_iff i k, eq_iff i j, keys-insert k j v m)

  keys-delete :
      (k j : String) (m : List (String × V))
      → contains (keys (delete k m)) j ≡ (not (str_eq k j) && contains (keys m) j)
  keys-delete k j [] = ground arith
  keys-delete k j ((i, w) ∷ m) =
      ground (arith, eq_iff k j, eq_iff i k, eq_iff i j, keys-delete k j m)

  pub insert-HasUniqueKeys :
      (k : String) (v : V) (m : List (String × V)) → HasUniqueKeys m → HasUniqueKeys (insert k v m)
  insert-HasUniqueKeys k v [] h = (refl, tt)
  insert-HasUniqueKeys k v ((i, w) ∷ m) h =
      ground (arith, eq_iff i k, eq_iff k i, keys-insert k i v m, insert-HasUniqueKeys k v m h.1)

  pub delete-HasUniqueKeys :
      (k : String) (m : List (String × V)) → HasUniqueKeys m → HasUniqueKeys (delete k m)
  delete-HasUniqueKeys k [] h = tt
  delete-HasUniqueKeys k ((i, w) ∷ m) h =
      ground (arith, eq_iff k i, keys-delete k i m, delete-HasUniqueKeys k m h.1)
