-- ===== src/Base/Numbered.antt =====
-- Maps whose keys end in "-0", "-1" and so on, as the pool and multipleClients number them.
use Prim.Native.Nat.{ℕ, ◌+◌, ◌<◌}
use Prim.Native.String.{String}
use mathlib.Core.Path.{◌≡◌, refl}
use mathlib.Core.Bool.{false}
use mathlib.Core.Option.{some}
use mathlib.Core.List.{List, [], ◌∷◌, ◌++◌}
use native.Mathlib.Omega.{arith}
use text.Mathlib.Text.{◌==◌ as str_eq}
use text.Mathlib.TextEquality.{eq_iff}
use courier_go.Base.Maps.{contains, insert, keys}
use courier_go.Base.Text.Decimal.{index_of_key}

other_key :
    (i n : ℕ) (j k : String)
    → index_of_key j ≡ some n
    → n < i
    → index_of_key k ≡ some i
    → str_eq j k ≡ false
other_key i n j k below lt last = ground (arith, eq_iff j k, below, last)

module _ {ℓ} {V : Type ℓ} where
  -- The keys end in numbers below one.
  abbrev pub KeysBelow : ℕ → List (String × V) → Type 0
  KeysBelow i [] = Unit
  KeysBelow i ((k, v) ∷ m) = ((n : ℕ) × (index_of_key k ≡ some n) × (n < i)) × KeysBelow i m

  fresh_key :
      (i : ℕ) (k : String) (m : List (String × V))
      → KeysBelow i m
      → index_of_key k ≡ some i
      → contains (keys m) k ≡ false
  fresh_key i k [] h last = refl
  fresh_key i k ((j, v) ∷ m) ((n, same, lt), below) last =
      ground (arith, other_key i n j k same lt last, fresh_key i k m below last)

  insert_absent :
      (k : String) (v : V) (m : List (String × V))
      → contains (keys m) k ≡ false
      → insert k v m ≡ m ++ (k, v) ∷ []
  insert_absent k v [] h = refl
  insert_absent k v ((j, w) ∷ m) h = ground (arith, insert_absent k v m)

  KeysBelow-append :
      (i : ℕ) (k : String) (v : V) (m : List (String × V))
      → KeysBelow i m
      → index_of_key k ≡ some i
      → KeysBelow (i + 1) (m ++ (k, v) ∷ [])
  KeysBelow-append i k v [] h last = ((i, last, omega arith), tt)
  KeysBelow-append i k v ((j, w) ∷ m) ((n, same, lt), below) last =
      ((n, same, omega arith), KeysBelow-append i k v m below last)

  -- An insertion at the next number appends.
  pub insert-numbered :
      (i : ℕ) (k : String) (v : V) (m : List (String × V))
      → KeysBelow i m
      → index_of_key k ≡ some i
      → (insert k v m ≡ m ++ (k, v) ∷ []) × KeysBelow (i + 1) (insert k v m)
  insert-numbered i k v m below last =
      let same = insert_absent k v m (fresh_key i k m below last) in
      (same, rw same (KeysBelow-append i k v m below last))
