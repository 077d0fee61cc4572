-- ===== src/Address/Equality/Collection.antt =====
-- The addresses of a service whatever their order: the view that areAddressesEqual compares.
use mathlib.Core.Quot
use mathlib.Core.Quot.{Quot}
use native.Mathlib.Nat.{ℕ_set}
use courier_go.Base.{ℕ, true, false, List, ◌≡◌, ◌≢◌, ◌↔◌, ap}
use courier_go.Address.{TcpAddress}
use courier_go.Address.Equality.{are_addresses_equal}
use courier_go.Address.Equality.Counting.{count, SameAddresses, are_addresses_equal_iff}

-- Lists of addresses, up to their order.
abbrev pub Collection : Type 0
Collection = Quot SameAddresses

abbrev pub collect : List TcpAddress → Collection
collect l = Quot.mk l

occurrences : TcpAddress → Collection → ℕ
occurrences x = Quot.lift ℕ_set (count x) (λ a b same. same x)

same_of_collect : (a b : List TcpAddress) → collect a ≡ collect b → SameAddresses a b
unfolding occurrences
same_of_collect a b e x = ap (occurrences x) e

-- areAddressesEqual decides equality in the quotient.
pub are_addresses_equal_iff_collect :
    (a b : List TcpAddress) → (are_addresses_equal a b ≡ true) ↔ (collect a ≡ collect b)
are_addresses_equal_iff_collect a b = (
  λ h. Quot.sound ((are_addresses_equal_iff a b).0 h),
  λ e. (are_addresses_equal_iff a b).1 (same_of_collect a b e),
)

pub collect-ne : (a b : List TcpAddress) → are_addresses_equal a b ≡ false → collect a ≢ collect b
collect-ne a b h e = cc ((are_addresses_equal_iff_collect a b).1 e)
