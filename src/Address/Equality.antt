-- ===== src/Address/Equality.antt =====
-- areAddressesEqual of consul/resolver.go.
pub mod Counting
pub mod Collection
use courier_go.Base.{
  ℕ, zero, suc, ◌+◌, Bool, true, false, List, [], ◌∷◌, length, ◌==◌, ◌≡◌, ◌↔◌, refl, arith, eq_iff,
  ==_iff, if◌then◌else◌, ◌&&◌, not,
}
use courier_go.Address.{TcpAddress, address_eq}

-- map[courier.TCPAddress]int; a missing key reads 0
abbrev Counts : Type 0
Counts = List (TcpAddress × ℕ)

-- m[a]
pub count_in : TcpAddress → Counts → ℕ
count_in a [] = 0
count_in a ((x, n) ∷ m) = if address_eq x a then n else count_in a m

-- m[a]++
increment : TcpAddress → Counts → Counts
increment a [] = (a, 1) ∷ []
increment a ((x, n) ∷ m) = if address_eq x a then (x, n + 1) ∷ m else (x, n) ∷ increment a m

-- for _, addr := range l { m[addr]++ }
count_all : List TcpAddress → Counts → Counts
unfolding increment
count_all [] m = m
count_all (a ∷ l) m = count_all l (increment a m)

-- for addr, count := range mapA { if mapB[addr] != count { return false } }
counts_agree : Counts → Counts → Bool
unfolding count_in
counts_agree [] mb = true
counts_agree ((x, n) ∷ ma) mb = count_in x mb == n && counts_agree ma mb

-- areAddressesEqual
unfoldable pub are_addresses_equal : List TcpAddress → List TcpAddress → Bool
unfolding count_all counts_agree
are_addresses_equal a b =
    if not (length a == length b) then false else counts_agree (count_all a []) (count_all b [])
