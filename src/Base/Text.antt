-- ===== src/Base/Text.antt =====
-- fmt.Sprintf's %d and the concatenations of the code.
pub mod Decimal
pub mod HostPort
use Prim.Native.Nat.{ℕ, zero, suc, ◌/◌, ◌%◌}
use Prim.Native.String
use Prim.Native.String.{String}
use courier_go.Base.Tests.{ltb, ◌==◌, if◌then◌else◌}

-- s + t
abbrev pub concat : String → String → String
concat s t = String.◌++◌ s t

-- The digit of a number below 10.
unfoldable pub digit : ℕ → String
digit n =
    if n == 0
    then "0"
    else if n == 1
    then "1"
    else if n == 2
    then "2"
    else if n == 3
    then "3"
    else if n == 4
    then "4"
    else if n == 5
    then "5"
    else if n == 6
    then "6"
    else if n == 7
    then "7"
    else if n == 8
    then "8"
    else "9"

unfoldable pub decimal_from : ℕ → ℕ → String → String
decimal_from zero n acc = acc
decimal_from (suc f) n acc =
    let rest = decimal_from f (n / 10) (concat (digit (n % 10)) acc) in
    if ltb n 10 then concat (digit n) acc else rest

-- %d of a natural number; n + 1 rounds are enough for the digits of n.
unfoldable pub decimal : ℕ → String
unfolding decimal_from digit
decimal n = decimal_from (suc n) n ""
