-- ===== src/Base/Int.antt =====
-- Signed integers, for Go's int and time.Duration: `negsuc n` is -(n + 1).
use Prim.Native.Nat.{ℕ, ◌+◌, ◌*◌, ◌-◌, ◌%◌, ◌^◌}
use mathlib.Core.Bool.{Bool, true, false}
use courier_go.Base.Tests.{ltb, if◌then◌else◌}

pub data ℤ : Type 0 where
  pos : ℕ → ℤ
  negsuc : ℕ → ℤ

-- a < b
abbrev pub lt_int : ℤ → ℤ → Bool
lt_int (pos a) (pos b) = ltb a b
lt_int (pos a) (negsuc b) = false
lt_int (negsuc a) (pos b) = true
lt_int (negsuc a) (negsuc b) = ltb b a

-- The two's complement int64 of a 64-bit pattern.
abbrev pub int64 : ℕ → ℤ
int64 n = if ltb n (2 ^ 63) then pos n else negsuc (2 ^ 64 - 1 - n)

-- a * k on int64, at the values that occur.
abbrev pub twice64 : ℤ → ℤ
twice64 (pos a) = int64 ((a * 2) % 2 ^ 64)
twice64 (negsuc a) = int64 ((2 ^ 65 - 2 * (a + 1)) % 2 ^ 64)
