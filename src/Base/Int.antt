-- ===== src/Base/Int.antt =====
-- Go's int, as an integer without bounds: the program only compares the ones it reads.
use Prim.Native.Nat.{ℕ, zero, suc, ◌-◌, ◌%◌}
use mathlib.Core.Bool.{Bool, true, false}
use mcp_memory_core.Base.Tests.{ltb, if◌then◌else◌}

-- `negsuc n` is -(n + 1).
pub data ℤ : Type 0 where
  pos negsuc : ℕ → ℤ

-- -n
abbrev pub neg : ℕ → ℤ
neg zero = pos zero
neg (suc n) = negsuc n

abbrev pub is_zero : ℤ → Bool
is_zero (pos zero) = true
is_zero (pos (suc n)) = false
is_zero (negsuc n) = false

abbrev pub is_negative : ℤ → Bool
is_negative (pos n) = false
is_negative (negsuc n) = true

-- z > n
abbrev pub is_above : ℕ → ℤ → Bool
is_above n (pos m) = ltb n m
is_above n (negsuc m) = false

-- An int64 by its two's complement.
abbrev pub int64 : ℕ → ℕ
int64 n = n % 18446744073709551616

-- The integer that a two's complement of 64 bits stands for, and the other way.
abbrev pub signed : ℕ → ℤ
signed n = if ltb n 9223372036854775808 then pos n else negsuc (18446744073709551615 - n)

abbrev pub unsigned : ℤ → ℕ
unsigned (pos n) = int64 n
unsigned (negsuc n) = 18446744073709551615 - int64 n

-- a < b
abbrev pub is_less : ℤ → ℤ → Bool
is_less (pos a) (pos b) = ltb a b
is_less (pos a) (negsuc b) = false
is_less (negsuc a) (pos b) = true
is_less (negsuc a) (negsuc b) = ltb b a
