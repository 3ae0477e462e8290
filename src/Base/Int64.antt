-- ===== src/Base/Int64.antt =====
-- Go's int64: the integers from -2^63 to 2^63 - 1, with the wrap-around of `+` and binary `-`
-- written out through the 64-bit word.
use Prim.Native.Nat.{ℕ, ◌-◌, ◌%◌, ◌^◌}
use native.Mathlib.Omega.{arith}
use ledger_core.Base.Tests.{ltb, if◌then◌else◌}
use ledger_core.Base.Int.{ℤ, pos, negsuc, ◌≤ℤ◌}

abbrev pub int64_min : ℤ
int64_min = negsuc (2 ^ 63 - 1)

abbrev pub int64_max : ℤ
int64_max = pos (2 ^ 63 - 1)

-- What a variable of type int64 can hold.
pub record IsInt64 (a : ℤ) : Type 0 where
  pub low : int64_min ≤ℤ a
  pub high : a ≤ℤ int64_max

-- The 64-bit pattern of an integer, and the integer that a pattern stands for.
abbrev word64 : ℤ → ℕ
word64 (pos n) = n % 2 ^ 64
word64 (negsuc n) = 2 ^ 64 - 1 - n % 2 ^ 64

abbrev signed64 : ℕ → ℤ
signed64 w = if ltb w (2 ^ 63) then pos w else negsuc (2 ^ 64 - w - 1)

unfoldable pub wrap64 : ℤ → ℤ
wrap64 a = signed64 (word64 a)

pub wrap64-IsInt64 : (a : ℤ) → IsInt64 (wrap64 a)
unfolding wrap64
wrap64-IsInt64 a = ground arith
