-- ===== src/Prelude/Int.antt =====
-- Signed integers over the native numbers, and the integer that a 64-bit word stands for.
use Prim.Native.Nat.{ℕ, zero, suc, ◌+◌, ◌-◌, ◌/◌, ◌^◌}
use mathlib.Core.Bool.{Bool, false}
use radrpc.Prelude.Tests.{ltb, if◌then◌else◌}

-- `negsuc n` is -(n + 1).
pub data ℤ : Type 0 where
  pos : ℕ → ℤ
  negsuc : ℕ → ℤ

abbrev pub neg : ℕ → ℤ
neg zero = pos 0
neg (suc n) = negsuc n

-- The value of the two's complement word `w`, for `w < 2 ^ 64`.
abbrev pub signed64 : ℕ → ℤ
signed64 w = if ltb w (2 ^ 63) then pos w else negsuc (2 ^ 64 - w - 1)

-- Division by a positive number, which truncates towards 0.
abbrev pub div_trunc : ℤ → ℕ → ℤ
div_trunc (pos n) d = pos (n / d)
div_trunc (negsuc n) d = neg ((n + 1) / d)

-- `n < z`, for a number that is not negative.
abbrev pub nat_ltb : ℕ → ℤ → Bool
nat_ltb n (pos m) = ltb n m
nat_ltb n (negsuc m) = false
