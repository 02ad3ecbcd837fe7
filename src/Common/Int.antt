-- ===== src/Common/Int.antt =====
-- Go's signed integers as the integers that they stand for, and the conversion to `int32`.
use Prim.Native.Nat.{ℕ, ◌-◌, ◌%◌, ◌^◌}
use k8s_lab.Common.Tests.{ltb, if◌then◌else◌}

-- A signed integer: `pos n` is n and `negsuc n` is -(n + 1).
pub data ℤ : Type 0 where
  pos negsuc : ℕ → ℤ

-- The int32 whose bit pattern is that of `m`, a number below 2³².
signed : ℕ → ℤ
signed m = if ltb m (2 ^ 31) then pos m else negsuc (2 ^ 32 - 1 - m)

-- int32(n)
unfoldable pub to_int32 : ℤ → ℤ
unfolding signed
to_int32 (pos n) = signed (n % 2 ^ 32)
to_int32 (negsuc n) = signed (2 ^ 32 - 1 - n % 2 ^ 32)
