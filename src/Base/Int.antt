-- ===== src/Base/Int.antt =====
-- Signed numbers, for the program's `int`: `negsuc n` is -(n + 1).
use Prim.Native.Nat.{ℕ, ◌+◌, ◌-◌, ◌%◌, ◌^◌}
use distributed_filesystem.Base.Tests.{ltb, if◌then◌else◌}

pub data ℤ : Type 0 where
  pos : ℕ → ℤ
  negsuc : ℕ → ℤ

-- The conversion of a 64-bit value to a 32-bit `int`, which keeps the low bits.
unfoldable pub to_int32 : ℕ → ℤ
to_int32 n = let m = n % 2 ^ 32 in if ltb m (2 ^ 31) then pos m else negsuc (2 ^ 32 - m - 1)

-- The conversion of an `int` to a 64-bit unsigned type.
unfoldable pub to_uintmax : ℤ → ℕ
to_uintmax (pos n) = n
to_uintmax (negsuc n) = 2 ^ 64 - (n + 1)
