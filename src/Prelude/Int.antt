-- ===== src/Prelude/Int.antt =====
-- Signed integers: `negsuc n` is -(n + 1). An int32 that is counted up wraps at its largest value.
use Prim.Native.Nat.{ℕ, zero, suc, ◌+◌, ◌-◌, ◌%◌, ◌^◌}
use mathlib.Core.Bool.{Bool, true, false}
use agents_management.Prelude.Tests.{ltb, leb, ◌==◌, if◌then◌else◌}

pub data ℤ : Type 0 where
  pos : ℕ → ℤ
  negsuc : ℕ → ℤ

infix 50 ◌<=◌
infix 60 ◌+pos◌
-- a <= b
abbrev pub ◌<=◌ : ℤ → ℤ → Bool
pos a <= pos b = leb a b
pos a <= negsuc b = false
negsuc a <= pos b = true
negsuc a <= negsuc b = leb b a

abbrev pub max_int32 : ℕ
max_int32 = 2147483647

-- `n + 1` on an int32
unfoldable pub int32_suc : ℤ → ℤ
int32_suc (pos n) = if n == max_int32 then negsuc max_int32 else pos (n + 1)
int32_suc (negsuc zero) = pos 0
int32_suc (negsuc (suc n)) = negsuc n

-- `int32(z)` on an int
unfoldable pub to_int32 : ℤ → ℤ
to_int32 (pos n) = let m = n % 2 ^ 32 in if ltb m (2 ^ 31) then pos m else negsuc (2 ^ 32 - 1 - m)
to_int32 (negsuc n) =
    let m = 2 ^ 32 - 1 - n % 2 ^ 32 in if ltb m (2 ^ 31) then pos m else negsuc (2 ^ 32 - 1 - m)

-- The int64 with the bit pattern `n`.
unfoldable pub int64 : ℕ → ℤ
int64 n = let m = n % 2 ^ 64 in if ltb m (2 ^ 63) then pos m else negsuc (2 ^ 64 - 1 - m)

-- `n + z`
abbrev pub ◌+pos◌ : ℤ → ℕ → ℤ
pos a +pos n = pos (a + n)
negsuc a +pos n = if ltb a n then pos (n - (a + 1)) else negsuc (a - n)
