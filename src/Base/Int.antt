-- ===== src/Base/Int.antt =====
-- Signed machine integers as ℤ, over the native numbers.
use Prim.Native.Nat.{ℕ, ◌-◌, ◌*◌, ◌^◌, ◌%◌, ◌<◌}
use mathlib.Core.Path.{◌≡◌}
use mathlib.Core.Bool.{Bool, false}
use native.Mathlib.Omega.{arith}
use qslary.Base.Tests.{ltb, if◌then◌else◌}

-- `negsuc n` is -(n + 1).
pub data ℤ : Type 0 where
  pos : ℕ → ℤ
  negsuc : ℕ → ℤ

abbrev pub pos_part : ℤ → ℕ
pos_part (pos n) = n
pos_part (negsuc n) = 0

abbrev pub u32_mod : ℕ
u32_mod = 2 ^ 32

abbrev pub u64_mod : ℕ
u64_mod = 2 ^ 64

-- The two's complement reading of a w-bit pattern `x < 2 * half`.
unfoldable pub of_pattern : ℕ → ℕ → ℤ
of_pattern half x = if ltb x half then pos x else negsuc (2 * half - 1 - x)

-- The conversion of a `size_t` to `int`.
unfoldable pub to_int32 : ℕ → ℤ
unfolding of_pattern
to_int32 n = of_pattern (2 ^ 31) (n % u32_mod)

pub to_int32_small : (n : ℕ) → n < 2 ^ 31 → to_int32 n ≡ pos n
unfolding to_int32
to_int32_small n h = ground arith

abbrev pub is_positive : ℤ → Bool
is_positive (pos n) = ltb 0 n
is_positive (negsuc n) = false
