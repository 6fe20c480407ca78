-- ===== src/Base/Int.antt =====
-- Go's signed integers as mathematical integers, and the 64-bit pattern that stands for one.
use finflow.Base.Tests.{leb, ◌==◌, if◌then◌else◌}
use Prim.Native.Nat.{ℕ, suc, ◌+◌, ◌-◌, ◌^◌, ◌%◌}
use mathlib.Core.Bool.{Bool, true}

-- `negsuc n` is -(n + 1).
pub data ℤ : Type 0 where
  pos : ℕ → ℤ
  negsuc : ℕ → ℤ

abbrev pub pos_part : ℤ → ℕ
pos_part (pos n) = n
pos_part (negsuc n) = 0

abbrev pub neg_part : ℤ → ℕ
neg_part (pos n) = 0
neg_part (negsuc n) = suc n

abbrev pub sub_ℕ : ℕ → ℕ → ℤ
sub_ℕ a b = if leb b a then pos (a - b) else negsuc (b - a - 1)

infixl 65 ◌+ℤ◌ ◌-ℤ◌
unfoldable pub ◌+ℤ◌ : ℤ → ℤ → ℤ
a +ℤ b = sub_ℕ (pos_part a + pos_part b) (neg_part a + neg_part b)

unfoldable pub ◌-ℤ◌ : ℤ → ℤ → ℤ
a -ℤ b = sub_ℕ (pos_part a + neg_part b) (neg_part a + pos_part b)

-- `x <= 0`
abbrev pub is_non_positive : ℤ → Bool
is_non_positive (pos n) = n == 0
is_non_positive (negsuc n) = true

abbrev pub int64_mod : ℕ
int64_mod = 2 ^ 64

-- `int64` addition and subtraction on bit patterns: they wrap around.
unfoldable pub add_int64 : ℕ → ℕ → ℕ
add_int64 a b = (a + b) % int64_mod

unfoldable pub sub_int64 : ℕ → ℕ → ℕ
sub_int64 a b = (a + (int64_mod - b % int64_mod)) % int64_mod
