-- ===== src/Base/Int.antt =====
-- Signed integers over the native numbers, under the library's names.
use Prim.Native.Nat.{ℕ, ◌+◌, ◌-◌, ◌%◌, ◌^◌}
use mathlib.Core.Bool.{Bool, true, false}
use webhost.Base.Tests.{leb, ◌==◌, if◌then◌else◌}

-- `negsuc n` is -(n + 1).
pub data ℤ : Type 0 where
  pos : ℕ → ℤ
  negsuc : ℕ → ℤ

-- a - b, as an integer.
abbrev pub sub_ℕ : ℕ → ℕ → ℤ
sub_ℕ a b = if leb b a then pos (a - b) else negsuc (b - a - 1)

-- An integer less a number.
abbrev pub sub_of_ℕ : ℤ → ℕ → ℤ
sub_of_ℕ (pos a) b = sub_ℕ a b
sub_of_ℕ (negsuc a) b = negsuc (a + b)

-- The unsigned word of 2 ^ 32 values that an int is converted to.
abbrev pub to_unsigned : ℤ → ℕ
to_unsigned (pos n) = n % 2 ^ 32
to_unsigned (negsuc n) = 2 ^ 32 - 1 - n % 2 ^ 32

-- The comparison of a number with an integer.
abbrev pub eq_ℤ : ℕ → ℤ → Bool
eq_ℤ a (pos b) = a == b
eq_ℤ a (negsuc b) = false

abbrev pub is_nonneg : ℤ → Bool
is_nonneg (pos n) = true
is_nonneg (negsuc n) = false
