-- ===== src/Common/Int.antt =====
-- C's signed integers, and their conversion to `unsigned long`.
use Prim.Native.Nat.{ℕ, zero, suc, ◌-◌, ◌%◌, ◌^◌}
use mathlib.Core.Bool.{Bool, true, false}

-- `negsuc n` is -(n + 1).
pub data ℤ : Type 0 where
  pos : ℕ → ℤ
  negsuc : ℕ → ℤ

-- x < 0
abbrev pub is_neg : ℤ → Bool
is_neg (pos n) = false
is_neg (negsuc n) = true

-- x != 0
abbrev pub is_nonzero : ℤ → Bool
is_nonzero (pos n) = elim n [ zero ↦ false | suc _ ↦ true ]
is_nonzero (negsuc n) = true

-- x > 0
abbrev pub is_positive : ℤ → Bool
is_positive (pos n) = elim n [ zero ↦ false | suc _ ↦ true ]
is_positive (negsuc n) = false

-- The value of a C test used as an int.
abbrev pub of_bool : Bool → ℤ
of_bool true = pos 1
of_bool false = pos 0

abbrev pub minus_one : ℤ
minus_one = negsuc 0

-- The conversion of an `int` or `long` to 64 unsigned bits.
abbrev pub u64 : ℤ → ℕ
u64 (pos n) = n % 2 ^ 64
u64 (negsuc n) = 2 ^ 64 - 1 - n % 2 ^ 64

-- To `unsigned int`.
abbrev pub u32 : ℤ → ℕ
u32 z = u64 z % 2 ^ 32
