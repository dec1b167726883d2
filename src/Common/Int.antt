-- ===== src/Common/Int.antt =====
-- The machine integers of the program as integers over the native numbers, with the casts between
-- them. `negsuc n` is -(n + 1).
use Prim.Native.Nat.{ℕ, suc, ◌+◌, ◌-◌, ◌%◌, ◌^◌, ◌≤◌}
use mathlib.Core.Path.{◌≡◌}
use mathlib.Core.Bool.{Bool, ◌&&◌}
use native.Mathlib.Omega.{arith}
use skialith.Common.Tests.{ltb, leb, if◌then◌else◌}

pub data ℤ : Type 0 where
  pos : ℕ → ℤ
  negsuc : ℕ → ℤ

abbrev pub pos_part : ℤ → ℕ
pos_part (pos n) = n
pos_part (negsuc n) = 0

abbrev pub neg_part : ℤ → ℕ
neg_part (pos n) = 0
neg_part (negsuc n) = suc n

infix 50 ◌≤ℤ◌
abbrev pub ◌≤ℤ◌ : ℤ → ℤ → Type 0
a ≤ℤ b = pos_part a + neg_part b ≤ pos_part b + neg_part a

abbrev pub ltb_ℤ : ℤ → ℤ → Bool
ltb_ℤ a b = ltb (pos_part a + neg_part b) (pos_part b + neg_part a)

abbrev pub eqb_ℤ : ℤ → ℤ → Bool
eqb_ℤ a b =
    leb (pos_part a + neg_part b) (pos_part b + neg_part a)
    && leb (pos_part b + neg_part a) (pos_part a + neg_part b)

-- The integer that a pattern of 32 or of 64 bits stands for in two's complement.
abbrev signed32 : ℕ → ℤ
signed32 w = if ltb w (2 ^ 31) then pos w else negsuc (2 ^ 32 - w - 1)

abbrev signed64 : ℕ → ℤ
signed64 w = if ltb w (2 ^ 63) then pos w else negsuc (2 ^ 64 - w - 1)

-- `x as i32` of an i64: the low 32 bits.
unfoldable pub as_i32 : ℤ → ℤ
as_i32 (pos n) = signed32 (n % 2 ^ 32)
as_i32 (negsuc n) = signed32 (2 ^ 32 - 1 - n % 2 ^ 32)

-- `x as i64` of a u64.
unfoldable pub as_i64 : ℕ → ℤ
as_i64 n = signed64 (n % 2 ^ 64)

abbrev pub FitsI32 : ℤ → Type 0
FitsI32 x = (negsuc (2 ^ 31 - 1) ≤ℤ x) × (x ≤ℤ pos (2 ^ 31 - 1))

abbrev pub FitsI64 : ℤ → Type 0
FitsI64 x = (negsuc (2 ^ 63 - 1) ≤ℤ x) × (x ≤ℤ pos (2 ^ 63 - 1))

pub FitsI32-FitsI64 : (x : ℤ) → FitsI32 x → FitsI64 x
FitsI32-FitsI64 (pos n) h = ground arith
FitsI32-FitsI64 (negsuc n) h = ground arith

pub as_i32_of_fits : (x : ℤ) → FitsI32 x → as_i32 x ≡ x
unfolding as_i32
as_i32_of_fits (pos n) h = ground arith
as_i32_of_fits (negsuc n) h = ground arith

pub as_i32-FitsI32 : (x : ℤ) → FitsI32 (as_i32 x)
unfolding as_i32
as_i32-FitsI32 (pos n) = ground arith
as_i32-FitsI32 (negsuc n) = ground arith
