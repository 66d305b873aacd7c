-- ===== src/Base/Words.antt =====
-- Machine words as native numbers: a w-bit value is its bit pattern, below 2 ^ w, a cast or a wrap
-- is `% 2 ^ w`, and `signed w` is the integer that a pattern stands for in two's complement.
use Prim.Native.Nat.{ℕ, suc, ◌+◌, ◌-◌, ◌*◌, ◌/◌, ◌%◌, ◌^◌}
use mathlib.Core.Bool.{Bool}
use liblink.Base.Tests.{ltb, leb, if◌then◌else◌}

abbrev pub u16 : ℕ → ℕ
u16 n = n % 2 ^ 16

abbrev pub u32 : ℕ → ℕ
u32 n = n % 2 ^ 32

abbrev pub u64 : ℕ → ℕ
u64 n = n % 2 ^ 64

infixl 66 ◌<<<◌ ◌>>>◌
abbrev pub ◌<<<◌ : ℕ → ℕ → ℕ
x <<< k = x * 2 ^ k

-- The shift of an unsigned value.
abbrev pub ◌>>>◌ : ℕ → ℕ → ℕ
x >>> k = x / 2 ^ k

-- `negsuc n` is -(n + 1).
pub data ℤ : Type 0 where
  pos : ℕ → ℤ
  negsuc : ℕ → ℤ

abbrev pub pos_part : ℤ → ℕ
pos_part (pos n) = n
pos_part (negsuc n) = 0

abbrev pub neg_part : ℤ → ℕ
neg_part (pos n) = 0
neg_part (negsuc n) = suc n

-- a - b, as an integer.
abbrev pub sub_ℕ : ℕ → ℕ → ℤ
sub_ℕ a b = if leb b a then pos (a - b) else negsuc (b - a - 1)

abbrev pub leb_ℤ : ℤ → ℤ → Bool
leb_ℤ a b = leb (pos_part a + neg_part b) (pos_part b + neg_part a)

abbrev pub ltb_ℤ : ℤ → ℤ → Bool
ltb_ℤ a b = ltb (pos_part a + neg_part b) (pos_part b + neg_part a)

-- The integer that the pattern `x` of a `w`-bit signed type stands for.
abbrev pub signed : ℕ → ℕ → ℤ
signed w x = if ltb x (2 ^ (w - 1)) then pos x else negsuc (2 ^ w - x - 1)

-- `x >> k` of a `w`-bit signed value: the shift rounds down (`~(~x >> k)` if `x` is negative).
abbrev pub sar : ℕ → ℕ → ℕ → ℕ
sar w x k = if ltb x (2 ^ (w - 1)) then x >>> k else 2 ^ w - 1 - ((2 ^ w - 1 - x) >>> k)
