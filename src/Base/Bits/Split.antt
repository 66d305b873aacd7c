-- ===== src/Base/Bits/Split.antt =====
-- The operations on a word in two parts, at every width of the lower part.
use Prim.Native.Nat.{
  ℕ, zero, suc, ◌+◌, ◌-◌, ◌*◌, ◌/◌, ◌%◌, ◌^◌, ◌<◌, min, max, bit_and, bit_or, bit_and-bitwise,
  bit_or-bitwise,
}
use mathlib.Core.Path.{◌≡◌, refl, ap}
use native.Mathlib.Nat.{pow-suc, one-le-pow}
use native.Mathlib.Omega.{arith}
use liblink.Base.Bits.Step.{bit_or_step, bit_and_step, bit_and-zero, bit_or-zero}

part_doubles : (width part : ℕ) → 2 * (part * 2 ^ width) ≡ part * 2 ^ suc width
part_doubles width part = omega (arith, ap (λ (w : ℕ). part * w) (pow-suc 2 width))

-- One more digit below: the parts of a word, halved.
half_of_parts : (k q r : ℕ) → (q * 2 ^ suc k + r) / 2 ≡ q * 2 ^ k + r / 2
half_of_parts k q r = omega (arith, part_doubles k q)

digit_of_parts : (k q r : ℕ) → (q * 2 ^ suc k + r) % 2 ≡ r % 2
digit_of_parts k q r = omega (arith, part_doubles k q)

half-lt : (k r : ℕ) → r < 2 ^ suc k → r / 2 < 2 ^ k
half-lt k r h = omega (arith, pow-suc 2 k)

module _ (op : ℕ → ℕ → ℕ) (zeros : op 0 0 ≡ 0) (digit : ℕ → ℕ → ℕ)
    (op_step : (a b : ℕ) → op a b ≡ op (a / 2) (b / 2) * 2 + digit (a % 2) (b % 2)) where
  op_parts :
      (k a b c d : ℕ)
      → b < 2 ^ k
      → d < 2 ^ k
      → op (a * 2 ^ k + b) (c * 2 ^ k + d) ≡ op a c * 2 ^ k + op b d
  op_parts zero a b c d hb hd =
      let eb : b ≡ 0 = omega arith in
      let ed : d ≡ 0 = omega arith in rw (eb, ed, zeros) (ground arith)
  op_parts (suc k) a b c d hb hd = ground (
    arith,
    op_step (a * 2 ^ suc k + b) (c * 2 ^ suc k + d),
    op_step b d,
    half_of_parts k a b,
    half_of_parts k c d,
    digit_of_parts k a b,
    digit_of_parts k c d,
    part_doubles k (op a c),
    op_parts k a (b / 2) c (d / 2) (half-lt k b hb) (half-lt k d hd),
  )

pub bit_and_parts :
    (k a b c d : ℕ)
    → b < 2 ^ k
    → d < 2 ^ k
    → bit_and (a * 2 ^ k + b) (c * 2 ^ k + d) ≡ bit_and a c * 2 ^ k + bit_and b d
bit_and_parts = op_parts bit_and refl min bit_and_step

pub bit_or_parts :
    (k a b c d : ℕ)
    → b < 2 ^ k
    → d < 2 ^ k
    → bit_or (a * 2 ^ k + b) (c * 2 ^ k + d) ≡ bit_or a c * 2 ^ k + bit_or b d
bit_or_parts = op_parts bit_or refl max bit_or_step

pub zero-bit_and : (a : ℕ) → bit_and 0 a ≡ 0
zero-bit_and a = bit_and-bitwise 0 a

pub zero-bit_or : (a : ℕ) → bit_or 0 a ≡ a
zero-bit_or a = bit_or-bitwise 0 a

ones_keep : (width x : ℕ) → x < 2 ^ width → bit_and x (2 ^ width - 1) ≡ x
ones_keep zero x small = omega (arith, bit_and-zero x)
ones_keep (suc width) x small = ground (
  arith,
  one-le-pow width 2,
  pow-suc 2 width,
  ones_keep width (x / 2) (half-lt width x small),
  bit_and_step x (2 ^ suc width - 1),
)

-- The lowest `width` bits are cut out by as many ones.
pub bit_and_mask : (width x : ℕ) → bit_and x (2 ^ width - 1) ≡ x % 2 ^ width
bit_and_mask width x =
    let above = x / 2 ^ width in
    let below = x % 2 ^ width in
    ground (
      arith,
      bit_and_parts width above below 0 (2 ^ width - 1),
      ones_keep width below,
      bit_and-zero above,
      one-le-pow width 2,
    )

-- Two fields that do not meet are merged by a sum.
pub bit_or_fields :
    (width upper lower : ℕ)
    → lower < 2 ^ width
    → bit_or (upper * 2 ^ width) lower ≡ upper * 2 ^ width + lower
bit_or_fields width upper lower small = ground (
  arith,
  bit_or_parts width upper 0 0 lower,
  zero-bit_or lower,
  bit_or-zero upper,
  one-le-pow width 2,
)

-- A mask that is nowhere below bit `k`.
pub bit_and_high : (k a m : ℕ) → bit_and a (m * 2 ^ k) ≡ bit_and (a / 2 ^ k) m * 2 ^ k
bit_and_high k a m =
    ground
      (arith, one-le-pow k 2, bit_and_parts k (a / 2 ^ k) (a % 2 ^ k) m 0, bit_and-zero (a % 2 ^ k))

-- A mask in two parts.
pub bit_and_split :
    (k a m n : ℕ)
    → n < 2 ^ k
    → bit_and a (m * 2 ^ k + n) ≡ bit_and (a / 2 ^ k) m * 2 ^ k + bit_and (a % 2 ^ k) n
bit_and_split k a m n h =
    ground (arith, one-le-pow k 2, bit_and_parts k (a / 2 ^ k) (a % 2 ^ k) m n)

-- A mask of `n` bits above bit `k`.
pub bit_and_field : (n k a : ℕ) → bit_and a ((2 ^ n - 1) * 2 ^ k) ≡ a / 2 ^ k % 2 ^ n * 2 ^ k
bit_and_field n k a = rw (bit_and_high, bit_and_mask)
