-- ===== src/Reloc/Util/Range.antt =====
-- The range tests and the sign extension, on bit patterns.
use liblink.Base.{ℕ, ◌+◌, ◌-◌, ◌^◌, ◌≤◌, ◌<◌, ◌≡◌, ◌⊎◌, ◌↔◌, true, arith, ltb, if◌then◌else◌}
use native.Mathlib.Nat.{pow-le-pow_right, one-le-pow}
use liblink.Reloc.Util.{sign_extend32, is_int32, is_int64}

-- `is_int32` holds of a 32-bit pattern and 1 to 31 bits exactly if the pattern is below half the
-- range of the bits, or at most that half below 2 ^ 32.
pub is_int32_iff :
    (bits x : ℕ)
    → 1 ≤ bits
    → bits ≤ 31
    → x < 2 ^ 32
    → (is_int32 bits x ≡ true) ↔ ((x < 2 ^ (bits - 1)) ⊎ (2 ^ 32 ≤ x + 2 ^ (bits - 1)))
unfolding is_int32
is_int32_iff bits x lo hi small = ground (arith, one-le-pow (bits - 1) 2, bound)
  where
    bound : 2 ^ (bits - 1) ≤ 2 ^ 30
    bound = pow-le-pow_right {n = 2} (omega arith) {i = bits - 1} {j = 30} (omega arith)

-- `is_int64` holds of a 64-bit pattern and 1 to 63 bits exactly if the pattern is below half the
-- range of the bits, or at most that half below 2 ^ 64.
pub is_int64_iff :
    (bits x : ℕ)
    → 1 ≤ bits
    → bits ≤ 63
    → x < 2 ^ 64
    → (is_int64 bits x ≡ true) ↔ ((x < 2 ^ (bits - 1)) ⊎ (2 ^ 64 ≤ x + 2 ^ (bits - 1)))
unfolding is_int64
is_int64_iff bits x lo hi small = ground (arith, one-le-pow (bits - 1) 2, bound)
  where
    bound : 2 ^ (bits - 1) ≤ 2 ^ 62
    bound = pow-le-pow_right {n = 2} (omega arith) {i = bits - 1} {j = 62} (omega arith)

-- The sign extension that ARM branches use.
pub sign_extend32_26 :
    (x : ℕ) → x < 2 ^ 26 → sign_extend32 26 x ≡ (if ltb x (2 ^ 25) then x else 2 ^ 32 + x - 2 ^ 26)
unfolding sign_extend32
sign_extend32_26 x h = ground arith
