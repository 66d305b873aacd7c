-- ===== src/Memory/Laws.antt =====
-- Reading back a stored word, and what a store leaves alone.
use liblink.Base.{ℕ, ◌+◌, ◌/◌, ◌^◌, ◌≤◌, ◌<◌, ◌≡◌, ◌⊎◌, arith, u16, u32, u64}
use liblink.Memory.{Memory, load16, load32, load64, store16, store32, store64}

-- Every cell of the memory holds a byte.
abbrev pub IsBytes : Memory → Type 0
IsBytes m = (a : ℕ) → m a < 2 ^ 8

-- `g` differs from `m` at most at the `n` addresses from `p` on.
abbrev pub SameOutside : ℕ → ℕ → Memory → Memory → Type 0
SameOutside p n m g = (a : ℕ) → (a < p) ⊎ (p + n ≤ a) → g a ≡ m a

pub load16-store16 : (m : Memory) (p v : ℕ) → load16 (store16 m p v) p ≡ u16 v
unfolding load16 store16
load16-store16 m p v = ground arith

pub load32-store32 : (m : Memory) (p v : ℕ) → load32 (store32 m p v) p ≡ u32 v
unfolding load32 store32
load32-store32 m p v = ground arith

pub store16-SameOutside : (m : Memory) (p v : ℕ) → SameOutside p 2 m (store16 m p v)
unfolding store16
store16-SameOutside m p v a h = ground arith

pub store32-SameOutside : (m : Memory) (p v : ℕ) → SameOutside p 4 m (store32 m p v)
unfolding store32
store32-SameOutside m p v a h = ground arith

pub store64-SameOutside : (m : Memory) (p v : ℕ) → SameOutside p 8 m (store64 m p v)
unfolding store64
store64-SameOutside m p v a h = ground arith

-- A load sees only its own cells.
pub load32-cong :
    (m g : Memory) (p : ℕ)
    → g p ≡ m p
    → g (p + 1) ≡ m (p + 1)
    → g (p + 2) ≡ m (p + 2)
    → g (p + 3) ≡ m (p + 3)
    → load32 g p ≡ load32 m p
unfolding load32
load32-cong m g p h0 h1 h2 h3 = rw (h0, h1, h2, h3)

pub load32_frame :
    (m g : Memory) (q n p : ℕ)
    → SameOutside q n m g
    → (p + 4 ≤ q) ⊎ (q + n ≤ p)
    → load32 g p ≡ load32 m p
load32_frame m g q n p same apart =
    load32-cong m g p (same p (omega arith)) (same (p + 1) (omega arith))
      (same (p + 2) (omega arith)) (same (p + 3) (omega arith))

pub load64-store64 : (m : Memory) (p v : ℕ) → load64 (store64 m p v) p ≡ u64 v
unfolding load64 store64
load64-store64 m p v = omega (
  arith,
  load32-store32 (store32 m p v) (p + 4) (v / 2 ^ 32),
  load32-store32 m p v,
  load32_frame (store32 m p v) (store32 (store32 m p v) (p + 4) (v / 2 ^ 32)) (p + 4) 4 p
      (store32-SameOutside (store32 m p v) (p + 4) (v / 2 ^ 32)) (omega arith),
)

pub load64_frame :
    (m g : Memory) (q n p : ℕ)
    → SameOutside q n m g
    → (p + 8 ≤ q) ⊎ (q + n ≤ p)
    → load64 g p ≡ load64 m p
unfolding load64
load64_frame m g q n p same apart = omega (
  arith,
  load32_frame m g q n p same (omega arith),
  load32_frame m g q n (p + 4) same (omega arith),
)

pub load32-lt : (m : Memory) (p : ℕ) → IsBytes m → load32 m p < 2 ^ 32
unfolding load32
load32-lt m p h = omega (arith, h p, h (p + 1), h (p + 2), h (p + 3))

pub store16-IsBytes : (m : Memory) (p v : ℕ) → IsBytes m → IsBytes (store16 m p v)
unfolding store16
store16-IsBytes m p v h a = ground (arith, h a)

pub store32-IsBytes : (m : Memory) (p v : ℕ) → IsBytes m → IsBytes (store32 m p v)
unfolding store32
store32-IsBytes m p v h a = ground (arith, h a)

pub store64-IsBytes : (m : Memory) (p v : ℕ) → IsBytes m → IsBytes (store64 m p v)
unfolding store64
store64-IsBytes m p v h =
    store32-IsBytes (store32 m p v) (p + 4) (v / 2 ^ 32) (store32-IsBytes m p v h)

pub load32_same :
    (m g : Memory) (p : ℕ) → ((a : ℕ) → p ≤ a → a < p + 4 → g a ≡ m a) → load32 g p ≡ load32 m p
load32_same m g p same =
    load32-cong m g p (same p (omega arith) (omega arith))
      (same (p + 1) (omega arith) (omega arith)) (same (p + 2) (omega arith) (omega arith))
      (same (p + 3) (omega arith) (omega arith))

pub load32-store32_ne :
    (m : Memory) (p v q : ℕ) → (q + 4 ≤ p) ⊎ (p + 4 ≤ q) → load32 (store32 m p v) q ≡ load32 m q
load32-store32_ne m p v q apart =
    load32_frame m (store32 m p v) p 4 q (store32-SameOutside m p v) apart
