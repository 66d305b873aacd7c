-- ===== src/Memory.antt =====
-- The byte memory that the pointers of the C code reach: section memory, stubs, the GOT. Words are
-- little-endian, as on the supported targets. Every address that the code touches is mapped.
pub mod Laws
pub mod Words
use liblink.Base.{ℕ, ◌+◌, ◌*◌, ◌/◌, ◌%◌, ◌^◌, ◌==◌, u16, u32, u64, if◌then◌else◌}

abbrev pub Memory : Type 0
Memory = ℕ → ℕ

abbrev pub write_byte : Memory → ℕ → ℕ → Memory
write_byte m p v a = if a == p then v % 2 ^ 8 else m a

unfoldable pub load16 : Memory → ℕ → ℕ
load16 m p = m p + m (p + 1) * 2 ^ 8

unfoldable pub load32 : Memory → ℕ → ℕ
load32 m p = m p + m (p + 1) * 2 ^ 8 + m (p + 2) * 2 ^ 16 + m (p + 3) * 2 ^ 24

unfoldable pub load64 : Memory → ℕ → ℕ
load64 m p = load32 m p + load32 m (p + 4) * 2 ^ 32

unfoldable pub store16 : Memory → ℕ → ℕ → Memory
store16 m p v = write_byte (write_byte m p v) (p + 1) (v / 2 ^ 8)

unfoldable pub store32 : Memory → ℕ → ℕ → Memory
store32 m p v =
    write_byte (write_byte (write_byte (write_byte m p v) (p + 1) (v / 2 ^ 8)) (p + 2) (v / 2 ^ 16))
      (p + 3) (v / 2 ^ 24)

unfoldable pub store64 : Memory → ℕ → ℕ → Memory
unfolding store32
store64 m p v = store32 (store32 m p v) (p + 4) (v / 2 ^ 32)
