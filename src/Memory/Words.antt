-- ===== src/Memory/Words.antt =====
-- Words of `w` bytes: what the users of a pointer to an address rely on.
use liblink.Base.{ℕ, ◌+◌, ◌^◌, ◌≤◌, ◌<◌, ◌≡◌, ◌⊎◌, ◌∙◌}
use native.Mathlib.Nat.{mod-eq_of_lt}
use liblink.Memory.{Memory, load32, load64, store32, store64}
use liblink.Memory.Laws.{
  load32-store32, load32-store32_ne, load64-store64, load64_frame, store64-SameOutside,
}

pub record Words (w bits : ℕ) (load : Memory → ℕ → ℕ) (store : Memory → ℕ → ℕ → Memory)
    : Type 0 where
  pub load-store : (m : Memory) (p v : ℕ) → v < 2 ^ bits → load (store m p v) p ≡ v
  pub load-store_ne :
      (m : Memory) (p v q : ℕ) → (q + w ≤ p) ⊎ (p + w ≤ q) → load (store m p v) q ≡ load m q

pub words64 : Words 8 64 load64 store64
words64 = record {
  load-store = λ m p v lt. load64-store64 m p v ∙ mod-eq_of_lt lt;
  load-store_ne =
      λ m p v q apart. load64_frame m (store64 m p v) p 8 q (store64-SameOutside m p v) apart;
}

pub words32 : Words 4 32 load32 store32
words32 = record {
  load-store = λ m p v lt. load32-store32 m p v ∙ mod-eq_of_lt lt;
  load-store_ne = load32-store32_ne;
}
