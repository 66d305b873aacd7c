-- ===== src/Compat.antt =====
-- elf/compat.h (the relocation types), and the macros of <elf.h> that take packed fields apart, as
-- the ELF specification gives them.
pub mod Arm64
pub mod Arm
use liblink.Base.{
  ℕ, ◌/◌, ◌%◌, ◌^◌, ◌≡◌, List, [], ◌∷◌, Option, none, some, ◌==◌, if◌then◌else◌, arith,
}

abbrev pub elf32_r_type : ℕ → ℕ
elf32_r_type info = info % 2 ^ 8

abbrev pub elf32_r_sym : ℕ → ℕ
elf32_r_sym info = info / 2 ^ 8

abbrev pub elf64_r_type : ℕ → ℕ
elf64_r_type info = info % 2 ^ 32

abbrev pub elf64_r_sym : ℕ → ℕ
elf64_r_sym info = info / 2 ^ 32

abbrev pub elf_st_bind : ℕ → ℕ
elf_st_bind info = info / 2 ^ 4

abbrev pub elf_st_type : ℕ → ℕ
elf_st_type info = info % 2 ^ 4

-- The first of the constants `rs` with the value `n`.
unfoldable pub select {ℓ} : {A : Type ℓ} → (A → ℕ) → List A → ℕ → Option A
select value [] n = none
select value (r ∷ rs) n = if value r == n then some r else select value rs n

pub select-value {ℓ} :
    {A : Type ℓ} (value : A → ℕ) (rs : List A) (n : ℕ) (r : A)
    → select value rs n ≡ some r
    → value r ≡ n
unfolding select
select-value value [] n r h = absurd (cc)
select-value value (s ∷ rs) n r h = ground (arith, select-value value rs n r)
