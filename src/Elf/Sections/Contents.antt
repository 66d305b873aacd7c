-- ===== src/Elf/Sections/Contents.antt =====
-- The memory of a section of code or data behind `load_sections` (Elf.c).
use liblink.Base.{
  ℕ, ◌+◌, ◌-◌, ◌*◌, ◌%◌, ◌^◌, ◌≡◌, ◌≢◌, ◌≤◌, ◌<◌, ◌⊎◌, refl, ◌||◌, ap, ◌∙◌, bit_and, true, false,
  [], Option, some, u32, arith, ok, ◌==◌,
}
use native.Mathlib.Nat.{mod-eq_of_lt, mul-zero}
use liblink.Memory.{Memory}
use liblink.Types.{ElfShdr, ObjectCode, SectionKind}
use liblink.Target.{Target}
use liblink.Linker.{add_section}
use liblink.Plt.{number_of_stubs_for_section}
use liblink.Plt.Trampoline.{Trampoline}
use liblink.Plt.Chain.Place.{IsChain}
use liblink.Elf.Sections.{is_text, load_bytes, Loaded, zero_bytes, copy_bytes}

-- The bytes that are reserved for the stubs of section `i`.
abbrev pub stub_space : Target → ObjectCode → ℕ → ℕ
stub_space t oc i = u32 (t.stub_size * number_of_stubs_for_section t oc i)

-- `mem` starts `n` bytes that hold the `size` bytes at `image`, and zeros behind them; the memory `m` is
-- as it was elsewhere.
pub record Holds (m m' : Memory) (mem n image size : ℕ) : Type 0 where
  pub copied : (k : ℕ) → k < size → m' (mem + k) ≡ m (image + k)
  pub zeroed : (k : ℕ) → size ≤ k → k < n → m' (mem + k) ≡ 0
  pub kept : (a : ℕ) → (a < mem) ⊎ (mem + n ≤ a) → m' a ≡ m a

copy-Holds :
    (m : Memory) (mem n image size : ℕ)
    → size ≤ n
    → (image + size ≤ mem) ⊎ (mem + n ≤ image)
    → Holds m (copy_bytes (zero_bytes m mem n) mem image size) mem n image size
copy-Holds m mem n image size fits apart = record {
  copied = λ k lt. let back : mem + k - mem ≡ k = omega arith in rw back (ground arith);
  zeroed = λ k le lt. ground arith;
  kept = λ a out. ground arith;
}

-- `load_sections` on a section of code, constants or data that is not empty, for memory that the
-- kernel maps apart from the image: the section starts at that memory and holds its bytes of the
-- image. Behind them stand the `stub_size` bytes for its stubs, which are zeros: the size of a stub
-- times the number of stubs that `number_of_stubs_for_section` counts. Its chain of stubs is empty and
-- valid, and no other memory has changed. No address or size wraps around, a section with stubs holds
-- code, and its size is a multiple of 4.
pub load_bytes_lem :
    (t : Target) (j : Trampoline t) (mmap : ℕ → ℕ → Option ℕ) (oc : ObjectCode) (i : ℕ)
    (kind : SectionKind) (h : ElfShdr) (m : Memory) (calls mem : ℕ)
    → h.sh_size ≢ 0
    → h.sh_size + stub_space t oc i < 2 ^ t.addr_bits
    → (number_of_stubs_for_section t oc i ≡ 0) ⊎ ((is_text kind ≡ true) × (bit_and h.sh_size 3 ≡ 0))
    → mmap calls (h.sh_size + stub_space t oc i) ≡ some mem
    → mem + h.sh_size < 2 ^ t.addr_bits
    → (oc.image + h.sh_offset + h.sh_size ≤ mem)
      ⊎ (mem + (h.sh_size + stub_space t oc i) ≤ oc.image + h.sh_offset)
    → (r : Loaded) × (load_bytes t mmap oc i kind h m calls ≡ ok r)
      × (r.section.start ≡ mem)
      × (r.section.info.stub_offset ≡ mem + h.sh_size)
      × (r.section.info.stub_size ≡ stub_space t oc i)
      × (r.section.info.stubs ≡ [])
      × IsChain t j r.memory r.section.info
      × Holds m r.memory mem (h.sh_size + stub_space t oc i) (oc.image + h.sh_offset) h.sh_size
unfolding load_bytes add_section
load_bytes_lem t j mmap oc i kind h m calls mem some_bytes fits stubs mapped low apart =
    let whole : (h.sh_size + stub_space t oc i) % 2 ^ t.addr_bits ≡ h.sh_size + stub_space t oc i =
      mod-eq_of_lt fits in
    let end : (mem + h.sh_size) % 2 ^ t.addr_bits ≡ mem + h.sh_size = mod-eq_of_lt low in
    let none_needed : number_of_stubs_for_section t oc i ≡ 0 → stub_space t oc i ≡ 0 =
      λ e. ap (λ n. u32 (t.stub_size * n)) e ∙ ap u32 (mul-zero t.stub_size) in
    let allowed : (number_of_stubs_for_section t oc i == 0 || is_text kind) ≡ true = ground arith in
    let aligned : (stub_space t oc i == 0 || bit_and h.sh_size 3 == 0) ≡ true =
      ground (arith, none_needed) in
    let filled : (h.sh_size + stub_space t oc i == 0) ≡ false = ground arith in
    rw (whole, allowed, aligned, filled, mapped, end)
      (
        _,
        refl,
        refl,
        refl,
        refl,
        refl,
        record { counted = refl; placed = tt },
        rw whole (
            copy-Holds m mem (h.sh_size + stub_space t oc i) (oc.image + h.sh_offset) h.sh_size
              (omega arith) apart),
      )
