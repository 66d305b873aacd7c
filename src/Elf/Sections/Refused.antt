-- ===== src/Elf/Sections/Refused.antt =====
-- The kinds of sections that `load_sections` (Elf.c) accepts.
use liblink.Base.{
  ℕ, suc, ◌+◌, ◌≡◌, ◌⊎◌, Bool, List, [], ◌∷◌, Option, arith, ok, fail, Fault, >>=-eq-ok, bit_and,
  length, ap, ◌∙◌, sym, ok-injective,
}
use liblink.Memory.{Memory}
use liblink.Types.{ElfShdr, ObjectCode, Section}
use liblink.Target.{Target}
use liblink.Elf.Sections.{shf_rwx, section_kind, load_kind, load_headers, load_sections}

-- A section with memory that is allocated, writable and executable: SHT_PROGBITS or SHT_NOBITS.
abbrev pub IsWritableCode : ElfShdr → Type 0
IsWritableCode h = ((h.sh_type ≡ 1) ⊎ (h.sh_type ≡ 8)) × (bit_and h.sh_flags shf_rwx ≡ shf_rwx)

abbrev pub NoWritableCode : List ElfShdr → Type 0
NoWritableCode [] = Unit {0}
NoWritableCode (h ∷ hs) = ¬ IsWritableCode h × NoWritableCode hs

section_kind-aborts : (h : ElfShdr) → IsWritableCode h → section_kind h ≡ fail Fault.aborted
unfolding section_kind
section_kind-aborts h w = ground (arith, w)

module _ (t : Target) (mmap : ℕ → ℕ → Option ℕ) (oc : ObjectCode) where
  load_headers_refuses :
      (i : ℕ) (hs : List ElfShdr) (m : Memory) (calls : ℕ) (r : List Section × Memory × ℕ)
      → load_headers t mmap oc i hs m calls ≡ ok r
      → NoWritableCode hs × (length r.0 ≡ length hs)
  unfolding load_headers
  load_headers_refuses i [] m calls r e =
      (tt, sym (ap (λ (x : List Section × Memory × ℕ). length x.0) (ok-injective e)))
  load_headers_refuses i (h ∷ hs) m calls r e =
      let (kind, found, rest) = >>=-eq-ok (section_kind h) _ e in
      let (s, loaded, more) = >>=-eq-ok (load_kind t mmap oc kind i h m calls) _ rest in
      let (x, tail, last) = >>=-eq-ok (load_headers t mmap oc (i + 1) hs s.memory s.calls) _ more in
      let (none_behind, same) = load_headers_refuses (i + 1) hs s.memory s.calls x tail in
      (
        ((λ w. cc (section_kind-aborts h w)), none_behind),
        sym (ap (λ (y : List Section × Memory × ℕ). length y.0) (ok-injective last)) ∙ ap suc same,
      )

  -- Where `load_sections` returns, no section of type SHT_PROGBITS or SHT_NOBITS had all three of the
  -- flags SHF_ALLOC, SHF_WRITE and SHF_EXECINSTR, and it has set up one section for each header.
  pub load_sections_refuses :
      (m : Memory) (calls : ℕ) (r : ObjectCode × Memory × ℕ × Bool)
      → load_sections t mmap oc m calls ≡ ok r
      → NoWritableCode oc.info.section_headers
        × (length r.0.sections ≡ length oc.info.section_headers)
  unfolding load_sections
  load_sections_refuses m calls r e =
      let (x, loaded, last) =
        >>=-eq-ok (load_headers t mmap oc 0 oc.info.section_headers m calls) _ e in
      let (refused, same) = load_headers_refuses 0 oc.info.section_headers m calls x loaded in
      (
        refused,
        sym (ap (λ (y : ObjectCode × Memory × ℕ × Bool). length y.0.sections) (ok-injective last))
            ∙ same,
      )
