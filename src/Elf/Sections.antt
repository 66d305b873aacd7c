-- ===== src/Elf/Sections.antt =====
-- `section_kind` and `load_sections` (Elf.c). The k-th call of `mmap` answers `mmap k size`, no address
-- is MAP_FAILED, and anonymous memory reads as zeros.
pub mod Refused
pub mod Contents
use liblink.Base.{
  ℕ, suc, ◌+◌, ◌-◌, ◌*◌, ◌%◌, ◌^◌, bit_and, Bool, true, false, ◌&&◌, ◌||◌, List, [], ◌∷◌, Option,
  none, some, ◌==◌, leb, ltb, u32, if◌then◌else◌, Outcome, ok, fail, Fault, ◌>>=◌, ◌>>◌, assert,
  exit_success,
}
use liblink.Memory.{Memory}
use liblink.Types.{
  ElfShdr, ObjectCode, Section, SectionFormatInfo, SectionKind, sectionkind_text,
  sectionkind_rwdata, sectionkind_rodata, sectionkind_zerofill, sectionkind_other, section_nomem,
  section_mmap, section_malloc,
}
use liblink.Target.{Target}
use liblink.Plt.{number_of_stubs_for_section}
use liblink.Linker.{add_section}

-- SHF_WRITE, SHF_ALLOC and SHF_EXECINSTR are 1, 2 and 4.
abbrev pub shf_ro : ℕ
shf_ro = 2

abbrev pub shf_rw : ℕ
shf_rw = 3

abbrev pub shf_rx : ℕ
shf_rx = 6

abbrev pub shf_rwx : ℕ
shf_rwx = 7

-- The case of SHT_NOBITS, by the masked flags.
unfoldable pub nobits_kind : ℕ → Outcome SectionKind
nobits_kind flags =
    if flags == shf_rw
    then ok sectionkind_zerofill
    else if flags == shf_rx || flags == shf_ro || flags == shf_rwx
    then fail Fault.aborted
    else ok sectionkind_other

-- SHT_PROGBITS, which is 1, falls through to SHT_NOBITS, which is 8.
unfoldable pub section_kind : ElfShdr → Outcome SectionKind
unfolding nobits_kind
section_kind h =
    let flags = bit_and h.sh_flags shf_rwx in
    if h.sh_type == 1
    then (if flags == shf_rx
        then ok sectionkind_text
        else if flags == shf_rw
        then ok sectionkind_rwdata
        else if flags == shf_ro
        then ok sectionkind_rodata
        else if flags == shf_rwx
        then fail Fault.aborted
        else nobits_kind flags)
    else if h.sh_type == 8
    then nobits_kind flags
    else ok sectionkind_other

-- The memory of a new anonymous mapping, and `memcpy`.
abbrev pub zero_bytes : Memory → ℕ → ℕ → Memory
zero_bytes m p n a = if leb p a && ltb a (p + n) then 0 else m a

abbrev pub copy_bytes : Memory → ℕ → ℕ → ℕ → Memory
copy_bytes m p q n a = if leb p a && ltb a (p + n) then m (q + (a - p)) else m a

unfoldable pub is_text : SectionKind → Bool
is_text sectionkind_text = true
is_text _ = false

-- The fields of `info` that every case sets.
abbrev pub with_info : Section → ObjectCode → ElfShdr → ℕ → ℕ → Section
with_info s oc h stub_offset stub_size = record s {
  info = record {
    stub_offset = stub_offset;
    stub_size = stub_size;
    nstubs = 0;
    stubs = [];
    name = oc.info.section_header_strtab + h.sh_name;
    section_header = h;
  };
}

-- A loaded section, the memory, and the number of calls of `mmap`.
pub record Loaded : Type 0 where
  pub section : Section
  pub memory : Memory
  pub calls : ℕ

module _ (t : Target) (mmap : ℕ → ℕ → Option ℕ) (oc : ObjectCode) where
  -- The case of TEXT, RODATA and RWDATA.
  unfoldable pub load_bytes : ℕ → SectionKind → ElfShdr → Memory → ℕ → Outcome Loaded
  load_bytes i kind h m calls =
      let nstubs = number_of_stubs_for_section t oc i in
      let stub_space = u32 (t.stub_size * nstubs) in
      let total = (h.sh_size + stub_space) % 2 ^ t.addr_bits in
      do
        assert (nstubs == 0 || is_text kind)
        if total == 0
            then ok (record {
              section = with_info (add_section kind section_nomem 0 0 0 0 0) oc h 0 0;
              memory = m;
              calls = calls;
            })
            else assert (stub_space == 0 || bit_and h.sh_size 3 == 0) >> elim (mmap calls total) [
              | none ↦ fail Fault.aborted
              | some mem ↦ ok (record {
                section =
                    with_info
                      (add_section kind section_mmap mem (u32 h.sh_size) 0 mem
                        (u32 (u32 h.sh_size + stub_space)))
                      oc h ((mem + h.sh_size) % 2 ^ t.addr_bits) stub_space;
                memory = copy_bytes (zero_bytes m mem total) mem (oc.image + h.sh_offset) h.sh_size;
                calls = suc calls;
              })
            ]

  -- The case of ZEROFILL.
  unfoldable pub load_zerofill : ElfShdr → Memory → ℕ → Outcome Loaded
  load_zerofill h m calls =
      let empty = h.sh_size == 0 in
      let size = if empty then 1 else h.sh_size in
      elim (mmap calls size) [
        | none ↦ fail Fault.aborted
        | some mem ↦ ok (record {
          section =
              with_info
                (if empty
                  then add_section sectionkind_zerofill section_malloc mem 1 0 0 0
                  else add_section sectionkind_zerofill section_mmap mem (u32 h.sh_size) 0 0 0)
                oc h 0 0;
          memory = zero_bytes m mem size;
          calls = suc calls;
        })
      ]

  -- The default case: the section stays in the image.
  unfoldable pub load_nothing : SectionKind → ElfShdr → Memory → ℕ → Outcome Loaded
  load_nothing kind h m calls = ok (record {
    section =
        with_info
          (add_section kind section_nomem ((oc.image + h.sh_offset) % 2 ^ t.addr_bits)
            (u32 h.sh_size) 0 0 0)
          oc h 0 0;
    memory = m;
    calls = calls;
  })

  unfoldable pub load_kind : SectionKind → ℕ → ElfShdr → Memory → ℕ → Outcome Loaded
  unfolding load_bytes load_zerofill load_nothing
  load_kind sectionkind_text i h m calls = load_bytes i sectionkind_text h m calls
  load_kind sectionkind_rodata i h m calls = load_bytes i sectionkind_rodata h m calls
  load_kind sectionkind_rwdata i h m calls = load_bytes i sectionkind_rwdata h m calls
  load_kind sectionkind_zerofill i h m calls = load_zerofill h m calls
  load_kind kind i h m calls = load_nothing kind h m calls

  -- The sections from number `i` on, the memory, and the number of calls of `mmap`.
  unfoldable pub load_headers : ℕ → List ElfShdr → Memory → ℕ → Outcome (List Section × Memory × ℕ)
  unfolding load_kind section_kind
  load_headers i [] m calls = ok ([], m, calls)
  load_headers i (h ∷ hs) m calls = do
    kind ← section_kind h
    s ← load_kind kind i h m calls
    (ss, m', calls') ← load_headers (i + 1) hs s.memory s.calls
    ok (s.section ∷ ss, m', calls')

  -- The only normal return is `EXIT_SUCCESS`.
  unfoldable pub load_sections : Memory → ℕ → Outcome (ObjectCode × Memory × ℕ × Bool)
  unfolding load_headers
  load_sections m calls = do
    (ss, m', calls') ← load_headers 0 oc.info.section_headers m calls
    ok (record oc { sections = ss }, m', calls', exit_success)
