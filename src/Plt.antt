-- ===== src/Plt.antt =====
-- elf/plt.c: the stubs next to a section. Allocation succeeds; a section's chain of stubs is a list.
pub mod Arm64
pub mod Arm
pub mod Trampoline
pub mod Chain
use liblink.Base.{
  ℕ, zero, suc, ◌+◌, ◌*◌, ◌%◌, ◌^◌, Bool, true, false, List, [], ◌∷◌, ◌++◌, ◌==◌, u32,
  if◌then◌else◌, Outcome, ok, fail, Fault, ◌>>=◌, ◌>>◌, assert, exit_success, exit_failure,
}
use liblink.Memory.{Memory}
use liblink.Types.{
  ElfRel, ElfRela, ElfRelocationTable, ElfRelocationATable, ObjectCode, Section, SectionFormatInfo,
  Stub,
}
use liblink.Target.{Target}

-- The rounds of the inner loops, for one relocation table; `n` is an `unsigned`.
unfoldable pub count_rel : (ElfRel → Bool) → List ElfRel → ℕ → ℕ
count_rel need [] n = n
count_rel need (r ∷ rs) n = count_rel need rs (if need r then u32 (n + 1) else n)

unfoldable pub count_rela : (ElfRela → Bool) → List ElfRela → ℕ → ℕ
count_rela need [] n = n
count_rela need (r ∷ rs) n = count_rela need rs (if need r then u32 (n + 1) else n)

unfoldable pub count_rel_tables : Target → ℕ → List ElfRelocationTable → ℕ → ℕ
unfolding count_rel
count_rel_tables t i [] n = n
count_rel_tables t i (tab ∷ tabs) n =
    count_rel_tables t i tabs
      (if tab.target_section_index == i then count_rel t.need_stub_for_rel tab.relocations n else n)

unfoldable pub count_rela_tables : Target → ℕ → List ElfRelocationATable → ℕ → ℕ
unfolding count_rela
count_rela_tables t i [] n = n
count_rela_tables t i (tab ∷ tabs) n =
    count_rela_tables t i tabs (
      if tab.target_section_index == i
      then count_rela t.need_stub_for_rela tab.relocations n
      else n)

unfoldable pub number_of_stubs_for_section : Target → ObjectCode → ℕ → ℕ
unfolding count_rel_tables count_rela_tables
number_of_stubs_for_section t oc i =
    count_rela_tables t i oc.info.rela_table (count_rel_tables t i oc.info.rel_table 0)

-- `*addr` and the returned `bool`.
unfoldable pub find_in : List Stub → ℕ → ℕ × Bool
find_in [] addr = (addr, exit_failure)
find_in (s ∷ ss) addr = if s.target == addr then (s.addr, exit_success) else find_in ss addr

unfoldable pub find_stub : Section → ℕ → ℕ × Bool
unfolding find_in
find_stub section addr = find_in section.info.stubs addr

-- The address of the stub that `make_stub` sets up next.
abbrev pub next_stub_addr : Target → SectionFormatInfo → ℕ
next_stub_addr t i = (i.stub_offset + 8 + t.stub_size * i.nstubs) % 2 ^ t.addr_bits

-- The chain and the count, with `s` at the end of the chain.
unfoldable pub append_stub :
    Target → SectionFormatInfo → Stub → List Stub → Outcome SectionFormatInfo
append_stub t i s [] = do
  assert (i.nstubs == 0)
  ok (record i { stubs = s ∷ []; nstubs = (i.nstubs + 1) % 2 ^ t.addr_bits })
append_stub t i s (x ∷ xs) =
    ok (record i { stubs = (x ∷ xs) ++ s ∷ []; nstubs = (i.nstubs + 1) % 2 ^ t.addr_bits })

-- What `make_stub` leaves: the section, the memory, `*addr` and the returned `bool`.
pub record Made : Type 0 where
  pub section : Section
  pub memory : Memory
  pub addr : ℕ
  pub status : Bool

unfoldable pub make_stub : Target → Section → ℕ → Memory → Outcome Made
unfolding append_stub
make_stub t section addr m =
    let s : Stub = record { addr = next_stub_addr t section.info; target = addr } in
    let (m', failed) = t.make_stub s m in
    if failed
    then ok (record { section = section; memory = m'; addr = addr; status = exit_failure })
    else do
      info ← append_stub t section.info s section.info.stubs
      ok (record {
        section = record section { info = info };
        memory = m';
        addr = s.addr;
        status = exit_success;
      })

-- The stubs that the loop of `free_stubs` frees, from the chain at `last` on.
unfoldable pub freed_before_last : Stub → List Stub → List Stub
freed_before_last last [] = []
freed_before_last last (x ∷ xs) = last ∷ freed_before_last x xs

-- The section, and the stubs that were given to `free`. A null chain with a count is dereferenced.
unfoldable pub free_stubs : Section → Outcome (Section × List Stub)
unfolding freed_before_last
free_stubs section =
    if section.info.nstubs == 0 then ok (section, []) else elim section.info.stubs [
      | [] ↦ fail Fault.undefined
      | x ∷ xs ↦ ok (
        record section { info = record section.info { stubs = []; nstubs = 0 } },
        freed_before_last x xs,
      )
    ]
