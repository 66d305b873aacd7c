-- ===== src/Plt/Chain/Count.antt =====
-- The number of stubs that are reserved for a section.
use liblink.Base.{ℕ, ◌+◌, ◌%◌, ◌^◌, ◌<◌, ◌≡◌, Bool, List, [], ◌∷◌, ◌==◌, u32, if◌then◌else◌, arith}
use liblink.Types.{ElfRel, ElfRela, ElfRelocationTable, ElfRelocationATable, ObjectCode}
use liblink.Target.{Target}
use liblink.Plt.{
  count_rel, count_rela, count_rel_tables, count_rela_tables, number_of_stubs_for_section,
}

-- How many items of a list pass a test.
pub how_many {ℓ} : {A : Type ℓ} → (A → Bool) → List A → ℕ
how_many p [] = 0
how_many p (x ∷ xs) = (if p x then 1 else 0) + how_many p xs

-- The relocations of a section that need a stub, over all tables of one kind.
pub wanted_rel : Target → ℕ → List ElfRelocationTable → ℕ
wanted_rel t i [] = 0
wanted_rel t i (tab ∷ tabs) =
    (if tab.target_section_index == i then how_many t.need_stub_for_rel tab.relocations else 0)
    + wanted_rel t i tabs

pub wanted_rela : Target → ℕ → List ElfRelocationATable → ℕ
wanted_rela t i [] = 0
wanted_rela t i (tab ∷ tabs) =
    (if tab.target_section_index == i then how_many t.need_stub_for_rela tab.relocations else 0)
    + wanted_rela t i tabs

count_rel_lem :
    (need : ElfRel → Bool) (rs : List ElfRel) (n : ℕ)
    → n < 2 ^ 32
    → count_rel need rs n ≡ (n + how_many need rs) % 2 ^ 32
unfolding count_rel how_many
count_rel_lem need [] n h = omega arith
count_rel_lem need (r ∷ rs) n h =
    ground (arith, count_rel_lem need rs n, count_rel_lem need rs (u32 (n + 1)))

count_rel_tables_lem :
    (t : Target) (i : ℕ) (tabs : List ElfRelocationTable) (n : ℕ)
    → n < 2 ^ 32
    → count_rel_tables t i tabs n ≡ (n + wanted_rel t i tabs) % 2 ^ 32
unfolding count_rel_tables wanted_rel
count_rel_tables_lem t i [] n h = omega arith
count_rel_tables_lem t i (tab ∷ tabs) n h = ground (
  arith,
  count_rel_lem t.need_stub_for_rel tab.relocations n h,
  count_rel_tables_lem t i tabs n,
  count_rel_tables_lem t i tabs (count_rel t.need_stub_for_rel tab.relocations n),
)

count_rela_lem :
    (need : ElfRela → Bool) (rs : List ElfRela) (n : ℕ)
    → n < 2 ^ 32
    → count_rela need rs n ≡ (n + how_many need rs) % 2 ^ 32
unfolding count_rela how_many
count_rela_lem need [] n h = omega arith
count_rela_lem need (r ∷ rs) n h =
    ground (arith, count_rela_lem need rs n, count_rela_lem need rs (u32 (n + 1)))

count_rela_tables_lem :
    (t : Target) (i : ℕ) (tabs : List ElfRelocationATable) (n : ℕ)
    → n < 2 ^ 32
    → count_rela_tables t i tabs n ≡ (n + wanted_rela t i tabs) % 2 ^ 32
unfolding count_rela_tables wanted_rela
count_rela_tables_lem t i [] n h = omega arith
count_rela_tables_lem t i (tab ∷ tabs) n h = ground (
  arith,
  count_rela_lem t.need_stub_for_rela tab.relocations n h,
  count_rela_tables_lem t i tabs n,
  count_rela_tables_lem t i tabs (count_rela t.need_stub_for_rela tab.relocations n),
)

-- `numberOfStubsForSection` counts the relocations that need a stub, over all tables of both kinds
-- that target the section, modulo the range of `unsigned`.
pub number_of_stubs_for_section_lem :
    (t : Target) (oc : ObjectCode) (i : ℕ)
    → number_of_stubs_for_section t oc i
      ≡ (wanted_rel t i oc.info.rel_table + wanted_rela t i oc.info.rela_table) % 2 ^ 32
unfolding number_of_stubs_for_section
number_of_stubs_for_section_lem t oc i = ground (
  arith,
  count_rel_tables_lem t i oc.info.rel_table 0,
  count_rela_tables_lem t i oc.info.rela_table (count_rel_tables t i oc.info.rel_table 0),
)
