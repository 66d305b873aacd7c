-- ===== src/Reloc/Arm/Object.antt =====
-- The loops of `relocate_object_code_arm` (elf/reloc/arm.c) over the tables of an object.
use liblink.Base.{
  ℕ, Bool, List, [], ◌∷◌, none, some, if◌then◌else◌, Outcome, ok, fail, Fault, ◌>>=◌, exit_success,
  get_elem?, set,
}
use liblink.Memory.{Memory}
use liblink.Types.{
  ElfRel, ElfRela, ElfRelocationTable, ElfRelocationATable, ObjectCode, Section, SymbolStore,
}
use liblink.Compat.{elf32_r_sym}
use liblink.Reloc.Util.{is_other}
use liblink.Reloc.Util.Find.{required_symbol}
use liblink.Reloc.Arm.{decode_addend_arm, relocate_one}

-- The inner loop over relocations with an implicit addend; `link` is the index of the symbol table.
unfoldable pub relocate_rels :
    ObjectCode → SymbolStore → ℕ → Section → List ElfRel → Memory → Outcome (Section × Memory)
relocate_rels oc syms link section [] m = ok (section, m)
relocate_rels oc syms link section (rel ∷ rels) m = do
  symbol ← required_symbol oc syms link (elf32_r_sym rel.r_info)
  addend ← decode_addend_arm section rel m
  (section', m') ← relocate_one section rel symbol addend m
  relocate_rels oc syms link section' rels m'

-- The inner loop over relocations with an explicit addend.
unfoldable pub relocate_relas :
    ObjectCode → SymbolStore → ℕ → Section → List ElfRela → Memory → Outcome (Section × Memory)
relocate_relas oc syms link section [] m = ok (section, m)
relocate_relas oc syms link section (rela ∷ relas) m = do
  symbol ← required_symbol oc syms link (elf32_r_sym rela.rel.r_info)
  (section', m') ← relocate_one section rela.rel symbol rela.r_addend m
  relocate_relas oc syms link section' relas m'

-- One table: its section is skipped if its kind is OTHER. The array of sections is not left.
unfoldable pub relocate_rel_table :
    SymbolStore → ObjectCode → ElfRelocationTable → Memory → Outcome (ObjectCode × Memory)
unfolding relocate_rels
relocate_rel_table syms oc tab m = elim (get_elem? oc.sections tab.target_section_index) [
  | none ↦ fail Fault.undefined
  | some section ↦ if is_other section.kind then ok (oc, m) else (do
    (section', m') ← relocate_rels oc syms tab.section_header.sh_link section tab.relocations m
    ok (record oc { sections = set oc.sections tab.target_section_index section' }, m'))
]

unfoldable pub relocate_rela_table :
    SymbolStore → ObjectCode → ElfRelocationATable → Memory → Outcome (ObjectCode × Memory)
unfolding relocate_relas
relocate_rela_table syms oc tab m = elim (get_elem? oc.sections tab.target_section_index) [
  | none ↦ fail Fault.undefined
  | some section ↦ if is_other section.kind then ok (oc, m) else (do
    (section', m') ← relocate_relas oc syms tab.section_header.sh_link section tab.relocations m
    ok (record oc { sections = set oc.sections tab.target_section_index section' }, m'))
]

-- The outer loops.
unfoldable pub relocate_rel_tables :
    SymbolStore → ObjectCode → List ElfRelocationTable → Memory → Outcome (ObjectCode × Memory)
unfolding relocate_rel_table
relocate_rel_tables syms oc [] m = ok (oc, m)
relocate_rel_tables syms oc (tab ∷ tabs) m = do
  (oc', m') ← relocate_rel_table syms oc tab m
  relocate_rel_tables syms oc' tabs m'

unfoldable pub relocate_rela_tables :
    SymbolStore → ObjectCode → List ElfRelocationATable → Memory → Outcome (ObjectCode × Memory)
unfolding relocate_rela_table
relocate_rela_tables syms oc [] m = ok (oc, m)
relocate_rela_tables syms oc (tab ∷ tabs) m = do
  (oc', m') ← relocate_rela_table syms oc tab m
  relocate_rela_tables syms oc' tabs m'

-- The object, the memory, and the returned `bool`.
unfoldable pub relocate_object_code_arm :
    SymbolStore → ObjectCode → Memory → Outcome (ObjectCode × Memory × Bool)
unfolding relocate_rel_tables relocate_rela_tables
relocate_object_code_arm syms oc m = do
  (oc', m') ← relocate_rel_tables syms oc oc.info.rel_table m
  (oc'', m'') ← relocate_rela_tables syms oc' oc.info.rela_table m'
  ok (oc'', m'', exit_success)
