-- ===== src/Reloc/Arm64/Explicit.antt =====
-- Relocations of arm64 with implicit addends, which `decodeAddend_arm64` (elf/reloc/arm64.c) refuses.
use liblink.Base.{
  ℕ, zero, suc, ◌≡◌, ◌⊎◌, refl, sym, ap, ◌∙◌, inl, inr, Bool, true, Bool-cases, List, [], ◌∷◌, some,
  Option-cases, ok, >>=-eq-ok, ok-injective, get_elem?, set, Each,
}
use mathlib.Core.Path.{subst}
use liblink.Memory.{Memory}
use liblink.Types.{ElfRel, ElfRelocationTable, ObjectCode, Section, SymbolStore}
use liblink.Compat.{elf64_r_sym}
use liblink.Reloc.Util.{is_other}
use liblink.Reloc.Util.Find.{required_symbol}
use liblink.Reloc.Arm64.{decode_addend_arm64}
use liblink.Reloc.Arm64.Object.{
  relocate_rels, relocate_rel_table, relocate_rel_tables, relocate_rela_tables,
  relocate_object_code_arm64,
}

-- The table holds no relocation that is processed.
abbrev pub IsIdle : ObjectCode → ElfRelocationTable → Type 0
IsIdle oc tab =
    (section : Section) × (get_elem? oc.sections tab.target_section_index ≡ some section)
    × ((is_other section.kind ≡ true) ⊎ (tab.relocations ≡ []))

set-get_elem? :
    (xs : List Section) (i : ℕ) (x : Section) → get_elem? xs i ≡ some x → set xs i x ≡ xs
set-get_elem? [] i x e = absurd (cc)
set-get_elem? (y ∷ ys) zero x e = cc
set-get_elem? (y ∷ ys) (suc i) x e = ap (λ l. y ∷ l) (set-get_elem? ys i x e)

relocate_rels_ok :
    (oc : ObjectCode) (syms : SymbolStore) (link : ℕ) (section : Section) (rels : List ElfRel)
    (m : Memory) (r : Section × Memory)
    → relocate_rels oc syms link section rels m ≡ ok r
    → (rels ≡ []) × (r ≡ (section, m))
unfolding relocate_rels decode_addend_arm64
relocate_rels_ok oc syms link section [] m r e = (refl, sym (ok-injective e))
relocate_rels_ok oc syms link section (rel ∷ rels) m r e =
    let (symbol, found, rest) =
      >>=-eq-ok (required_symbol oc syms link (elf64_r_sym rel.r_info)) _ e in
    absurd (cc)

relocate_rel_table-IsIdle :
    (syms : SymbolStore) (oc : ObjectCode) (tab : ElfRelocationTable) (m : Memory)
    (r : ObjectCode × Memory)
    → relocate_rel_table syms oc tab m ≡ ok r
    → IsIdle oc tab × (r ≡ (oc, m))
unfolding relocate_rel_table
relocate_rel_table-IsIdle syms oc tab m r e =
    let i = tab.target_section_index in
    elim (Option-cases (get_elem? oc.sections i)) [
      | inl outside ↦ absurd (cc (rw (outside, relocate_rel_table) at e))
      | inr (section, there) ↦ elim (Bool-cases (is_other section.kind)) [
        | inl other ↦ (
          (section, there, inl other),
          sym (ok-injective (rw (there, other, relocate_rel_table) at e)),
        )
        | inr plain ↦
            let (x, done, returned) =
              >>=-eq-ok (relocate_rels oc syms tab.section_header.sh_link section tab.relocations m)
                (λ (x : Section × Memory). ok (record oc { sections = set oc.sections i x.0 }, x.1))
                (rw (there, plain, relocate_rel_table) at e) in
            let (empty, same) =
              relocate_rels_ok oc syms tab.section_header.sh_link section tab.relocations m x
                done in
            (
              (section, there, inr empty),
              sym (ok-injective returned)
                  ∙ ap
                      (λ (y : Section × Memory).
                        (record oc { sections = set oc.sections i y.0 }, y.1))
                      same
                  ∙ ap (λ (l : List Section). (record oc { sections = l }, m))
                      (set-get_elem? oc.sections i section there),
            )
      ]
    ]

relocate_rel_tables-IsIdle :
    (syms : SymbolStore) (oc : ObjectCode) (tabs : List ElfRelocationTable) (m : Memory)
    (r : ObjectCode × Memory)
    → relocate_rel_tables syms oc tabs m ≡ ok r
    → Each (IsIdle oc) tabs × (r ≡ (oc, m))
unfolding relocate_rel_tables
relocate_rel_tables-IsIdle syms oc [] m r e = (tt, sym (ok-injective e))
relocate_rel_tables-IsIdle syms oc (tab ∷ tabs) m r e =
    let (x, done, rest) = >>=-eq-ok (relocate_rel_table syms oc tab m) _ e in
    let (idle, same) = relocate_rel_table-IsIdle syms oc tab m x done in
    let (others, last) = relocate_rel_tables-IsIdle syms oc tabs m r (
      subst (λ (y : ObjectCode × Memory). relocate_rel_tables syms y.0 tabs y.1 ≡ ok r) same
        rest) in
    ((idle, others), last)

-- Where `relocate_object_code_arm64` returns, every table of relocations with implicit addends is empty
-- or stands for a section of kind OTHER: no object with such a relocation for another section is
-- relocated. The result is that of the tables with explicit addends alone, on the object and the
-- memory as they were.
pub relocate_object_code_arm64_explicit :
    (syms : SymbolStore) (oc oc' : ObjectCode) (m m' : Memory) (status : Bool)
    → relocate_object_code_arm64 syms oc m ≡ ok (oc', m', status)
    → Each (IsIdle oc) oc.info.rel_table
      × (relocate_rela_tables syms oc oc.info.rela_table m ≡ ok (oc', m'))
unfolding relocate_object_code_arm64
relocate_object_code_arm64_explicit syms oc oc' m m' status e =
    let (x, first, rest) = >>=-eq-ok (relocate_rel_tables syms oc oc.info.rel_table m) _ e in
    let (idle, same) = relocate_rel_tables-IsIdle syms oc oc.info.rel_table m x first in
    let (y, second, returned) =
      >>=-eq-ok (relocate_rela_tables syms x.0 oc.info.rela_table x.1) _ rest in
    (
      idle,
      subst
            (λ (z : ObjectCode × Memory).
              relocate_rela_tables syms z.0 oc.info.rela_table z.1 ≡ ok y)
            same second
          ∙ ap (λ (z : ObjectCode × Memory × Bool). ok (z.0, z.1)) (ok-injective returned),
    )
