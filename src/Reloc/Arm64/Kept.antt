-- ===== src/Reloc/Arm64/Kept.antt =====
-- What the relocation of a whole object leaves as it was.
use liblink.Base.{
  ℕ, zero, suc, ◌≡◌, refl, sym, ap, ◌∙◌, inl, inr, Bool, true, false, Bool-cases, List, [], ◌∷◌,
  some, Option-cases, ok, >>=-eq-ok, ok-injective, exit_success, get_elem?, set, get_elem?-set_ne,
  ◌==◌, ==_iff, ==_refl,
}
use mathlib.Core.Path.{subst}
use liblink.Memory.{Memory}
use liblink.Types.{
  ElfRel, ElfRela, ElfRelocationTable, ElfRelocationATable, ObjectCode, Section, SymbolStore,
}
use liblink.Compat.{elf64_r_sym}
use liblink.Reloc.Util.{is_other}
use liblink.Reloc.Util.Find.{required_symbol}
use liblink.Reloc.Arm64.{decode_addend_arm64, relocate_one}
use liblink.Reloc.Arm64.Frame.{SameButStubs, relocate_one_writes}
use liblink.Reloc.Arm64.Object.{
  relocate_rels, relocate_relas, relocate_rel_table, relocate_rela_table, relocate_rel_tables,
  relocate_rela_tables, relocate_object_code_arm64,
}

SameButStubs-trans : (a b c : Section) → SameButStubs a b → SameButStubs b c → SameButStubs a c
SameButStubs-trans a b c e f =
    f
    ∙ ap
        (λ (x : Section). record x {
          info = record x.info { nstubs = c.info.nstubs; stubs = c.info.stubs };
        })
        e

-- `oc'` is `oc`, but for the chains of stubs and their numbers, in sections whose kind is not OTHER.
pub record Kept (oc oc' : ObjectCode) : Type 0 where
  pub rest : oc' ≡ record oc { sections = oc'.sections }
  pub each :
      (i : ℕ) (s : Section)
      → get_elem? oc.sections i ≡ some s
      → (s' : Section) × (get_elem? oc'.sections i ≡ some s')
        × SameButStubs s s'
        × (is_other s.kind ≡ true → s' ≡ s)

Kept-refl : (oc : ObjectCode) → Kept oc oc
Kept-refl oc = record { rest = refl; each = λ i s at. (s, at, refl, λ other. refl) }

Kept-trans : (a b c : ObjectCode) → Kept a b → Kept b c → Kept a c
Kept-trans a b c p q = record {
  rest = q.rest ∙ ap (λ (x : ObjectCode). record x { sections = c.sections }) p.rest;
  each = λ i s at.
      let (s1, at1, same1, other1) = p.each i s at in
      let (s2, at2, same2, other2) = q.each i s1 at1 in
      (
        s2,
        at2,
        SameButStubs-trans s s1 s2 same1 same2,
        λ other.
            other2 (ap (λ (x : Section). is_other x.kind) (other1 other) ∙ other) ∙ other1 other,
      );
}

get_elem?-set_there :
    (xs : List Section) (i : ℕ) (v x : Section)
    → get_elem? xs i ≡ some x
    → get_elem? (set xs i v) i ≡ some v
get_elem?-set_there [] i v x e = absurd (cc)
get_elem?-set_there (y ∷ ys) zero v x e = refl
get_elem?-set_there (y ∷ ys) (suc i) v x e = get_elem?-set_there ys i v x e

-- One section is replaced by one that differs in its stubs.
Kept-set :
    (oc : ObjectCode) (j : ℕ) (section section' : Section)
    → get_elem? oc.sections j ≡ some section
    → is_other section.kind ≡ false
    → SameButStubs section section'
    → Kept oc (record oc { sections = set oc.sections j section' })
Kept-set oc j section section' there plain same = record {
  rest = refl;
  each = λ i s at. elim (Bool-cases (j == i)) [
    | inl hit ↦
        let e : j ≡ i = (==_iff j i).0 hit in
        let here : section ≡ s = cc in
        (
          section',
          subst (λ q. get_elem? (set oc.sections j section') q ≡ some section') e
              (get_elem?-set_there oc.sections j section' section there),
          same
              ∙ ap
                  (λ (x : Section). record x {
                    info = record x.info {
                      nstubs = section'.info.nstubs;
                      stubs = section'.info.stubs;
                    };
                  })
                  here,
          λ other. absurd (cc (ap (λ (x : Section). is_other x.kind) here)),
        )
    | inr miss ↦ (
      s,
      get_elem?-set_ne oc.sections j i section' (λ e. cc (==_refl j)) ∙ at,
      refl,
      λ other. refl,
    )
  ];
}

relocate_rels-SameButStubs :
    (oc : ObjectCode) (syms : SymbolStore) (link : ℕ) (section section' : Section)
    (rels : List ElfRel) (m m' : Memory)
    → relocate_rels oc syms link section rels m ≡ ok (section', m')
    → SameButStubs section section'
unfolding relocate_rels decode_addend_arm64
relocate_rels-SameButStubs oc syms link section section' [] m m' e =
    subst (SameButStubs section) (ap (λ (x : Section × Memory). x.0) (ok-injective e)) refl
relocate_rels-SameButStubs oc syms link section section' (rel ∷ rels) m m' e =
    let (symbol, found, rest) =
      >>=-eq-ok (required_symbol oc syms link (elf64_r_sym rel.r_info)) _ e in
    absurd (cc)

relocate_relas-SameButStubs :
    (oc : ObjectCode) (syms : SymbolStore) (link : ℕ) (section section' : Section)
    (relas : List ElfRela) (m m' : Memory)
    → relocate_relas oc syms link section relas m ≡ ok (section', m')
    → SameButStubs section section'
unfolding relocate_relas
relocate_relas-SameButStubs oc syms link section section' [] m m' e =
    subst (SameButStubs section) (ap (λ (x : Section × Memory). x.0) (ok-injective e)) refl
relocate_relas-SameButStubs oc syms link section section' (rela ∷ relas) m m' e =
    let (symbol, found, rest) =
      >>=-eq-ok (required_symbol oc syms link (elf64_r_sym rela.rel.r_info)) _ e in
    let ((s, g), done, more) =
      >>=-eq-ok (relocate_one section rela.rel symbol rela.r_addend m) _ rest in
    SameButStubs-trans section s section'
      (relocate_one_writes section s rela.rel symbol rela.r_addend m g done).0
      (relocate_relas-SameButStubs oc syms link s section' relas g m' more)

relocate_rel_table-Kept :
    (syms : SymbolStore) (oc oc' : ObjectCode) (tab : ElfRelocationTable) (m m' : Memory)
    → relocate_rel_table syms oc tab m ≡ ok (oc', m')
    → Kept oc oc'
unfolding relocate_rel_table
relocate_rel_table-Kept syms oc oc' tab m m' e =
    elim (Option-cases (get_elem? oc.sections tab.target_section_index)) [
      | inl outside ↦ absurd (cc (rw (outside, relocate_rel_table) at e))
      | inr (section, there) ↦ elim (Bool-cases (is_other section.kind)) [
        | inl other ↦
            subst (Kept oc)
              (ap (λ (x : ObjectCode × Memory). x.0)
                (ok-injective (rw (there, other, relocate_rel_table) at e)))
              (Kept-refl oc)
        | inr plain ↦
            let ((section', g), done, returned) =
              >>=-eq-ok (relocate_rels oc syms tab.section_header.sh_link section tab.relocations m)
                (λ (x : Section × Memory).
                  ok (record oc { sections = set oc.sections tab.target_section_index x.0 }, x.1))
                (rw (there, plain, relocate_rel_table) at e) in
            subst (Kept oc) (ap (λ (x : ObjectCode × Memory). x.0) (ok-injective returned)) (
              Kept-set oc tab.target_section_index section section' there plain (
                relocate_rels-SameButStubs oc syms tab.section_header.sh_link section section'
                  tab.relocations m g done))
      ]
    ]

relocate_rel_tables-Kept :
    (syms : SymbolStore) (oc oc' : ObjectCode) (tabs : List ElfRelocationTable) (m m' : Memory)
    → relocate_rel_tables syms oc tabs m ≡ ok (oc', m')
    → Kept oc oc'
unfolding relocate_rel_tables
relocate_rel_tables-Kept syms oc oc' [] m m' e =
    subst (Kept oc) (ap (λ (x : ObjectCode × Memory). x.0) (ok-injective e)) (Kept-refl oc)
relocate_rel_tables-Kept syms oc oc' (tab ∷ tabs) m m' e =
    let ((oc1, g), done, rest) = >>=-eq-ok (relocate_rel_table syms oc tab m) _ e in
    Kept-trans oc oc1 oc' (relocate_rel_table-Kept syms oc oc1 tab m g done)
      (relocate_rel_tables-Kept syms oc1 oc' tabs g m' rest)

relocate_rela_table-Kept :
    (syms : SymbolStore) (oc oc' : ObjectCode) (tab : ElfRelocationATable) (m m' : Memory)
    → relocate_rela_table syms oc tab m ≡ ok (oc', m')
    → Kept oc oc'
unfolding relocate_rela_table
relocate_rela_table-Kept syms oc oc' tab m m' e =
    elim (Option-cases (get_elem? oc.sections tab.target_section_index)) [
      | inl outside ↦ absurd (cc (rw (outside, relocate_rela_table) at e))
      | inr (section, there) ↦ elim (Bool-cases (is_other section.kind)) [
        | inl other ↦
            subst (Kept oc)
              (ap (λ (x : ObjectCode × Memory). x.0)
                (ok-injective (rw (there, other, relocate_rela_table) at e)))
              (Kept-refl oc)
        | inr plain ↦
            let ((section', g), done, returned) =
              >>=-eq-ok
                (relocate_relas oc syms tab.section_header.sh_link section tab.relocations m)
                (λ (x : Section × Memory).
                  ok (record oc { sections = set oc.sections tab.target_section_index x.0 }, x.1))
                (rw (there, plain, relocate_rela_table) at e) in
            subst (Kept oc) (ap (λ (x : ObjectCode × Memory). x.0) (ok-injective returned)) (
              Kept-set oc tab.target_section_index section section' there plain (
                relocate_relas-SameButStubs oc syms tab.section_header.sh_link section section'
                  tab.relocations m g done))
      ]
    ]

relocate_rela_tables-Kept :
    (syms : SymbolStore) (oc oc' : ObjectCode) (tabs : List ElfRelocationATable) (m m' : Memory)
    → relocate_rela_tables syms oc tabs m ≡ ok (oc', m')
    → Kept oc oc'
unfolding relocate_rela_tables
relocate_rela_tables-Kept syms oc oc' [] m m' e =
    subst (Kept oc) (ap (λ (x : ObjectCode × Memory). x.0) (ok-injective e)) (Kept-refl oc)
relocate_rela_tables-Kept syms oc oc' (tab ∷ tabs) m m' e =
    let ((oc1, g), done, rest) = >>=-eq-ok (relocate_rela_table syms oc tab m) _ e in
    Kept-trans oc oc1 oc' (relocate_rela_table-Kept syms oc oc1 tab m g done)
      (relocate_rela_tables-Kept syms oc1 oc' tabs g m' rest)

-- Where `relocate_object_code_arm64` returns, it returns `EXIT_SUCCESS`, and it has changed nothing of
-- the object but the chains of stubs of its sections, and their numbers: a section of kind OTHER is as
-- before.
pub relocate_object_code_arm64-Kept :
    (syms : SymbolStore) (oc oc' : ObjectCode) (m m' : Memory) (status : Bool)
    → relocate_object_code_arm64 syms oc m ≡ ok (oc', m', status)
    → Kept oc oc' × (status ≡ exit_success)
unfolding relocate_object_code_arm64
relocate_object_code_arm64-Kept syms oc oc' m m' status e =
    let ((oc1, g), first, rest) = >>=-eq-ok (relocate_rel_tables syms oc oc.info.rel_table m) _ e in
    let ((oc2, h), second, returned) =
      >>=-eq-ok (relocate_rela_tables syms oc1 oc.info.rela_table g) _ rest in
    (
      Kept-trans oc oc1 oc' (relocate_rel_tables-Kept syms oc oc1 oc.info.rel_table m g first) (
          subst (Kept oc1) (ap (λ (x : ObjectCode × Memory × Bool). x.0) (ok-injective returned))
            (relocate_rela_tables-Kept syms oc1 oc2 oc.info.rela_table g h second)),
      sym (ap (λ (x : ObjectCode × Memory × Bool). x.2) (ok-injective returned)),
    )
