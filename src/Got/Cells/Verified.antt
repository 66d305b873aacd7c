-- ===== src/Got/Cells/Verified.antt =====
-- `make_got`, `fill_got` and `verify_got` (elf/got.c), one after the other.
use liblink.Base.{
  Each, map-Each, Distinct, ℕ, zero, suc, ◌+◌, ◌≡◌, ◌⊎◌, ◌*◌, ltb, Option-cases, refl, ap, ◌∙◌, sym,
  Bool, Bool-cases, inl, inr, List, [], ◌∷◌, ◌++◌, Option, arith, ok, exit_success,
}
use mathlib.Core.Bool.{true≢false}
use mathlib.Core.Path.{subst}
use liblink.Memory.{Memory}
use liblink.Memory.Words.{Words}
use liblink.Types.{ElfSym, ElfShdr, ElfSymbolTable, ObjectCode, SymbolStore}
use liblink.Linker.{Linker}
use liblink.Got.{
  Filled, count_sections, fill_got, make_got, verify_symbols, verify_tables, verify_got,
}
use liblink.Got.Cells.{
  cells, all_cells, assign_list, assign_tables-list, fill_list, fill_tables-list,
}
use liblink.Got.Cells.Spaced.{
  Spaced, HasNeeded, assign_list-Spaced, assign_list_addr, Spaced-unslotted,
}
use liblink.Got.Cells.Filling.{IsFilled, fill_list-IsFilled}
use liblink.Got.Cells.Kept.{IsCanonical, AllCanonical, fill_list-AllCanonical}

left-Each : (P : ℕ → Type 0) (ps qs : List ℕ) → Each P (ps ++ qs) → Each P ps
left-Each P [] qs h = tt
left-Each P (p ∷ ps) qs h = (h.0, left-Each P ps qs h.1)

right-Each : (P : ℕ → Type 0) (ps qs : List ℕ) → Each P (ps ++ qs) → Each P qs
right-Each P [] qs h = h
right-Each P (p ∷ ps) qs h = right-Each P ps qs h.1

module _ (load : Memory → ℕ → ℕ) (m : Memory) (syms : SymbolStore) (bits : ℕ)
    (all : AllCanonical bits syms) where
  verify_symbols_fine :
      (p n : ℕ)
      → Each (IsFilled load m syms) (cells p n)
      → verify_symbols load m syms p n ≡ ok exit_success
  unfolding verify_symbols cells
  verify_symbols_fine p zero h = refl
  verify_symbols_fine p (suc n) h = ground (arith, all p, h.0, verify_symbols_fine (p + 1) n h.1)

  verify_tables_fine :
      (ts : List ElfSymbolTable)
      → Each (IsFilled load m syms) (all_cells ts)
      → verify_tables load m syms ts ≡ ok exit_success
  unfolding verify_tables all_cells
  verify_tables_fine [] h = refl
  verify_tables_fine (t ∷ ts) h =
      let cs = cells t.symbols t.n_symbols in
      rw
        (verify_symbols_fine t.symbols t.n_symbols
          (left-Each (IsFilled load m syms) cs (all_cells ts) h))
        (verify_tables_fine ts (right-Each (IsFilled load m syms) cs (all_cells ts) h))

-- The symbols that `make_got` leaves where it succeeds.
make_got_cases :
    (w : ℕ) (entries : ElfShdr → List ElfSym) (mmap : ℕ → Option ℕ) (oc oc' : ObjectCode)
    (syms syms' : SymbolStore)
    → make_got entries mmap w oc syms ≡ (oc', syms', exit_success)
    → (oc.info.symbol_tables ≡ oc'.info.symbol_tables)
      × ((syms ≡ syms')
          ⊎ ((start : ℕ) × (assign_list w start syms (all_cells oc.info.symbol_tables) 0 ≡ syms')))
unfolding make_got
make_got_cases w entries mmap oc oc' syms syms' made =
    let tables_same : (make_got entries mmap w oc syms).0.info.symbol_tables
        ≡ oc'.info.symbol_tables =
      ap (λ (r : ObjectCode × SymbolStore × Bool). r.0.info.symbol_tables) made in
    let symbols_same : (make_got entries mmap w oc syms).1 ≡ syms' =
      ap (λ (r : ObjectCode × SymbolStore × Bool). r.1) made in
    let fine : (make_got entries mmap w oc syms).2 ≡ exit_success =
      ap (λ (r : ObjectCode × SymbolStore × Bool). r.2) made in
    let slots = count_sections entries oc.info.section_headers in
    elim (Bool-cases (ltb 0 slots)) [
      | inr no_slots ↦ (rw no_slots at tables_same, inl (rw no_slots at symbols_same))
      | inl some_slots ↦ elim (Option-cases (mmap (slots * w))) [
        | inl failed ↦ absurd (true≢false (rw (some_slots, failed) at fine))
        | inr (start, mapped) ↦ (
          rw (some_slots, mapped) at tables_same,
          inr (
            start,
            sym (assign_tables-list w start syms oc.info.symbol_tables 0)
                ∙ (rw (some_slots, mapped) at symbols_same),
          ),
        )
      ]
    ]

module _ (w bits : ℕ) (load : Memory → ℕ → ℕ) (store : Memory → ℕ → ℕ → Memory)
    (words : Words w bits load store) (dlsym : List ℕ → ℕ)
    (known : (name : List ℕ) → IsCanonical bits (dlsym name)) (l : Linker) where
  -- After `make_got` and `fill_got` have returned `EXIT_SUCCESS`, `verify_got` finds the address of every
  -- symbol in its slot, and succeeds. The tables of the object hold different symbols, none of which
  -- had a slot before; all addresses are canonical, those of the process too; and words that are
  -- stored are read back.
  pub verify_got-fill_got :
      (entries : ElfShdr → List ElfSym) (mmap : ℕ → Option ℕ) (oc oc' : ObjectCode)
      (syms syms' : SymbolStore) (m : Memory)
      → Distinct (all_cells oc.info.symbol_tables)
      → Each (λ p. (syms p).got_addr ≡ 0) (all_cells oc.info.symbol_tables)
      → AllCanonical bits syms
      → make_got entries mmap w oc syms ≡ (oc', syms', exit_success)
      → (fill_got dlsym store l oc' syms' m).status ≡ exit_success
      → verify_got load oc'
          (fill_got dlsym store l oc' syms' m).symbols
          (fill_got dlsym store l oc' syms' m).memory
        ≡ ok exit_success
  unfolding make_got fill_got verify_got
  verify_got-fill_got entries mmap oc oc' syms syms' m distinct unslotted all made filled =
      let (tables, cases) = make_got_cases w entries mmap oc oc' syms syms' made in
      let ps = all_cells oc.info.symbol_tables in
      let slots : Spaced w syms' ps × Each (HasNeeded syms') ps × AllCanonical bits syms' =
        elim cases [
          | inl untouched ↦
              subst
                (λ (s : SymbolStore). Spaced w s ps × Each (HasNeeded s) ps × AllCanonical bits s)
                untouched
                (
                  Spaced-unslotted w syms ps unslotted,
                  map-Each ps (λ q zero_slot. inr zero_slot) unslotted,
                  all,
                )
          | inr (start, assigned) ↦
              let (spaced, owned) = assign_list-Spaced w start syms ps 0 distinct unslotted in
              subst
                (λ (s : SymbolStore). Spaced w s ps × Each (HasNeeded s) ps × AllCanonical bits s)
                assigned
                (
                  spaced,
                  map-Each ps (λ q is. is.0) owned,
                  λ q.
                      subst (IsCanonical bits) (sym (assign_list_addr w start syms ps 0 q)) (all q),
                )
        ] in
      let as_list : fill_got dlsym store l oc' syms' m ≡ fill_list dlsym store l syms' ps m =
        fill_tables-list dlsym store l syms' oc'.info.symbol_tables m
        ∙ ap (λ ts. fill_list dlsym store l syms' (all_cells ts) m) (sym tables) in
      let done : (fill_list dlsym store l syms' ps m).status ≡ exit_success =
        ap (λ (x : Filled). x.status) (sym as_list) ∙ filled in
      let each =
        fill_list-IsFilled w bits load store words dlsym known l syms' ps m done distinct slots.0
          slots.1 slots.2 in
      let out = fill_list dlsym store l syms' ps m in
      ap (λ (x : Filled). verify_got load oc' x.symbols x.memory) as_list
      ∙ verify_tables_fine load out.memory out.symbols bits
          (fill_list-AllCanonical dlsym store l bits known syms' ps m slots.2)
          oc'.info.symbol_tables
          (subst (λ ts. Each (IsFilled load out.memory out.symbols) (all_cells ts)) tables each)
