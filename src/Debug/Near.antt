-- ===== src/Debug/Near.antt =====
-- What `find_near_symbol` answers.
use liblink.Base.{
  ℕ, zero, suc, ◌+◌, ◌%◌, ◌^◌, ◌≤◌, ◌<◌, ◌≡◌, ◌≢◌, inl, inr, Bool, true, Option-cases, List, [],
  ◌∷◌, some, arith,
}
use liblink.Types.{ElfSymbol, ElfSymbolTable, SymbolStore}
use liblink.Linker.{Linker}
use liblink.Debug.{find_section, first_symbol, first_in_tables, covers, find_near_symbol}

first_symbol_passes :
    (test : ElfSymbol → Bool) (syms : SymbolStore) (p n q : ℕ)
    → first_symbol test syms p n ≡ some q
    → test (syms q) ≡ true
unfolding first_symbol
first_symbol_passes test syms p zero q e = absurd (cc)
first_symbol_passes test syms p (suc n) q e =
    ground (arith, first_symbol_passes test syms (p + 1) n q)

first_in_tables_passes :
    (test : ElfSymbol → Bool) (syms : SymbolStore) (ts : List ElfSymbolTable) (q : ℕ)
    → first_in_tables test syms ts ≡ some q
    → test (syms q) ≡ true
unfolding first_in_tables
first_in_tables_passes test syms [] q e = absurd (cc)
first_in_tables_passes test syms (t ∷ ts) q e =
    elim (Option-cases (first_symbol test syms t.symbols t.n_symbols)) [
      | inl missing ↦ first_in_tables_passes test syms ts q (ground arith)
      | inr (p, found) ↦ first_symbol_passes test syms t.symbols t.n_symbols q (ground arith)
    ]

-- The symbol that `find_near_symbol` answers has a size and covers the address.
pub find_near_symbol_covers :
    (bits : ℕ) (l : Linker) (syms : SymbolStore) (addr p : ℕ)
    → find_near_symbol bits l syms addr ≡ some p
    → ((syms p).elf_sym.st_size ≢ 0)
      × ((syms p).addr ≤ addr)
      × (addr < ((syms p).addr + (syms p).elf_sym.st_size) % 2 ^ bits)
unfolding find_near_symbol
find_near_symbol_covers bits l syms addr p e =
    elim (Option-cases (find_section bits l.objects addr)) [
      | inl missing ↦ absurd (ground arith)
      | inr ((oc, s), found) ↦
          let passed : covers bits addr (syms p) ≡ true =
            first_in_tables_passes (covers bits addr) syms oc.info.symbol_tables p (ground arith) in
          ground arith
    ]
