-- ===== src/Got/Cells.antt =====
-- The loops of got.c over the tables of an object, as loops over the list of its symbols.
pub mod Spaced
pub mod Kept
pub mod Filling
pub mod Verified
use liblink.Base.{
  ℕ, zero, suc, ◌+◌, ◌*◌, ◌≡◌, refl, ap, ◌∙◌, sym, Bool, true, false, Bool-cases, not, ◌||◌, ◌==◌,
  bit_and, inl, inr, List, [], ◌∷◌, ◌++◌, if◌then◌else◌, arith, Outcome, ok, ◌>>=◌, ◌>>◌, assert,
  exit_success,
}
use liblink.Memory.{Memory}
use liblink.Types.{ElfSymbolTable, SymbolStore}
use liblink.Linker.{Linker, write_symbol}
use liblink.Got.{
  need_got_slot, assign_symbols, assign_tables, Filled, fill_symbol, fill_symbols, fill_tables,
  verify_symbols, verify_tables,
}

-- The pointers to the `n` symbols from `p` on, and to those of all tables.
unfoldable pub cells : ℕ → ℕ → List ℕ
cells p zero = []
cells p (suc n) = p ∷ cells (p + 1) n

unfoldable pub all_cells : List ElfSymbolTable → List ℕ
unfolding cells
all_cells [] = []
all_cells (t ∷ ts) = cells t.symbols t.n_symbols ++ all_cells ts

pub assign_list : ℕ → ℕ → SymbolStore → List ℕ → ℕ → SymbolStore
assign_list w start syms [] slot = syms
assign_list w start syms (p ∷ ps) slot =
    if need_got_slot (syms p).elf_sym
    then assign_list w start (write_symbol syms p (record (syms p) { got_addr = start + slot * w }))
        ps (slot + 1)
    else assign_list w start syms ps slot

assign_symbols-list :
    (w start : ℕ) (syms : SymbolStore) (p n slot : ℕ) (qs : List ℕ)
    → assign_list w start syms (cells p n ++ qs) slot
      ≡ assign_list w start
          (assign_symbols w start syms p n slot).0
          qs
          (assign_symbols w start syms p n slot).1
unfolding assign_list cells assign_symbols
assign_symbols-list w start syms p zero slot qs = refl
assign_symbols-list w start syms p (suc n) slot qs =
    elim (Bool-cases (need_got_slot (syms p).elf_sym)) [
      | inl need ↦ rw need (
          assign_symbols-list w start
            (write_symbol syms p (record (syms p) { got_addr = start + slot * w })) (p + 1) n
            (slot + 1) qs)
      | inr none ↦ rw none (assign_symbols-list w start syms (p + 1) n slot qs)
    ]

pub assign_tables-list :
    (w start : ℕ) (syms : SymbolStore) (ts : List ElfSymbolTable) (slot : ℕ)
    → (assign_tables w start syms ts slot).0 ≡ assign_list w start syms (all_cells ts) slot
unfolding assign_list all_cells assign_tables
assign_tables-list w start syms [] slot = refl
assign_tables-list w start syms (t ∷ ts) slot =
    let a = assign_symbols w start syms t.symbols t.n_symbols slot in
    assign_tables-list w start a.0 ts a.1
    ∙ sym (assign_symbols-list w start syms t.symbols t.n_symbols slot (all_cells ts))

module _ (dlsym : List ℕ → ℕ) (store : Memory → ℕ → ℕ → Memory) (l : Linker) where
  pub fill_list : SymbolStore → List ℕ → Memory → Filled
  fill_list syms [] m = record { symbols = syms; memory = m; status = exit_success }
  fill_list syms (p ∷ ps) m =
      let f = fill_symbol dlsym store l syms p m in
      let rest = fill_list f.symbols ps f.memory in if f.status then f else rest

  fill_symbols-list :
      (syms : SymbolStore) (p n : ℕ) (qs : List ℕ) (m : Memory)
      → fill_list syms (cells p n ++ qs) m ≡ (
          let f = fill_symbols dlsym store l syms p n m in
          if f.status then f else fill_list f.symbols qs f.memory)
  unfolding fill_list cells fill_symbols
  fill_symbols-list syms p zero qs m = refl
  fill_symbols-list syms p (suc n) qs m =
      let f = fill_symbol dlsym store l syms p m in
      elim (Bool-cases f.status) [
        | inl failed ↦ rw (failed, failed) refl
        | inr fine ↦ rw fine (fill_symbols-list f.symbols (p + 1) n qs f.memory)
      ]

  pub fill_tables-list :
      (syms : SymbolStore) (ts : List ElfSymbolTable) (m : Memory)
      → fill_tables dlsym store l syms ts m ≡ fill_list syms (all_cells ts) m
  unfolding fill_list all_cells fill_tables
  fill_tables-list syms [] m = refl
  fill_tables-list syms (t ∷ ts) m =
      let f = fill_symbols dlsym store l syms t.symbols t.n_symbols m in
      let one = fill_symbols-list syms t.symbols t.n_symbols (all_cells ts) m in
      let rest = fill_tables-list f.symbols ts f.memory in
      elim (Bool-cases f.status) [
        | inl failed ↦ rw (one, failed) refl
        | inr fine ↦ rw (one, fine) rest
      ]
