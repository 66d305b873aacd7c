-- ===== src/Elf/Symbols.antt =====
-- `get_names` (Elf.c): the addresses of an object's symbols, and their entry in the global table.
pub mod Defined
use liblink.Base.{
  ℕ, zero, suc, ◌+◌, ◌%◌, ◌^◌, Bool, true, false, not, ◌&&◌, ◌||◌, List, [], ◌∷◌, ◌++◌, none, some,
  ◌==◌, leb, ltb, u32, length, get_elem?, if◌then◌else◌, Outcome, ok, fail, Fault, ◌>>=◌, ◌>>◌,
  assert, exit_success,
}
use liblink.Compat.{elf_st_bind, elf_st_type}
use liblink.Types.{ElfSymbol, ElfSymbolTable, ObjectCode, Section, SymbolStore}
use liblink.Linker.{GlobalSymbol, Linker, Inserted, write_symbol, insert_global_symbol}

-- STB_LOCAL, STB_GLOBAL and STB_WEAK are 0, 1 and 2.
unfoldable pub is_local : ElfSymbol → Bool
is_local s = elf_st_bind s.elf_sym.st_info == 0

unfoldable pub is_global : ElfSymbol → Bool
is_global s = elf_st_bind s.elf_sym.st_info == 1

unfoldable pub is_weak : ElfSymbol → Bool
is_weak s = elf_st_bind s.elf_sym.st_info == 2

unfoldable pub is_bound : ElfSymbol → Bool
unfolding is_local is_global is_weak
is_bound s = is_local s || is_global s || is_weak s

unfoldable pub is_defined : ElfSymbol → Bool
is_defined s = not (s.elf_sym.st_shndx == 0)

-- SHN_LORESERVE is 0xff00.
unfoldable pub is_in_special_section : ElfSymbol → Bool
is_in_special_section s = leb 0xff00 s.elf_sym.st_shndx

-- STT_NOTYPE, STT_OBJECT, STT_FUNC and STT_SECTION are 0, 1, 2 and 3.
unfoldable pub is_regular_type : ElfSymbol → Bool
is_regular_type s = let type = elf_st_type s.elf_sym.st_info in type == 0 || type == 1 || type == 2

unfoldable pub is_section_symbol : ElfSymbol → Bool
is_section_symbol s = elf_st_type s.elf_sym.st_info == 3

-- `oc->sections[shndx].start`.
unfoldable pub section_start : List Section → ℕ → Outcome ℕ
section_start sections i = elim (get_elem? sections i) [
  | none ↦ fail Fault.undefined
  | some s ↦ ok s.start
]

-- The address that the loop gives to a symbol. SHN_COMMON is 0xfff2.
unfoldable pub symbol_address : ℕ → List Section → ElfSymbol → Outcome ℕ
unfolding is_bound is_defined is_in_special_section is_regular_type is_section_symbol section_start
symbol_address bits sections s =
    let shndx = s.elf_sym.st_shndx in
    do
      assert (not (shndx == 0xfff2))
      if is_section_symbol s
          then section_start sections shndx
          else (if is_weak s
              then ok 0
              else (if is_bound s
                    && is_defined s
                    && not (is_in_special_section s)
                    && is_regular_type s
                  then assert (ltb 0 shndx)
                    >> assert (ltb shndx (length sections))
                    >> assert (not (is_weak s))
                    >> (section_start sections shndx >>= λ start.
                        ok ((start + s.elf_sym.st_value) % 2 ^ bits))
                  else ok s.addr))

-- The linker, the symbols, and the names that were entered.
pub record Named : Type 0 where
  pub linker : Linker
  pub symbols : SymbolStore
  pub names : List (List ℕ)

module _ (dlsym : List ℕ → ℕ) (bits : ℕ) (sections : List Section) where
  -- The second half of the loop: a symbol with an address that is not local is entered.
  unfoldable pub enter_symbol : ℕ → Named → Outcome Named
  enter_symbol p st =
      let s = st.symbols p in
      if not (s.addr == 0) && (is_global s || is_weak s)
      then (do
        r ←
            insert_global_symbol dlsym st.linker (record { symbol = p; is_weak = is_weak s })
              st.symbols
        if r.result
            then ok
                (record { linker = r.linker; symbols = r.symbols; names = st.names ++ s.name ∷ [] })
            else fail Fault.aborted)
      else ok st

  unfoldable pub name_symbol : ℕ → Named → Outcome Named
  unfolding symbol_address enter_symbol
  name_symbol p st = do
    addr ← symbol_address bits sections (st.symbols p)
    enter_symbol p
        (record st { symbols = write_symbol st.symbols p (record (st.symbols p) { addr = addr }) })

  -- The loop over `n` symbols from `p` on, and the loop over the tables.
  unfoldable pub name_symbols : (p n : ℕ) → Named → Outcome Named
  unfolding name_symbol
  name_symbols p zero st = ok st
  name_symbols p (suc n) st = do st' ← name_symbol p st; name_symbols (p + 1) n st'

  unfoldable pub name_tables : List ElfSymbolTable → Named → Outcome Named
  unfolding name_symbols
  name_tables [] st = ok st
  name_tables (t ∷ ts) st = do st' ← name_symbols t.symbols t.n_symbols st; name_tables ts st'

-- `n_symbols` is an `unsigned`.
unfoldable pub total_symbols : List ElfSymbolTable → ℕ → ℕ
total_symbols [] n = n
total_symbols (t ∷ ts) n = total_symbols ts (u32 (n + t.n_symbols))

-- The only normal return is `EXIT_SUCCESS`.
unfoldable pub get_names :
    (List ℕ → ℕ)
    → ℕ
    → Linker
    → ObjectCode
    → SymbolStore
    → Outcome (Linker × ObjectCode × SymbolStore × Bool)
unfolding name_tables total_symbols
get_names dlsym bits l oc syms = do
  st ←
      name_tables dlsym bits oc.sections oc.info.symbol_tables
        (record { linker = l; symbols = syms; names = [] })
  ok (
    st.linker,
    record oc { symbols = st.names; n_symbols = total_symbols oc.info.symbol_tables 0 },
    st.symbols,
    exit_success,
  )
