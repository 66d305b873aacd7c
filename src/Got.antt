-- ===== src/Got.antt =====
-- elf/got.c: the global offset table of an object. The symbol table of the file that `make_got`
-- counts in is given as the list of its entries, by section; `mmap` is a parameter (no address is
-- MAP_FAILED). `w` is the size of an address in bytes.
pub mod Slots
pub mod Fill
pub mod Cells
use liblink.Base.{
  ℕ, zero, suc, ◌+◌, ◌*◌, ◌%◌, ◌^◌, bit_and, Bool, true, false, not, ◌||◌, ◌&&◌, List, [], ◌∷◌,
  Option, none, some, ◌==◌, if◌then◌else◌, Outcome, ok, fail, Fault, ◌>>=◌, ◌>>◌, assert,
  exit_success, exit_failure, length, ltb,
}
use liblink.Compat.{elf_st_bind, elf_st_type}
use liblink.Memory.{Memory}
use liblink.Types.{ElfShdr, ElfSym, ElfSymbol, ElfSymbolTable, ObjectCode, SymbolStore}
use liblink.Linker.{Linker, write_symbol, lookup_symbol_}

-- STB_GLOBAL is 1, STB_WEAK is 2.
unfoldable pub need_got_slot : ElfSym → Bool
need_got_slot symbol = elf_st_bind symbol.st_info == 1 || elf_st_bind symbol.st_info == 2

-- The innermost loop that counts, over one SHT_SYMTAB section.
unfoldable pub count_slots : List ElfSym → ℕ
unfolding need_got_slot
count_slots [] = 0
count_slots (s ∷ ss) = (if need_got_slot s then 1 else 0) + count_slots ss

-- The loop that sets `got_addr`, over `n` symbols from the pointer `p` on; `slot` is passed on.
unfoldable pub assign_symbols : ℕ → ℕ → SymbolStore → (p n slot : ℕ) → SymbolStore × ℕ
assign_symbols w start syms p zero slot = (syms, slot)
assign_symbols w start syms p (suc n) slot =
    if need_got_slot (syms p).elf_sym
    then assign_symbols w start
        (write_symbol syms p (record (syms p) { got_addr = start + slot * w })) (p + 1) n (slot + 1)
    else assign_symbols w start syms (p + 1) n slot

unfoldable pub assign_tables : ℕ → ℕ → SymbolStore → List ElfSymbolTable → ℕ → SymbolStore × ℕ
unfolding assign_symbols
assign_tables w start syms [] slot = (syms, slot)
assign_tables w start syms (t ∷ ts) slot =
    let (syms', slot') = assign_symbols w start syms t.symbols t.n_symbols slot in
    assign_tables w start syms' ts slot'

-- SHT_SYMTAB is 2; `entries` reads the symbol table of a section.
unfoldable pub count_sections : (ElfShdr → List ElfSym) → List ElfShdr → ℕ
unfolding count_slots
count_sections entries [] = 0
count_sections entries (h ∷ hs) =
    (if h.sh_type == 2 then count_slots (entries h) else 0) + count_sections entries hs

-- The object, the symbols, and the returned `bool`.
unfoldable pub make_got :
    (ElfShdr → List ElfSym)
    → (ℕ → Option ℕ)
    → ℕ
    → ObjectCode
    → SymbolStore
    → ObjectCode × SymbolStore × Bool
unfolding count_sections assign_tables
make_got entries mmap w oc syms =
    let got_slots = count_sections entries oc.info.section_headers in
    let sized = record oc.info { got_size = got_slots * w } in
    if ltb 0 got_slots
    then elim (mmap (got_slots * w)) [
      | none ↦ (record oc { info = sized }, syms, exit_failure)
      | some mem ↦ (
        record oc { info = record sized { got_start = mem } },
        (assign_tables w mem syms oc.info.symbol_tables 0).0,
        exit_success,
      )
    ]
    else (oc, syms, exit_success)

-- What `fill_got` leaves: the symbols, the memory, and the returned `bool`.
pub record Filled : Type 0 where
  pub symbols : SymbolStore
  pub memory : Memory
  pub status : Bool

module _ (dlsym : List ℕ → ℕ) (store : Memory → ℕ → ℕ → Memory) where
  -- The body of the loop, behind the search for an undefined symbol; STT_NOTYPE is 0.
  unfoldable pub fill_slot : SymbolStore → ℕ → Memory → Filled
  fill_slot syms p m =
      let s = syms p in
      if s.addr == 0
      then record { symbols = syms; memory = m; status = exit_failure }
      else (if s.got_addr == 0
          then record { symbols = syms; memory = m; status = exit_failure }
          else record { symbols = syms; memory = store m s.got_addr s.addr; status = exit_success })

  unfoldable pub fill_symbol : Linker → SymbolStore → ℕ → Memory → Filled
  unfolding fill_slot need_got_slot
  fill_symbol l syms p m =
      let s = syms p in
      let undefined = elf_st_type s.elf_sym.st_info == 0 || elf_st_bind s.elf_sym.st_info == 2 in
      let found = lookup_symbol_ dlsym l syms s.name in
      if need_got_slot s.elf_sym
      then fill_slot
          (if undefined && s.addr == 0
            then write_symbol syms p (record s { addr = found })
            else syms)
          p m
      else record { symbols = syms; memory = m; status = exit_success }

  -- The loop over `n` symbols from `p` on, which returns at the first failure.
  unfoldable pub fill_symbols : Linker → SymbolStore → (p n : ℕ) → Memory → Filled
  unfolding fill_symbol
  fill_symbols l syms p zero m = record { symbols = syms; memory = m; status = exit_success }
  fill_symbols l syms p (suc n) m =
      let f = fill_symbol l syms p m in
      let rest = fill_symbols l f.symbols (p + 1) n f.memory in if f.status then f else rest

  unfoldable pub fill_tables : Linker → SymbolStore → List ElfSymbolTable → Memory → Filled
  unfolding fill_symbols
  fill_tables l syms [] m = record { symbols = syms; memory = m; status = exit_success }
  fill_tables l syms (t ∷ ts) m =
      let f = fill_symbols l syms t.symbols t.n_symbols m in
      let rest = fill_tables l f.symbols ts f.memory in if f.status then f else rest

  unfoldable pub fill_got : Linker → ObjectCode → SymbolStore → Memory → Filled
  unfolding fill_tables
  fill_got l oc syms m = fill_tables l syms oc.info.symbol_tables m

-- `load` reads an `addr_t`.
unfoldable pub verify_symbols : (Memory → ℕ → ℕ) → Memory → SymbolStore → (p n : ℕ) → Outcome Bool
verify_symbols load m syms p zero = ok exit_success
verify_symbols load m syms p (suc n) = do
  assert ((syms p).got_addr == 0 || load m (syms p).got_addr == (syms p).addr)
  assert (bit_and (syms p).addr 0xffff000000000000 == 0)
  verify_symbols load m syms (p + 1) n

unfoldable pub verify_tables :
    (Memory → ℕ → ℕ) → Memory → SymbolStore → List ElfSymbolTable → Outcome Bool
unfolding verify_symbols
verify_tables load m syms [] = ok exit_success
verify_tables load m syms (t ∷ ts) = do
  status ← verify_symbols load m syms t.symbols t.n_symbols
  verify_tables load m syms ts

unfoldable pub verify_got : (Memory → ℕ → ℕ) → ObjectCode → SymbolStore → Memory → Outcome Bool
unfolding verify_tables
verify_got load oc syms m = verify_tables load m syms oc.info.symbol_tables

unfoldable pub free_got : ObjectCode → ObjectCode
free_got oc = record oc { info = record oc.info { got_start = 0; got_size = 0 } }
