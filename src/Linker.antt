-- ===== src/Linker.antt =====
-- Linker.c: the table of global symbols, and `addSection`. `dlsym` is the dynamic linker's: the address
-- of a symbol of the process by its name, or 0. The table holds pointers to symbols, which the
-- objects share, so the functions that read or write a symbol take the symbol store.
pub mod Table
pub mod Refine
use liblink.Base.{
  ℕ, Bool, true, false, not, List, [], ◌∷◌, ◌++◌, Option, none, some, ◌==◌, if◌then◌else◌, Outcome,
  ok, fail, Fault, ◌>>=◌, ◌>>◌, assert, exit_success, exit_failure, ◌&&◌,
}
use liblink.Types.{
  ElfSymbol, SymbolStore, ObjectCode, Section, SectionAlloc, SectionFormatInfo, SectionKind,
  ElfShdr,
}
use liblink.BinaryTree.{Tree, null, node, binary_tree_insert, binary_tree_lookup}
use liblink.Hash.{hash}

-- `symbol` points into the symbol store. No code reads `oc` and `next` of the C structure.
pub record GlobalSymbol : Type 0 where
  pub symbol : ℕ
  pub is_weak : Bool

-- No code uses `symbols` of the C structure.
pub record Linker : Type 0 where
  pub gsyms : Tree GlobalSymbol
  pub objects : List ObjectCode

-- `*p = s`.
abbrev pub write_symbol : SymbolStore → ℕ → ElfSymbol → SymbolStore
write_symbol syms p s q = if q == p then s else syms q

-- What `insert_global_symbol` leaves: the linker, the symbols, and the returned `bool`.
pub record Inserted : Type 0 where
  pub linker : Linker
  pub symbols : SymbolStore
  pub result : Bool

unfoldable pub insert_strong : Linker → GlobalSymbol → SymbolStore → Outcome Inserted
insert_strong l g syms = do
  assert (not g.is_weak)
  gsyms ← binary_tree_insert l.gsyms (syms g.symbol).hash g
  ok (record { linker = record l { gsyms = gsyms }; symbols = syms; result = true })

-- `none` is `EXIT_FAILURE`, which leaves `*addr` alone.
unfoldable pub lookup_global_symbol : Tree GlobalSymbol → SymbolStore → ℕ → Option ℕ
lookup_global_symbol gsyms syms needle_hash = elim (binary_tree_lookup gsyms needle_hash) [
  | none ↦ none
  | some s ↦ some (syms s.symbol).addr
]

unfoldable pub lookup_global_symbol_ : Tree GlobalSymbol → SymbolStore → List ℕ → Option ℕ
lookup_global_symbol_ gsyms syms name = lookup_global_symbol gsyms syms (hash name)

module _ (dlsym : List ℕ → ℕ) where
  -- `*addr` and the returned `bool`.
  unfoldable pub lookup_system_symbols : List ℕ → ℕ × Bool
  lookup_system_symbols name =
      let addr = dlsym name in if addr == 0 then (addr, exit_failure) else (addr, exit_success)

  unfoldable pub insert_global_symbol : Linker → GlobalSymbol → SymbolStore → Outcome Inserted
  unfolding insert_strong lookup_system_symbols
  insert_global_symbol l g syms =
      if g.is_weak
      then (do
        let symbol = syms g.symbol
        assert (not (symbol.addr == 0))
        let (addr, failed) = lookup_system_symbols symbol.name
        let syms' = write_symbol syms g.symbol (record symbol { addr = addr })
        if failed
            then assert (not (addr == 0)) >> fail Fault.aborted
            else assert (not (addr == 0)) >> insert_strong l (record g { is_weak = false }) syms')
      else insert_strong l g syms

  -- 0 if neither table has the name.
  unfoldable pub lookup_symbol_ : Linker → SymbolStore → List ℕ → ℕ
  unfolding lookup_global_symbol lookup_global_symbol_ lookup_system_symbols
  lookup_symbol_ l syms name = elim (lookup_global_symbol_ l.gsyms syms name) [
    | some addr ↦ addr
    | none ↦ (lookup_system_symbols name).0
  ]

-- The symbols in the order in which `walk` prints them.
unfoldable pub walk : Tree GlobalSymbol → List GlobalSymbol
walk null = []
walk (node k g l r) = walk l ++ g ∷ walk r

-- `walk` reads its node without a test, and the table may be empty.
unfoldable pub list_global_symbols : Linker → Outcome (List GlobalSymbol)
unfolding walk
list_global_symbols l = elim l.gsyms [ null ↦ fail Fault.undefined | t ↦ ok (walk t) ]

-- A `SectionFormatInfo` from `calloc`: zeros, no stubs.
abbrev pub no_header : ElfShdr
no_header = record {
  sh_name = 0;
  sh_type = 0;
  sh_flags = 0;
  sh_offset = 0;
  sh_size = 0;
  sh_link = 0;
  sh_info = 0;
}

abbrev pub empty_info : SectionFormatInfo
empty_info = record {
  stub_offset = 0;
  stub_size = 0;
  nstubs = 0;
  stubs = [];
  name = 0;
  section_header = no_header;
}

unfoldable pub add_section :
    SectionKind → SectionAlloc → (start size mapped_offset mapped_start mapped_size : ℕ) → Section
add_section kind alloc start size mapped_offset mapped_start mapped_size = record {
  start = start;
  size = size;
  kind = kind;
  alloc = alloc;
  mapped_offset = mapped_offset;
  mapped_start = mapped_start;
  mapped_size = mapped_size;
  info = empty_info;
}
