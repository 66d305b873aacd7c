-- ===== src/Elf/Symbols/Defined.antt =====
-- What a round of `get_names` does to a symbol that its object defines.
use liblink.Base.{
  ℕ, ◌+◌, ◌%◌, ◌^◌, ◌≡◌, ◌≢◌, refl, true, false, List, [], ◌∷◌, ◌++◌, none, some, ◌==◌, get_elem?,
  get_elem?-lt, if◌then◌else◌, ==_refl, ap, ◌∙◌, arith, ok, exit_failure,
}
use liblink.Memory.{Memory}
use liblink.Types.{ElfSymbol, Section, SymbolStore}
use liblink.BinaryTree.{binary_tree_lookup}
use liblink.Hash.{hash}
use liblink.Linker.{Inserted, write_symbol, lookup_symbol_, insert_global_symbol}
use liblink.Linker.Refine.{IsUnshared}
use liblink.Linker.Table.{insert_strong_symbol, lookup_symbol_-write_symbol}
use liblink.Got.{need_got_slot, fill_symbol, fill_slot}
use liblink.Elf.Symbols.{
  is_global, is_weak, is_bound, is_defined, is_in_special_section, is_regular_type,
  is_section_symbol, section_start, symbol_address, Named, enter_symbol, name_symbol,
}

module _ (dlsym : List ℕ → ℕ) (bits : ℕ) (sections : List Section) (p : ℕ) (st : Named) where
  abbrev at : ElfSymbol
  at = st.symbols p

  weak_unnamed :
      is_weak (st.symbols p) ≡ true
      → is_section_symbol (st.symbols p) ≡ false
      → (st.symbols p).elf_sym.st_shndx ≢ 0xfff2
      → name_symbol dlsym bits sections p st
        ≡ ok
            (record st { symbols = write_symbol st.symbols p (record (st.symbols p) { addr = 0 }) })
  unfolding name_symbol symbol_address enter_symbol
  weak_unnamed weak plain common = ground arith

  -- The address of a symbol that is defined in section `x`.
  strong_address :
      (x : Section)
      → is_global (st.symbols p) ≡ true
      → is_defined (st.symbols p) ≡ true
      → is_in_special_section (st.symbols p) ≡ false
      → is_regular_type (st.symbols p) ≡ true
      → get_elem? sections (st.symbols p).elf_sym.st_shndx ≡ some x
      → symbol_address bits sections (st.symbols p)
        ≡ ok ((x.start + (st.symbols p).elf_sym.st_value) % 2 ^ bits)
  unfolding symbol_address is_bound is_global is_weak is_defined is_in_special_section
      is_regular_type is_section_symbol section_start
  strong_address x global defined special regular found =
      ground (arith, get_elem?-lt sections (st.symbols p).elf_sym.st_shndx x found)

  unknown_unfilled :
      (store : Memory → ℕ → ℕ → Memory) (slot : ℕ) (syms : SymbolStore) (m : Memory)
      → is_weak (st.symbols p) ≡ true
      → binary_tree_lookup st.linker.gsyms (hash (st.symbols p).name) ≡ none
      → dlsym (st.symbols p).name ≡ 0
      → syms p ≡ record (st.symbols p) { addr = 0; got_addr = slot }
      → (fill_symbol dlsym store st.linker syms p m).status ≡ exit_failure
  unfolding is_weak fill_symbol fill_slot need_got_slot lookup_symbol_
  unknown_unfilled store slot syms m weak new unknown there = rw there (ground arith)

  -- For a weak symbol that neither the table nor the process knows, whether its object defines it or
  -- not, `get_names` sets the address to 0 and enters nothing, so that `fill_got` fails on it, whatever
  -- slot the symbol has got from `make_got`. It is not a section symbol, and not in SHN_COMMON.
  pub name_symbol-weak :
      (store : Memory → ℕ → ℕ → Memory)
      → is_weak (st.symbols p) ≡ true
      → is_section_symbol (st.symbols p) ≡ false
      → (st.symbols p).elf_sym.st_shndx ≢ 0xfff2
      → binary_tree_lookup st.linker.gsyms (hash (st.symbols p).name) ≡ none
      → dlsym (st.symbols p).name ≡ 0
      → (st' : Named) × (name_symbol dlsym bits sections p st ≡ ok st')
        × (st'.linker ≡ st.linker)
        × (st'.names ≡ st.names)
        × ((st'.symbols p).addr ≡ 0)
        × ((slot : ℕ) (syms : SymbolStore) (m : Memory)
            → syms p ≡ record (st'.symbols p) { got_addr = slot }
            → (fill_symbol dlsym store st'.linker syms p m).status ≡ exit_failure)
  unfolding is_weak
  name_symbol-weak store weak plain common new unknown =
      let s : ElfSymbol = record (st.symbols p) { addr = 0 } in
      let here : write_symbol st.symbols p s p ≡ s = rw (==_refl p) refl in
      (
        _,
        weak_unnamed weak plain common,
        refl,
        refl,
        ap (λ (x : ElfSymbol). x.addr) here,
        λ slot syms m there.
            unknown_unfilled store slot syms m weak new unknown
              (there ∙ ap (λ (x : ElfSymbol). record x { got_addr = slot }) here),
      )

  strong_entered :
      (st2 : Named) (r : Inserted)
      → (st2.symbols p).addr ≢ 0
      → is_global (st2.symbols p) ≡ true
      → insert_global_symbol dlsym st2.linker (record { symbol = p; is_weak = false }) st2.symbols
        ≡ ok r
      → r.result ≡ true
      → enter_symbol dlsym bits sections p st2
        ≡ ok (record {
          linker = r.linker;
          symbols = r.symbols;
          names = st2.names ++ (st2.symbols p).name ∷ [];
        })
  unfolding enter_symbol is_global is_weak
  strong_entered st2 r set global entered fine =
      let strong : is_weak (st2.symbols p) ≡ false = ground arith in
      rw (strong, global, entered, fine) (ground arith)

  -- A global symbol of type NOTYPE, OBJECT or FUNC that its object defines in section `x`, whose index
  -- is none of the reserved ones, is entered by `get_names` at the start of the section plus its value,
  -- where that is not 0: the search for its name finds that address, every name with another hash reads
  -- as before, and no other symbol changes. Its `hash` is that of its name and new to the table, and no
  -- entry of the table points to it yet.
  pub name_symbol-strong :
      (x : Section)
      → is_global (st.symbols p) ≡ true
      → is_defined (st.symbols p) ≡ true
      → is_in_special_section (st.symbols p) ≡ false
      → is_regular_type (st.symbols p) ≡ true
      → get_elem? sections (st.symbols p).elf_sym.st_shndx ≡ some x
      → (x.start + (st.symbols p).elf_sym.st_value) % 2 ^ bits ≢ 0
      → (st.symbols p).hash ≡ hash (st.symbols p).name
      → binary_tree_lookup st.linker.gsyms (st.symbols p).hash ≡ none
      → IsUnshared st.linker p
      → (st' : Named) × (name_symbol dlsym bits sections p st ≡ ok st')
        × (lookup_symbol_ dlsym st'.linker st'.symbols (st.symbols p).name
            ≡ (x.start + (st.symbols p).elf_sym.st_value) % 2 ^ bits)
        × ((name : List ℕ)
            → hash name ≢ (st.symbols p).hash
            → lookup_symbol_ dlsym st'.linker st'.symbols name
              ≡ lookup_symbol_ dlsym st.linker st.symbols name)
        × ((q : ℕ) → q ≢ p → st'.symbols q ≡ st.symbols q)
        × (st'.names ≡ st.names ++ (st.symbols p).name ∷ [])
  unfolding name_symbol enter_symbol
  name_symbol-strong x global defined special regular found set hashed fresh unshared =
      let a = (x.start + (st.symbols p).elf_sym.st_value) % 2 ^ bits in
      let syms = write_symbol st.symbols p (record (st.symbols p) { addr = a }) in
      let addressed = strong_address x global defined special regular found in
      let (r, entered, fine, same, reads) =
        insert_strong_symbol dlsym st.linker (record { symbol = p; is_weak = false }) syms refl
          (rw (==_refl p) fresh) in
      let here : syms p ≡ record (st.symbols p) { addr = a } = rw (==_refl p) refl in
      let other_hash : (name : List ℕ)
          → hash name ≢ (st.symbols p).hash
          → (if hash name == (syms p).hash
              then (syms p).addr
              else lookup_symbol_ dlsym st.linker syms name)
            ≡ lookup_symbol_ dlsym st.linker syms name =
        λ name other. rw here (ground arith) in
      let names_same : st.names ++ (syms p).name ∷ [] ≡ st.names ++ (st.symbols p).name ∷ [] =
        ap (λ (s : ElfSymbol). st.names ++ s.name ∷ []) here in
      let named : Named = record {
        linker = r.linker;
        symbols = r.symbols;
        names = st.names ++ (syms p).name ∷ [];
      } in
      (
        named,
        rw addressed (
            strong_entered (record st { symbols = syms }) r (rw here set) (rw here global) entered
              fine),
        reads (st.symbols p).name ∙ rw (here, hashed, ==_refl (hash (st.symbols p).name)) refl,
        (λ name other.
            reads name
            ∙ other_hash name other
            ∙ lookup_symbol_-write_symbol dlsym st.linker st.symbols p
                (record (st.symbols p) { addr = a }) name unshared),
        (λ q ne. ap (λ (f : SymbolStore). f q) same ∙ ground arith),
        names_same,
      )
