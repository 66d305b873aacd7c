-- ===== src/Linker/Table.antt =====
-- The table of global symbols as a map from names to addresses.
use liblink.Base.{
  ℕ, true, false, ◌≡◌, ◌≢◌, refl, inl, inr, Option-cases, List, none, some, ◌==◌, if◌then◌else◌,
  arith, ok, fail, Fault,
}
use liblink.Types.{ElfSymbol, SymbolStore}
use liblink.BinaryTree.{Tree, binary_tree_lookup}
use liblink.BinaryTree.Lookup.{lookup-insert}
use liblink.BinaryTree.Placed.{insert_duplicate}
use liblink.Hash.{hash}
use liblink.Linker.{
  GlobalSymbol, Linker, Inserted, write_symbol, insert_global_symbol, lookup_global_symbol,
  lookup_global_symbol_, lookup_symbol_,
}
use liblink.Linker.Refine.{IsUnshared}

module _ (dlsym : List ℕ → ℕ) (l : Linker) (g : GlobalSymbol) (syms : SymbolStore) where
  abbrev symbol : ElfSymbol
  symbol = syms g.symbol

  -- A strong symbol whose hash is new is entered: it changes no symbol, a name with its hash then
  -- reads its address, and every other name reads as before.
  pub insert_strong_symbol :
      g.is_weak ≡ false
      → binary_tree_lookup l.gsyms (syms g.symbol).hash ≡ none
      → (r : Inserted) × (insert_global_symbol dlsym l g syms ≡ ok r)
        × (r.result ≡ true)
        × (r.symbols ≡ syms)
        × ((name : List ℕ)
            → lookup_symbol_ dlsym r.linker r.symbols name ≡ (
                if hash name == (syms g.symbol).hash
                then (syms g.symbol).addr
                else lookup_symbol_ dlsym l syms name))
  unfolding insert_global_symbol lookup_symbol_
  insert_strong_symbol strong fresh =
      let (t, inserted, reads) = lookup-insert l.gsyms (syms g.symbol).hash g fresh in
      (
        record { linker = record l { gsyms = t }; symbols = syms; result = true },
        ground arith,
        refl,
        refl,
        λ name. ground (arith, reads (hash name)),
      )

  -- A weak symbol is bound to the symbol of the process with its name, if there is one: its address is
  -- replaced in place, and it is entered as a strong one.
  pub insert_weak_symbol :
      g.is_weak ≡ true
      → (syms g.symbol).addr ≢ 0
      → dlsym (syms g.symbol).name ≢ 0
      → binary_tree_lookup l.gsyms (syms g.symbol).hash ≡ none
      → (r : Inserted) × (insert_global_symbol dlsym l g syms ≡ ok r)
        × ((r.symbols g.symbol).addr ≡ dlsym (syms g.symbol).name)
        × ((p : ℕ) → p ≢ g.symbol → r.symbols p ≡ syms p)
        × (lookup_global_symbol r.linker.gsyms r.symbols (syms g.symbol).hash
            ≡ some (dlsym (syms g.symbol).name))
  unfolding insert_global_symbol lookup_global_symbol
  insert_weak_symbol weak set known fresh =
      let a = dlsym (syms g.symbol).name in
      let g' : GlobalSymbol = record g { is_weak = false } in
      let (t, inserted, reads) = lookup-insert l.gsyms (syms g.symbol).hash g' fresh in
      (
        record {
          linker = record l { gsyms = t };
          symbols = write_symbol syms g.symbol (record symbol { addr = a });
          result = true;
        },
        ground arith,
        ground arith,
        λ p ne. ground arith,
        ground (arith, reads (syms g.symbol).hash),
      )

  -- A weak symbol that the process does not define stops the process at an assertion, before the
  -- call of `abort` that is written for this case.
  pub insert_weak_unknown :
      g.is_weak ≡ true
      → dlsym (syms g.symbol).name ≡ 0
      → insert_global_symbol dlsym l g syms ≡ fail Fault.assertion
  unfolding insert_global_symbol
  insert_weak_unknown weak unknown = ground arith

  -- A second symbol with the hash of an entry stops the process.
  pub insert_duplicate_symbol :
      (other : GlobalSymbol)
      → g.is_weak ≡ false
      → binary_tree_lookup l.gsyms (syms g.symbol).hash ≡ some other
      → insert_global_symbol dlsym l g syms ≡ fail Fault.aborted
  unfolding insert_global_symbol
  insert_duplicate_symbol other strong found =
      ground (arith, insert_duplicate l.gsyms (syms g.symbol).hash g other found)

-- A symbol that no entry points to may change without a change of what is found.
pub lookup_symbol_-write_symbol :
    (dlsym : List ℕ → ℕ) (l : Linker) (syms : SymbolStore) (p : ℕ) (s : ElfSymbol) (name : List ℕ)
    → IsUnshared l p
    → lookup_symbol_ dlsym l (write_symbol syms p s) name ≡ lookup_symbol_ dlsym l syms name
unfolding lookup_symbol_
lookup_symbol_-write_symbol dlsym l syms p s name unshared =
    elim (Option-cases (binary_tree_lookup l.gsyms (hash name))) [
      | inl missing ↦ ground arith
      | inr (g, found) ↦ ground (arith, unshared (hash name) g found)
    ]

-- Names with one hash are one symbol to the table: the names themselves are not compared.
pub lookup_global_symbol_collides :
    (gsyms : Tree GlobalSymbol) (syms : SymbolStore) (a b : List ℕ)
    → hash a ≡ hash b
    → lookup_global_symbol_ gsyms syms a ≡ lookup_global_symbol_ gsyms syms b
unfolding lookup_global_symbol_
lookup_global_symbol_collides gsyms syms a b e = rw e
