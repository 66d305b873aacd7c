-- ===== src/Got/Cells/Kept.antt =====
-- The slots and addresses of the symbols, before and after `fill_got` (elf/got.c).
use liblink.Base.{
  Each, ℕ, ◌≡◌, ◌≢◌, ◌<◌, ◌^◌, refl, Option-cases, bit_and, inl, inr, List, [], ◌∷◌, arith,
}
use liblink.Memory.{Memory}
use liblink.Types.{SymbolStore}
use liblink.BinaryTree.{binary_tree_lookup}
use liblink.Hash.{hash}
use liblink.Linker.{Linker, lookup_symbol_, lookup_system_symbols}
use liblink.Got.{fill_slot, fill_symbol}
use liblink.Got.Cells.{fill_list}

-- The upper 16 bits are clear.
abbrev pub IsCanonical : ℕ → ℕ → Type 0
IsCanonical bits a = (a < 2 ^ bits) × (bit_and a 0xffff000000000000 ≡ 0)

-- The same slots and ELF symbols.
abbrev pub SameSlots : SymbolStore → SymbolStore → Type 0
SameSlots syms base =
    (q : ℕ) → ((syms q).got_addr ≡ (base q).got_addr) × ((syms q).elf_sym ≡ (base q).elf_sym)

abbrev pub AllCanonical : ℕ → SymbolStore → Type 0
AllCanonical bits syms = (q : ℕ) → IsCanonical bits (syms q).addr

module _ (dlsym : List ℕ → ℕ) (store : Memory → ℕ → ℕ → Memory) (l : Linker) where
  pub fill_symbol-SameSlots :
      (syms : SymbolStore) (p : ℕ) (m : Memory)
      → SameSlots (fill_symbol dlsym store l syms p m).symbols syms
  unfolding fill_symbol fill_slot
  fill_symbol-SameSlots syms p m q = ground arith

  pub fill_symbol_others :
      (syms : SymbolStore) (p : ℕ) (m : Memory) (q : ℕ)
      → p ≢ q
      → (fill_symbol dlsym store l syms p m).symbols q ≡ syms q
  unfolding fill_symbol fill_slot
  fill_symbol_others syms p m q ne = ground arith

  pub fill_list_others :
      (syms : SymbolStore) (ps : List ℕ) (m : Memory) (q : ℕ)
      → Each (λ p. p ≢ q) ps
      → (fill_list dlsym store l syms ps m).symbols q ≡ syms q
  unfolding fill_list
  fill_list_others syms [] m q other = refl
  fill_list_others syms (p ∷ ps) m q other =
      let f = fill_symbol dlsym store l syms p m in
      ground (
        arith,
        fill_symbol_others syms p m q other.0,
        fill_list_others f.symbols ps f.memory q other.1,
      )

  pub fill_list-SameSlots :
      (syms : SymbolStore) (ps : List ℕ) (m : Memory)
      → SameSlots (fill_list dlsym store l syms ps m).symbols syms
  unfolding fill_list
  fill_list-SameSlots syms [] m q = (refl, refl)
  fill_list-SameSlots syms (p ∷ ps) m q =
      let f = fill_symbol dlsym store l syms p m in
      ground (arith, fill_symbol-SameSlots syms p m q, fill_list-SameSlots f.symbols ps f.memory q)

  module _ (bits : ℕ) (known : (name : List ℕ) → IsCanonical bits (dlsym name)) where
    lookup_symbol_-IsCanonical :
        (syms : SymbolStore) (name : List ℕ)
        → AllCanonical bits syms
        → IsCanonical bits (lookup_symbol_ dlsym l syms name)
    unfolding lookup_symbol_ lookup_system_symbols
    lookup_symbol_-IsCanonical syms name all =
        elim (Option-cases (binary_tree_lookup l.gsyms (hash name))) [
          | inl missing ↦ rw (missing, lookup_symbol_) (ground (arith, known name))
          | inr (s, found) ↦ rw (found, lookup_symbol_) (all s.symbol)
        ]

    pub fill_symbol-AllCanonical :
        (syms : SymbolStore) (p : ℕ) (m : Memory)
        → AllCanonical bits syms
        → AllCanonical bits (fill_symbol dlsym store l syms p m).symbols
    unfolding fill_symbol fill_slot
    fill_symbol-AllCanonical syms p m all q =
        ground (arith, all q, lookup_symbol_-IsCanonical syms (syms p).name all)

    pub fill_list-AllCanonical :
        (syms : SymbolStore) (ps : List ℕ) (m : Memory)
        → AllCanonical bits syms
        → AllCanonical bits (fill_list dlsym store l syms ps m).symbols
    unfolding fill_list
    fill_list-AllCanonical syms [] m all q = all q
    fill_list-AllCanonical syms (p ∷ ps) m all q =
        let f = fill_symbol dlsym store l syms p m in
        let one = fill_symbol-AllCanonical syms p m all in
        ground (arith, one q, fill_list-AllCanonical f.symbols ps f.memory one q)
