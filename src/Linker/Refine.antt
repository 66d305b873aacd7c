-- ===== src/Linker/Refine.antt =====
-- The table of global symbols (Linker.c) as a map from hashes to addresses.
pub mod Step
pub mod Runs
use liblink.Base.{
  Each, zip-Each, Distinct, ℕ, ◌≡◌, ◌≢◌, ◌⊎◌, refl, ap, sym, ◌∙◌, inl, inr, Bool, true, false,
  Bool-cases, ◌&&◌, ◌||◌, List, [], ◌∷◌, Option, none, some, Option-cases, ◌==◌, ==_refl,
  if◌then◌else◌, arith, Outcome, ok, fail, Fault, ◌>>=◌,
}
use mathlib.Core.Path.{subst}
use liblink.Types.{ObjectCode, ElfSymbol, SymbolStore}
use liblink.BinaryTree.{Tree, binary_tree_lookup}
use liblink.BinaryTree.Lookup.{lookup-insert}
use liblink.BinaryTree.Placed.{insert_duplicate}
use liblink.Hash.{hash}
use liblink.Linker.{
  GlobalSymbol, Linker, Inserted, write_symbol, insert_strong, insert_global_symbol,
  lookup_global_symbol, lookup_global_symbol_, lookup_symbol_, lookup_system_symbols,
}

-- What the users of the linker see of its table.
abbrev pub SymbolMap : Type 0
SymbolMap = ℕ → Option ℕ

-- The call of `insert_global_symbol` for the symbol at a pointer, or of `lookupSymbol_`.
pub data Operation : Type 0 where
  insert : GlobalSymbol → Operation
  find : List ℕ → Operation

-- A weak symbol takes the address that the process has for its name.
abbrev spec_addr : (List ℕ → ℕ) → ElfSymbol → Bool → ℕ
spec_addr dlsym s is_weak = if is_weak then dlsym s.name else s.addr

-- A hash is entered once.
pub spec_enter : SymbolMap → ℕ → ℕ → Outcome SymbolMap
spec_enter a k v = elim (a k) [
  | some other ↦ fail Fault.aborted
  | none ↦ ok (λ h. if h == k then some v else a h)
]

module _ (dlsym : List ℕ → ℕ) where
  pub spec_insert : SymbolMap → ElfSymbol → Bool → Outcome SymbolMap
  spec_insert a s is_weak =
      let addr = spec_addr dlsym s is_weak in
      if is_weak && (s.addr == 0 || addr == 0)
      then fail Fault.assertion
      else spec_enter a s.hash addr

  pub spec_find : SymbolMap → List ℕ → ℕ
  spec_find a name = elim (a (hash name)) [ some addr ↦ addr | none ↦ dlsym name ]

  -- The answers of a sequence of operations, by the map and by the linker.
  pub spec_run : SymbolStore → SymbolMap → List Operation → Outcome (List ℕ)
  spec_run syms a [] = ok []
  spec_run syms a (insert g ∷ ops) = do
    a' ← spec_insert a (syms g.symbol) g.is_weak
    spec_run syms a' ops
  spec_run syms a (find name ∷ ops) = do
    answers ← spec_run syms a ops
    ok (spec_find a name ∷ answers)

  pub run : Linker → SymbolStore → List Operation → Outcome (List ℕ)
  run l syms [] = ok []
  run l syms (insert g ∷ ops) = do
    r ← insert_global_symbol dlsym l g syms
    run r.linker r.symbols ops
  run l syms (find name ∷ ops) = do
    answers ← run l syms ops
    ok (lookup_symbol_ dlsym l syms name ∷ answers)

-- The symbols that are inserted.
unfoldable pub inserted : List Operation → List ℕ
inserted [] = []
inserted (insert g ∷ ops) = g.symbol ∷ inserted ops
inserted (find name ∷ ops) = inserted ops

abbrev pub Represents : Linker → SymbolStore → SymbolMap → Type 0
Represents l syms a = (h : ℕ) → lookup_global_symbol l.gsyms syms h ≡ a h

-- No entry of the table points to the symbol `p`.
abbrev pub IsUnshared : Linker → ℕ → Type 0
IsUnshared l p = (h : ℕ) (s : GlobalSymbol) → binary_tree_lookup l.gsyms h ≡ some s → s.symbol ≢ p
