-- ===== src/Reloc/Util/Find.antt =====
-- What `find_symbol` answers, and the symbol that the relocation loops take from it.
use liblink.Base.{
  ℕ, ◌+◌, ◌<◌, ◌≡◌, ◌≢◌, List, [], ◌∷◌, ◌++◌, none, some, arith, Outcome, ok, fail, Fault, ◌==◌,
  inl, inr, Bool-cases, Option-cases,
}
use liblink.Types.{ElfSymbol, ElfSymbolTable, ObjectCode, SymbolStore}
use liblink.Reloc.Util.{find_symbol_table, find_symbol}

-- `find_symbol`, its `assert` on the result, and the symbol that the pointer leads to.
unfoldable pub required_symbol : ObjectCode → SymbolStore → ℕ → ℕ → Outcome ElfSymbol
required_symbol oc syms table_index symbol_index = elim (find_symbol oc table_index symbol_index) [
  | none ↦ fail Fault.assertion
  | some p ↦ ok (syms p)
]

-- No table of the list has the index.
abbrev pub NoTable : ℕ → List ElfSymbolTable → Type 0
NoTable index [] = Unit {0}
NoTable index (t ∷ ts) = (t.index ≢ index) × NoTable index ts

find_symbol_table_first :
    (ts : List ElfSymbolTable) (index : ℕ) (t : ElfSymbolTable)
    → find_symbol_table ts index ≡ some t
    → (before after : List ElfSymbolTable) × (ts ≡ before ++ t ∷ after)
      × (t.index ≡ index)
      × NoTable index before
unfolding find_symbol_table
find_symbol_table_first [] index t e = absurd (cc)
find_symbol_table_first (x ∷ xs) index t e = elim (Bool-cases (x.index == index)) [
  | inl hit ↦ ([], xs, ground arith, ground arith, tt)
  | inr miss ↦
      let (before, after, split, at, none_before) =
        find_symbol_table_first xs index t (ground arith) in
      (x ∷ before, after, ground arith, at, (ground arith, none_before))
]

-- `find_symbol` answers a pointer into the first symbol table with the index, within its bounds.
pub find_symbol_bounds :
    (oc : ObjectCode) (table_index symbol_index p : ℕ)
    → find_symbol oc table_index symbol_index ≡ some p
    → (before after : List ElfSymbolTable) × (t : ElfSymbolTable) × (oc.info.symbol_tables
        ≡ before ++ t ∷ after)
      × (t.index ≡ table_index)
      × NoTable table_index before
      × (symbol_index < t.n_symbols)
      × (p ≡ t.symbols + symbol_index)
unfolding find_symbol
find_symbol_bounds oc table_index symbol_index p e =
    elim (Option-cases (find_symbol_table oc.info.symbol_tables table_index)) [
      | inl missing ↦ absurd (ground arith)
      | inr (t, found) ↦
          let (before, after, split, at, first) =
            find_symbol_table_first oc.info.symbol_tables table_index t found in
          (before, after, t, split, at, first, ground arith, ground arith)
    ]
