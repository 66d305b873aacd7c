-- ===== src/Tests/Tables.antt =====
-- A small tree, a small table of symbols, and names.
use liblink.Base.{
  Distinct, ℕ, ◌+◌, ◌%◌, ◌^◌, ◌≡◌, ◌≢◌, ◌↔◌, refl, true, false, List, [], ◌∷◌, some, none, arith,
  ok, ◌==◌, if◌then◌else◌,
}
use liblink.Types.{ElfRelocationTable, ObjectCode, SymbolStore, object_needed}
use liblink.BinaryTree.{Tree, null, node, binary_tree_insert, binary_tree_lookup}
use liblink.BinaryTree.Order.{IsOrdered, insert-IsOrdered}
use liblink.BinaryTree.Lookup.{Has, lookup-insert, lookup-Has}
use liblink.Hash.{hash}
use liblink.Hash.Distinct.{hash_distinct}
use liblink.Linker.{
  GlobalSymbol, Linker, Inserted, insert_global_symbol, lookup_global_symbol, lookup_symbol_,
  no_header,
}
use liblink.Linker.Table.{insert_strong_symbol}
use liblink.Linker.Refine.{SymbolMap, Operation, insert, find, IsUnshared, inserted, run, spec_run}
use liblink.Linker.Refine.Runs.{run-spec_run}
use liblink.Plt.{number_of_stubs_for_section}
use liblink.Plt.Arm64.{arm64}
use liblink.Plt.Chain.Count.{wanted_rel, wanted_rela, number_of_stubs_for_section_lem}
use liblink.Tests.Data.{no_sym, text}

abbrev leaf : ℕ → Tree ℕ
leaf k = node k (k + 100) null null

abbrev tree : Tree ℕ
tree = node 5 105 (leaf 2) (leaf 9)

tree-IsOrdered : IsOrdered tree
tree-IsOrdered = ((omega arith, tt, tt), (omega arith, tt, tt), (tt, tt, tt, tt), (tt, tt, tt, tt))

lookup-insert_example :
    (t' : Tree ℕ) × (binary_tree_insert tree 7 107 ≡ ok t')
    × ((p : ℕ) → binary_tree_lookup t' p ≡ (if p == 7 then some 107 else binary_tree_lookup tree p))
lookup-insert_example = lookup-insert tree 7 107 (unfold binary_tree_lookup in refl)

lookup-Has_example : (binary_tree_lookup tree 9 ≡ some 109) ↔ Has 9 109 tree
lookup-Has_example = lookup-Has tree 9 109 tree-IsOrdered

insert-IsOrdered_example : IsOrdered (node 5 105 (leaf 2) (node 9 109 (leaf 7) null))
insert-IsOrdered_example =
    insert-IsOrdered tree (node 5 105 (leaf 2) (node 9 109 (leaf 7) null)) 7 107 tree-IsOrdered
      (unfold binary_tree_insert in refl)

-- "ab" and "ac".
hash_distinct_example : hash (97 ∷ 98 ∷ []) ≢ hash (97 ∷ 99 ∷ [])
hash_distinct_example = hash_distinct (97 ∷ []) [] 98 99 (omega arith) (omega arith) (omega arith)

-- The process defines "a" only, at 0x4000.
abbrev process : List ℕ → ℕ
process [] = 0
process (c ∷ cs) = if c == 97 then 0x4000 else 0

abbrev symbols : SymbolStore
symbols p = record {
  name = (97 + p) ∷ [];
  addr = 0x1000 + p;
  hash = 40 + p;
  got_addr = 0;
  elf_sym = no_sym;
}

abbrev strong_symbol : ℕ → GlobalSymbol
strong_symbol p = record { symbol = p; is_weak = false }

abbrev weak_symbol : ℕ → GlobalSymbol
weak_symbol p = record { symbol = p; is_weak = true }

abbrev linker : Linker
linker = record { gsyms = node 41 (strong_symbol 1) null null; objects = [] }

insert_strong_symbol_example :
    (r : Inserted) × (insert_global_symbol process linker (strong_symbol 2) symbols ≡ ok r)
    × (r.result ≡ true)
    × (r.symbols ≡ symbols)
    × ((name : List ℕ)
        → lookup_symbol_ process r.linker r.symbols name
          ≡ (if hash name == 42 then 0x1002 else lookup_symbol_ process linker symbols name))
insert_strong_symbol_example =
    insert_strong_symbol process linker (strong_symbol 2) symbols refl
      (unfold binary_tree_lookup in refl)

-- A strong and a weak insertion into an empty table, a search, and an insertion that is refused.
abbrev empty : Linker
empty = record { gsyms = null; objects = [] }

abbrev no_names : SymbolMap
no_names h = none

abbrev operations : List Operation
operations =
    insert (strong_symbol 2) ∷ find (98 ∷ []) ∷ insert (weak_symbol 0) ∷ insert (weak_symbol 3) ∷ []

empty-IsUnshared : (p : ℕ) → IsUnshared empty p
empty-IsUnshared p h s found = absurd (unfold binary_tree_lookup in cc)

Distinct-operations : Distinct (2 ∷ 0 ∷ 3 ∷ [])
Distinct-operations = ((ground arith, (ground arith, tt)), ((ground arith, tt), (tt, tt)))

run-spec_run_example :
    run process empty symbols operations ≡ spec_run process symbols no_names operations
unfolding inserted
run-spec_run_example =
    run-spec_run process operations empty symbols symbols no_names
      (λ h. unfold lookup_global_symbol binary_tree_lookup in refl)
      (empty-IsUnshared 2, (empty-IsUnshared 0, (empty-IsUnshared 3, tt))) Distinct-operations
      (refl, (refl, (refl, tt)))

-- An object with one table for section 1: a call and a word of data.
abbrev one_table : ElfRelocationTable
one_table = record {
  index = 2;
  target_section_index = 1;
  section_header = no_header;
  relocations = record { r_offset = 0; r_info = 283 } ∷ record { r_offset = 8; r_info = 257 } ∷ [];
}

abbrev object : ObjectCode
object = record {
  status = object_needed;
  file_name = [];
  file_size = 0;
  archive_member_name = none;
  symbols = [];
  n_symbols = 0;
  image = 0;
  image_mapped = true;
  misalignment = 0;
  info = record {
    section_headers = [];
    section_header_strtab = 0;
    symbol_tables = [];
    rel_table = one_table ∷ [];
    rela_table = [];
    got_start = 0;
    got_size = 0;
  };
  sections = text ∷ text ∷ [];
}

number_of_stubs_for_section_lem_example :
    number_of_stubs_for_section arm64 object 1
    ≡ (wanted_rel arm64 1 (one_table ∷ []) + wanted_rela arm64 1 []) % 2 ^ 32
number_of_stubs_for_section_lem_example = number_of_stubs_for_section_lem arm64 object 1
