-- ===== src/Tests/Names.antt =====
-- A strong and a weak symbol of an object.
use liblink.Base.{ℕ, ◌+◌, ◌*◌, ◌%◌, ◌^◌, ◌≡◌, ◌≢◌, refl, List, [], ◌∷◌, arith, ok, exit_failure}
use liblink.Memory.{Memory, store64}
use liblink.Types.{ElfSymbol, SymbolStore}
use liblink.BinaryTree.{null, binary_tree_lookup}
use liblink.Hash.{hash}
use liblink.Linker.{lookup_symbol_}
use liblink.Got.{fill_symbol}
use liblink.Elf.Symbols.{
  Named, name_symbol, is_global, is_weak, is_defined, is_in_special_section, is_regular_type,
  is_section_symbol,
}
use liblink.Elf.Symbols.Defined.{name_symbol-strong, name_symbol-weak}
use liblink.Tests.Data.{no_sym, text}

abbrev nowhere : List ℕ → ℕ
nowhere name = 0

-- A function at 0x40 of section 0x1, whose binding is global or weak.
abbrev function : ℕ → ElfSymbol
function bind = record {
  name = b'f' ∷ [];
  addr = 0;
  hash = hash (b'f' ∷ []);
  got_addr = 0;
  elf_sym = record no_sym { st_info = 16 * bind + 2; st_shndx = 1; st_value = 0x40 };
}

abbrev start : ℕ → Named
start bind = record {
  linker = record { gsyms = null; objects = [] };
  symbols = λ p. function bind;
  names = [];
}

name_symbol-strong_example :
    (st' : Named) × (name_symbol nowhere 64 (text ∷ text ∷ []) 7 (start 1) ≡ ok st')
    × (lookup_symbol_ nowhere st'.linker st'.symbols (b'f' ∷ []) ≡ (0x10000 + 0x40) % 2 ^ 64)
    × ((name : List ℕ)
        → hash name ≢ hash (b'f' ∷ [])
        → lookup_symbol_ nowhere st'.linker st'.symbols name
          ≡ lookup_symbol_ nowhere (start 1).linker (start 1).symbols name)
    × ((q : ℕ) → q ≢ 7 → st'.symbols q ≡ function 1)
    × (st'.names ≡ (b'f' ∷ []) ∷ [])
unfolding is_global is_defined is_in_special_section is_regular_type binary_tree_lookup
name_symbol-strong_example =
    name_symbol-strong nowhere 64 (text ∷ text ∷ []) 7 (start 1) text refl refl refl refl refl
      (λ e. absurd (omega (arith, e))) refl refl (λ h s found. absurd (cc))

name_symbol-weak_example :
    (st' : Named) × (name_symbol nowhere 64 (text ∷ text ∷ []) 7 (start 2) ≡ ok st')
    × (st'.linker ≡ (start 2).linker)
    × (st'.names ≡ [])
    × ((st'.symbols 7).addr ≡ 0)
    × ((slot : ℕ) (syms : SymbolStore) (m : Memory)
        → syms 7 ≡ record (st'.symbols 7) { got_addr = slot }
        → (fill_symbol nowhere store64 st'.linker syms 7 m).status ≡ exit_failure)
unfolding is_weak is_section_symbol binary_tree_lookup
name_symbol-weak_example =
    name_symbol-weak nowhere 64 (text ∷ text ∷ []) 7 (start 2) store64 refl refl
      (λ e. absurd (omega (arith, e))) refl refl
