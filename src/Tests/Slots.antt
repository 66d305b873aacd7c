-- ===== src/Tests/Slots.antt =====
-- Two global symbols and a local one, and their slots.
use liblink.Base.{
  Each, Distinct, Bool, Option, some, ok, arith, ℕ, ◌+◌, ◌*◌, ◌≡◌, ◌≢◌, ◌<◌, refl, true, List, [],
  ◌∷◌, exit_success, ◌==◌, if◌then◌else◌,
}
use liblink.Memory.{store64, load64}
use liblink.Types.{SymbolStore, ElfShdr, ElfSym, ObjectCode}
use liblink.BinaryTree.{null}
use liblink.Linker.{Linker, no_header}
use liblink.Got.{
  need_got_slot, assign_symbols, fill_symbol, fill_slot, make_got, fill_got, verify_got,
}
use liblink.Got.Cells.{all_cells}
use liblink.Got.Cells.Verified.{verify_got-fill_got}
use liblink.Memory.Words.{words64}
use liblink.Elf.Init.{mk_oc}
use liblink.Got.Slots.{slots_in, assign_symbols_lem}
use liblink.Got.Fill.{fill_symbol_lem}
use liblink.Tests.Data.{zeros, no_sym}

-- STB_GLOBAL and STT_FUNC, but for symbol 11, which is local.
abbrev symbols : SymbolStore
symbols p = record {
  name = p ∷ [];
  addr = 0x4000 + p;
  hash = p;
  got_addr = 0x9000 + 8 * p;
  elf_sym = record no_sym { st_info = if p == 11 then 2 else 18 };
}

assign_symbols_lem_example :
    ((i : ℕ)
      → i < 3
      → (assign_symbols 8 0x9000 symbols 10 3 0).0 (10 + i) ≡ (
          if need_got_slot (symbols (10 + i)).elf_sym
          then record (symbols (10 + i)) { got_addr = 0x9000 + (0 + slots_in symbols 10 i) * 8 }
          else symbols (10 + i)))
    × ((assign_symbols 8 0x9000 symbols 10 3 0).1 ≡ 0 + slots_in symbols 10 3)
assign_symbols_lem_example = assign_symbols_lem 8 0x9000 symbols 10 3 0

abbrev nowhere : List ℕ → ℕ
nowhere name = 0

abbrev empty_linker : Linker
empty_linker = record { gsyms = null; objects = [] }

needed : need_got_slot (symbols 10).elf_sym ≡ true
unfolding need_got_slot
needed = refl

filled : (fill_symbol nowhere store64 empty_linker symbols 10 zeros).status ≡ exit_success
unfolding fill_symbol fill_slot need_got_slot
filled = refl

fill_symbol_lem_example :
    ((fill_symbol nowhere store64 empty_linker symbols 10 zeros).memory
      ≡ store64 zeros 0x9050
          ((fill_symbol nowhere store64 empty_linker symbols 10 zeros).symbols 10).addr)
    × ((symbols 10).got_addr ≢ 0)
    × (((fill_symbol nowhere store64 empty_linker symbols 10 zeros).symbols 10).addr ≢ 0)
    × ((fill_symbol nowhere store64 empty_linker symbols 10 zeros).symbols 10
        ≡ record (symbols 10) { addr = 0x400a })
    × ((q : ℕ)
        → q ≢ 10
        → (fill_symbol nowhere store64 empty_linker symbols 10 zeros).symbols q ≡ symbols q)
fill_symbol_lem_example =
    fill_symbol_lem nowhere store64 empty_linker symbols 10 zeros needed filled

-- An object with one table, of the symbols 10, 11 and 12, and no slots.
abbrev fresh_symbols : SymbolStore
fresh_symbols p = record (symbols p) { addr = 0x4000; got_addr = 0 }

abbrev bare : ObjectCode
bare = mk_oc [] 0x5000 100 true Option.none 0

abbrev sym_table_header : ElfShdr
sym_table_header = record no_header { sh_type = 2 }

abbrev object : ObjectCode
object = record bare {
  info = record bare.info {
    section_headers = sym_table_header ∷ [];
    symbol_tables = record { index = 0; symbols = 10; n_symbols = 3; names = 0 } ∷ [];
  };
}

abbrev file_symbols : ElfShdr → List ElfSym
file_symbols h = (symbols 10).elf_sym ∷ (symbols 11).elf_sym ∷ (symbols 12).elf_sym ∷ []

abbrev one_page : ℕ → Option ℕ
one_page size = some 0x9000

abbrev made : ObjectCode × SymbolStore × Bool
made = make_got file_symbols one_page 8 object fresh_symbols

three-Distinct : Distinct (10 ∷ 11 ∷ 12 ∷ [])
three-Distinct = (
  ((λ e. absurd (omega (arith, e))), ((λ e. absurd (omega (arith, e))), tt)),
  (((λ e. absurd (omega (arith, e))), tt), (tt, tt)),
)

no_slots : Each (λ p. (fresh_symbols p).got_addr ≡ 0) (10 ∷ 11 ∷ 12 ∷ [])
no_slots = (refl, (refl, (refl, tt)))

verify_got-fill_got_example :
    verify_got load64 made.0
      (fill_got nowhere store64 empty_linker made.0 made.1 zeros).symbols
      (fill_got nowhere store64 empty_linker made.0 made.1 zeros).memory
    ≡ ok exit_success
unfolding make_got fill_got fill_symbol fill_slot need_got_slot mk_oc all_cells
verify_got-fill_got_example =
    verify_got-fill_got 8 64 load64 store64 words64 nowhere (λ name. (omega arith, refl))
      empty_linker file_symbols one_page object made.0 fresh_symbols made.1 zeros three-Distinct
      no_slots (λ q. (omega arith, refl)) refl refl
