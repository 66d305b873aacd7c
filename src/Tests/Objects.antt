-- ===== src/Tests/Objects.antt =====
-- An object with one relocation.
use liblink.Base.{
  Each, Option, ◌≢◌, ◌%◌, ◌^◌, ℕ, ◌+◌, ◌≤◌, ◌<◌, ◌≡◌, ◌⊎◌, refl, List, [], ◌∷◌, ◌++◌, some, true,
  none, ok, exit_success,
}
use liblink.Memory.{store64}
use liblink.Types.{
  ElfRel, ElfRelocationTable, ElfRelocationATable, ElfSymbolTable, ElfShdr, ObjectCode, SymbolStore,
  object_needed,
}
use liblink.Compat.Arm64.{arm64_constant}
use liblink.Plt.{next_stub_addr}
use liblink.Plt.Arm64.{arm64}
use liblink.Linker.{no_header}
use liblink.Reloc.Util.{find_symbol, is_other}
use liblink.Reloc.Util.Find.{NoTable, required_symbol, find_symbol_bounds}
use liblink.Reloc.Arm64.{relocate_one, encode_addend_arm64, compute_addend, compute_at, encode_at}
use liblink.Reloc.Arm64.Frame.{SameButStubs, relocate_one_writes}
use liblink.Reloc.Arm64.Object.{relocate_rela_tables, relocate_object_code_arm64}
use liblink.Reloc.Arm64.Kept.{Kept, relocate_object_code_arm64-Kept}
use liblink.Reloc.Arm64.Explicit.{IsIdle, relocate_object_code_arm64_explicit}
use liblink.BinaryTree.{null}
use liblink.Debug.{find_near_symbol, get_oc_info}
use liblink.Linker.{Linker}
use liblink.Debug.Near.{find_near_symbol_covers}
use liblink.Got.{fill_got, fill_symbol, need_got_slot, verify_got}
use liblink.Elf.Platform.{arm64_platform}
use liblink.Elf.Protect.{Call, mprotect_object_code}
use liblink.Elf.Process.{Resolved, resolve_object}
use liblink.Elf.Process.Success.{IsResolved, resolve_object-IsResolved}
use liblink.Tests.Data.{no_sym, zeros, text, far_symbol, info}

-- R_AARCH64_ABS64 at the start of the section, for symbol 0 of the table at hand.
abbrev data_word : ElfRel
data_word = record { r_offset = 0; r_info = 257 }

abbrev symbols : SymbolStore
symbols p = far_symbol

abbrev symbol_table : ElfSymbolTable
symbol_table = record { index = 3; symbols = 50; n_symbols = 2; names = 0 }

abbrev header : ElfShdr
header = record no_header { sh_link = 3 }

abbrev rela_table : ElfRelocationATable
rela_table = record {
  index = 2;
  target_section_index = 0;
  section_header = header;
  relocations = record { rel = data_word; r_addend = 16 } ∷ [];
}

abbrev rel_table : ElfRelocationTable
rel_table = record {
  index = 2;
  target_section_index = 0;
  section_header = header;
  relocations = [];
}

abbrev object : ObjectCode
object = record {
  status = object_needed;
  file_name = [];
  file_size = 0;
  archive_member_name = none;
  symbols = [];
  n_symbols = 0;
  image = 0;
  image_mapped = true;
  misalignment = 0;
  info = record {
    section_headers = [];
    section_header_strtab = 0;
    symbol_tables = symbol_table ∷ [];
    rel_table = [];
    rela_table = rela_table ∷ [];
    got_start = 0;
    got_size = 0;
  };
  sections = text ∷ [];
}

one_found : find_symbol object 3 1 ≡ some 51
unfolding find_symbol
one_found = refl

find_symbol_bounds_example :
    (before after : List ElfSymbolTable) × (t : ElfSymbolTable) × (symbol_table ∷ []
      ≡ before ++ t ∷ after)
    × (t.index ≡ 3)
    × NoTable 3 before
    × (1 < t.n_symbols)
    × (51 ≡ t.symbols + 1)
find_symbol_bounds_example = find_symbol_bounds object 3 1 51 one_found

relocated :
    relocate_one text data_word far_symbol 16 zeros ≡ ok (text, store64 zeros 0x10000 0x7f00000010)
unfolding relocate_one encode_addend_arm64 compute_addend arm64_constant compute_at encode_at
relocated = refl

relocate_one_writes_example :
    SameButStubs text text
    × ((a : ℕ)
        → (a < 0x10000) ⊎ (0x10008 ≤ a)
        → (a < next_stub_addr arm64 info) ⊎ (next_stub_addr arm64 info + 20 ≤ a)
        → store64 zeros 0x10000 0x7f00000010 a ≡ 0)
relocate_one_writes_example =
    relocate_one_writes text text data_word far_symbol 16 zeros (store64 zeros 0x10000 0x7f00000010)
      relocated

relocated_object :
    relocate_object_code_arm64 symbols object zeros
    ≡ ok (object, store64 zeros 0x10000 0x7f00000010, exit_success)
unfolding relocate_object_code_arm64 relocate_one encode_addend_arm64 compute_addend arm64_constant
    required_symbol find_symbol is_other compute_at encode_at
relocated_object = refl

relocate_object_code_arm64-Kept_example : Kept object object × (exit_success ≡ exit_success)
relocate_object_code_arm64-Kept_example =
    relocate_object_code_arm64-Kept symbols object object zeros (store64 zeros 0x10000 0x7f00000010)
      exit_success relocated_object

-- The object with an empty table of relocations with implicit addends.
abbrev explicit : ObjectCode
explicit = record object { info = record object.info { rel_table = rel_table ∷ [] } }

explicit_relocated :
    relocate_object_code_arm64 symbols explicit zeros
    ≡ ok (explicit, store64 zeros 0x10000 0x7f00000010, exit_success)
unfolding relocate_object_code_arm64 relocate_one encode_addend_arm64 compute_addend arm64_constant
    required_symbol find_symbol is_other compute_at encode_at
explicit_relocated = refl

relocate_object_code_arm64_explicit_example :
    Each (IsIdle explicit) (rel_table ∷ [])
    × (relocate_rela_tables symbols explicit (rela_table ∷ []) zeros
        ≡ ok (explicit, store64 zeros 0x10000 0x7f00000010))
relocate_object_code_arm64_explicit_example =
    relocate_object_code_arm64_explicit symbols explicit explicit zeros
      (store64 zeros 0x10000 0x7f00000010) exit_success explicit_relocated

-- The symbol at pointer 50 covers 16 bytes at the start of the section.
abbrev sized_symbols : SymbolStore
sized_symbols p = record far_symbol { addr = 0x10000; elf_sym = record no_sym { st_size = 16 } }

near_found :
    find_near_symbol 64 (record { gsyms = null; objects = object ∷ [] }) sized_symbols 0x10008
    ≡ some 50
unfolding find_near_symbol
near_found = refl

find_near_symbol_covers_example :
    ((sized_symbols 50).elf_sym.st_size ≢ 0)
    × ((sized_symbols 50).addr ≤ 0x10008)
    × (0x10008 < ((sized_symbols 50).addr + (sized_symbols 50).elf_sym.st_size) % 2 ^ 64)
find_near_symbol_covers_example =
    find_near_symbol_covers 64 (record { gsyms = null; objects = object ∷ [] }) sized_symbols
      0x10008 50 near_found

abbrev nowhere : List ℕ → ℕ
nowhere name = 0

abbrev no_pages : ℕ → ℕ → Option ℕ
no_pages k size = none

abbrev protects : Call → ℕ
protects c = 0

abbrev no_linker : Linker
no_linker = record { gsyms = null; objects = [] }

abbrev resolved : Resolved
resolved = record {
  object = object;
  symbols = symbols;
  memory = store64 zeros 0x10000 0x7f00000010;
  protected = record { start = 0x10000; size = 0x10030; flags = 5 } ∷ [];
  status = exit_success;
}

object_resolved :
    resolve_object arm64_platform 64 nowhere no_pages protects no_linker object symbols zeros
    ≡ ok resolved
unfolding resolve_object get_oc_info fill_got fill_symbol need_got_slot verify_got
    mprotect_object_code relocate_object_code_arm64 relocate_one encode_addend_arm64 compute_addend
    arm64_constant required_symbol find_symbol is_other compute_at encode_at
object_resolved = refl

resolve_object-IsResolved_example :
    IsResolved arm64_platform 64 nowhere no_pages protects no_linker object symbols zeros resolved
resolve_object-IsResolved_example =
    resolve_object-IsResolved arm64_platform 64 nowhere no_pages protects no_linker object symbols
      zeros resolved object_resolved refl
