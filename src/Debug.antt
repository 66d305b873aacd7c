-- ===== src/Debug.antt =====
-- debug.c: the searches for the object, section or symbol at an address, and the name of an object.
-- Sums of addresses wrap at `bits` bits.
pub mod Near
use liblink.Base.{
  ℕ, zero, suc, ◌+◌, ◌%◌, ◌^◌, Bool, true, false, ◌&&◌, not, List, [], ◌∷◌, ◌++◌, Option, none,
  some, ◌==◌, leb, ltb, if◌then◌else◌,
}
use liblink.Types.{ElfSymbol, ElfSymbolTable, ObjectCode, Section, SymbolStore}
use liblink.Linker.{Linker}

-- `start <= addr && addr < start + size`.
abbrev pub within : ℕ → ℕ → ℕ → ℕ → Bool
within bits start size addr = leb start addr && ltb addr ((start + size) % 2 ^ bits)

unfoldable pub find_oc_for_got_addr : ℕ → List ObjectCode → ℕ → Option ObjectCode
find_oc_for_got_addr bits [] got_addr = none
find_oc_for_got_addr bits (oc ∷ ocs) got_addr =
    if ltb 0 oc.info.got_size && within bits oc.info.got_start oc.info.got_size got_addr
    then some oc
    else find_oc_for_got_addr bits ocs got_addr

unfoldable pub section_at : ℕ → List Section → ℕ → Option Section
section_at bits [] addr = none
section_at bits (s ∷ ss) addr =
    if within bits s.start s.size addr then some s else section_at bits ss addr

-- The object and its section.
unfoldable pub find_section : ℕ → List ObjectCode → ℕ → Option (ObjectCode × Section)
unfolding section_at
find_section bits [] addr = none
find_section bits (oc ∷ ocs) addr = elim (section_at bits oc.sections addr) [
  | some s ↦ some (oc, s)
  | none ↦ find_section bits ocs addr
]

-- The pointer to the first of `n` symbols from `p` on that passes `test`.
unfoldable pub first_symbol : (ElfSymbol → Bool) → SymbolStore → (p n : ℕ) → Option ℕ
first_symbol test syms p zero = none
first_symbol test syms p (suc n) =
    if test (syms p) then some p else first_symbol test syms (p + 1) n

unfoldable pub first_in_tables : (ElfSymbol → Bool) → SymbolStore → List ElfSymbolTable → Option ℕ
unfolding first_symbol
first_in_tables test syms [] = none
first_in_tables test syms (t ∷ ts) = elim (first_symbol test syms t.symbols t.n_symbols) [
  | some p ↦ some p
  | none ↦ first_in_tables test syms ts
]

-- Symbols without a size are passed over.
abbrev pub covers : ℕ → ℕ → ElfSymbol → Bool
covers bits addr s = not (s.elf_sym.st_size == 0) && within bits s.addr s.elf_sym.st_size addr

unfoldable pub find_near_symbol : ℕ → Linker → SymbolStore → ℕ → Option ℕ
unfolding find_section first_in_tables
find_near_symbol bits l syms addr = elim (find_section bits l.objects addr) [
  | none ↦ none
  | some (oc, s) ↦ first_in_tables (covers bits addr) syms oc.info.symbol_tables
]

unfoldable pub find_symbol_by_got_addr : List ObjectCode → SymbolStore → ℕ → Option ℕ
unfolding first_in_tables
find_symbol_by_got_addr [] syms got_addr = none
find_symbol_by_got_addr (oc ∷ ocs) syms got_addr =
    elim (first_in_tables (λ s. not (s.elf_sym.st_size == 0) && (s.got_addr == got_addr)) syms
      oc.info.symbol_tables) [ some p ↦ some p | none ↦ find_symbol_by_got_addr ocs syms got_addr ]

unfoldable pub count_objects : List ObjectCode → ℕ → ℕ
count_objects [] i = i
count_objects (oc ∷ ocs) i = count_objects ocs ((i + 1) % 2 ^ 32)

-- The text that `get_oc_info` prints into a buffer.
unfoldable pub get_oc_info : ObjectCode → List ℕ
get_oc_info oc = elim oc.archive_member_name [
  | none ↦ oc.file_name
  | some member ↦ oc.file_name ++ (b' ' ∷ b'(' ∷ member) ++ b')' ∷ []
]
