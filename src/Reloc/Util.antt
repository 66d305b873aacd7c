-- ===== src/Reloc/Util.antt =====
-- elf/reloc/util.c. Signed values are bit patterns (`signed`), and their arithmetic wraps around; a
-- shift by the width of the type or more, which C leaves undefined, happens for no `bits` between 1
-- and the width.
pub mod Range
pub mod Find
use liblink.Base.{
  ℕ, ◌+◌, ◌-◌, ◌^◌, ◌%◌, Bool, true, false, ◌&&◌, ◌||◌, List, [], ◌∷◌, Option, none, some, pos,
  sub_ℕ, signed, sar, leb_ℤ, ltb_ℤ, ltb, ◌==◌, u32, u64, ◌<<<◌, if◌then◌else◌,
}
use liblink.Types.{ElfSymbolTable, ObjectCode, SectionKind, sectionkind_other}

unfoldable pub sign_extend32 : ℕ → ℕ → ℕ
sign_extend32 bits x = sar 32 (u32 (x <<< (32 - bits))) (32 - bits)

-- The function returns an `int32_t`.
unfoldable pub sign_extend64 : ℕ → ℕ → ℕ
sign_extend64 bits x = u32 (sar 64 (u64 (x <<< (64 - bits))) (64 - bits))

unfoldable pub is_int32 : ℕ → ℕ → Bool
is_int32 bits x =
    ltb 32 bits
    || (leb_ℤ (signed 32 ((2 ^ 32 - 2 ^ (bits - 1)) % 2 ^ 32)) (signed 32 x)
        && ltb_ℤ (signed 32 x) (signed 32 (2 ^ (bits - 1))))

unfoldable pub is_int64 : ℕ → ℕ → Bool
is_int64 bits x =
    ltb 64 bits
    || (leb_ℤ (signed 64 ((2 ^ 64 - 2 ^ (bits - 1)) % 2 ^ 64)) (signed 64 x)
        && ltb_ℤ (signed 64 x) (signed 64 (2 ^ (bits - 1))))

unfoldable pub find_symbol_table : List ElfSymbolTable → ℕ → Option ElfSymbolTable
find_symbol_table [] index = none
find_symbol_table (t ∷ ts) index = if t.index == index then some t else find_symbol_table ts index

-- The pointer to the symbol, or `NULL`.
unfoldable pub find_symbol : ObjectCode → ℕ → ℕ → Option ℕ
unfolding find_symbol_table
find_symbol oc table_index symbol_index =
    elim (find_symbol_table oc.info.symbol_tables table_index) [
      | none ↦ none
      | some t ↦ if ltb symbol_index t.n_symbols then some (t.symbols + symbol_index) else none
    ]

-- The sections that the relocation loops leave alone.
unfoldable pub is_other : SectionKind → Bool
is_other sectionkind_other = true
is_other _ = false
