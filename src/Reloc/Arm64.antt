-- ===== src/Reloc/Arm64.antt =====
-- elf/reloc/arm64.c. Addresses and addends are 64-bit patterns. The functions that write through a
-- pointer take the memory and return the new one.
pub mod Fields
pub mod Encode
pub mod Writes
pub mod Veneer
pub mod Branch
pub mod Object
pub mod Frame
pub mod Kept
pub mod Explicit
use liblink.Base.{
  ℕ, ◌+◌, ◌-◌, ◌*◌, ◌/◌, ◌%◌, ◌^◌, bit_and, bit_or, Bool, true, false, ◌&&◌, ◌||◌, not, Option,
  none, some, ◌==◌, leb, u16, u32, u64, ◌<<<◌, ◌>>>◌, sar, if◌then◌else◌, Outcome, ok, fail, Fault,
  ◌>>=◌, ◌>>◌, assert, exit_success,
}
use liblink.Memory.{Memory, load32, load64, store16, store32, store64}
use liblink.Types.{ElfRel, ElfSymbol, Section}
use liblink.Compat.{elf64_r_type}
use liblink.Compat.Arm64.{
  Arm64Relocations, arm64_constant, aarch64_abs64, aarch64_prel64, aarch64_abs32, aarch64_prel32,
  aarch64_abs16, aarch64_prel16, aarch64_adr_prel_pg_hi21, aarch64_jump26, aarch64_call26,
  aarch64_adr_got_page, aarch64_add_abs_lo12_nc, aarch64_ldst8_abs_lo12_nc,
  aarch64_ldst16_abs_lo12_nc, aarch64_ldst32_abs_lo12_nc, aarch64_ldst64_abs_lo12_nc,
  aarch64_ldst128_abs_lo12_nc, aarch64_ld64_got_lo12_nc,
}
use liblink.Plt.{Made, find_stub, make_stub}
use liblink.Plt.Arm64.{arm64}
use liblink.Reloc.Util.{is_int64}

-- `~0xFFF` is an `int`, which is widened with its sign.
unfoldable pub page : ℕ → ℕ
page x = bit_and x 0xfffffffffffff000

-- These read a whole `addr_t` at the instruction.
unfoldable pub is_load_store : Memory → ℕ → Bool
is_load_store m p = bit_and (load64 m p) 0x3b000000 == 0x39000000

unfoldable pub is_vector_op : Memory → ℕ → Bool
is_vector_op m p = bit_and (load64 m p) 0x04800000 == 0x04800000

unfoldable pub decode_addend_arm64 : Section → ElfRel → Outcome ℕ
decode_addend_arm64 section rel = fail Fault.aborted

-- The cases of ADR_PREL_PG_HI21 and ADR_GOT_PAGE.
unfoldable pub encode_adrp : ℕ → ℕ → Memory → Outcome Memory
encode_adrp p addend m = do
  assert (is_int64 32 addend)
  assert (bit_and addend 0xfff == 0)
  ok (
      store32 m p (
        bit_or
          (bit_or (bit_and (load32 m p) 0x9f00001f)
            (u32 (bit_and (u64 (addend <<< 17)) 0x60000000)))
          (u32 (bit_and (addend >>> 9) 0x00ffffe0))))

unfoldable pub encode_branch : ℕ → ℕ → Memory → Outcome Memory
encode_branch p addend m = do
  assert (is_int64 28 addend)
  ok (
      store32 m p
        (bit_or (bit_and (load32 m p) 0xfc000000) (bit_and (u32 (sar 64 addend 2)) 0x03ffffff)))

-- `exp_shift` at the last case, where `none` is its initial -1.
unfoldable pub got_shift : Option ℕ → ℕ → Outcome ℕ
got_shift none addend = do assert (bit_and addend 7 == 0); ok 3
got_shift (some e) addend = ok e

-- The scale of the immediate of the instruction at `p`.
unfoldable pub inst_shift : ℕ → Memory → ℕ
inst_shift p m =
    let size = bit_and (load32 m p >>> 30) 0x3 in
    if is_load_store m p then (if size == 0 && is_vector_op m p then 4 else size) else 0

-- The cases from ADD_ABS_LO12_NC to LD64_GOT_LO12_NC, entered with the given `exp_shift`.
unfoldable pub encode_lo12 : Option ℕ → ℕ → ℕ → Memory → Outcome Memory
encode_lo12 exp p addend m = do
  exp_shift ← got_shift exp addend
  assert (bit_and addend 0xfff == addend)
  let shift = inst_shift p m
  assert (addend == 0 || exp_shift == shift)
  ok (
      store32 m p (
        bit_or (bit_and (load32 m p) 0xffc003ff)
          (bit_and (u32 (sar 64 addend shift <<< 10)) 0x003ffc00)))

-- The `switch` of `encodeAddend_arm64`, at the address `p`.
unfoldable pub encode_at : Option Arm64Relocations → ℕ → ℕ → Memory → Outcome Memory
unfolding encode_adrp encode_branch encode_lo12
encode_at (some aarch64_abs64) p addend m = ok (store64 m p addend)
encode_at (some aarch64_prel64) p addend m = ok (store64 m p addend)
encode_at (some aarch64_abs32) p addend m = do
  assert (is_int64 32 addend)
  assert (is_int64 32 addend)
  ok (store32 m p addend)
encode_at (some aarch64_prel32) p addend m = do assert (is_int64 32 addend); ok (store32 m p addend)
encode_at (some aarch64_abs16) p addend m = do
  assert (is_int64 16 addend)
  assert (is_int64 16 addend)
  ok (store16 m p addend)
encode_at (some aarch64_prel16) p addend m = do assert (is_int64 16 addend); ok (store16 m p addend)
encode_at (some aarch64_adr_prel_pg_hi21) p addend m = encode_adrp p addend m
encode_at (some aarch64_jump26) p addend m = encode_branch p addend m
encode_at (some aarch64_call26) p addend m = encode_branch p addend m
encode_at (some aarch64_adr_got_page) p addend m = encode_adrp p addend m
encode_at (some aarch64_add_abs_lo12_nc) p addend m = encode_lo12 (some 0) p addend m
encode_at (some aarch64_ldst8_abs_lo12_nc) p addend m = encode_lo12 (some 0) p addend m
encode_at (some aarch64_ldst16_abs_lo12_nc) p addend m = encode_lo12 (some 1) p addend m
encode_at (some aarch64_ldst32_abs_lo12_nc) p addend m = encode_lo12 (some 2) p addend m
encode_at (some aarch64_ldst64_abs_lo12_nc) p addend m = encode_lo12 (some 3) p addend m
encode_at (some aarch64_ldst128_abs_lo12_nc) p addend m = encode_lo12 (some 4) p addend m
encode_at (some aarch64_ld64_got_lo12_nc) p addend m = encode_lo12 none p addend m
encode_at _ p addend m = fail Fault.aborted

-- The place that a relocation patches.
abbrev pub place : Section → ElfRel → ℕ
place section rel = u64 (section.start + rel.r_offset)

-- The only normal return is `EXIT_SUCCESS`.
unfoldable pub encode_addend_arm64 : Section → ElfRel → ℕ → Memory → Outcome (Memory × Bool)
encode_addend_arm64 section rel addend m = do
  m' ← encode_at (arm64_constant (elf64_r_type rel.r_info)) (place section rel) addend m
  ok (m', exit_success)

-- What `compute_addend` leaves: the section with its stubs, the memory, and the addend.
pub record Computed : Type 0 where
  pub section : Section
  pub memory : Memory
  pub addend : ℕ

-- The result of a case that changes no state.
abbrev pub value : Section → Memory → ℕ → Outcome Computed
value section m v = ok (record { section = section; memory = m; addend = v })

-- a - b on `addr_t`, for `b` in range.
abbrev pub sub64 : ℕ → ℕ → ℕ
sub64 a b = u64 (a + 2 ^ 64 - b)

-- `find_stub`, or else `make_stub`: `made.addr` is the new `S`.
unfoldable pub find_or_make_stub : Section → ℕ → Memory → Outcome Made
find_or_make_stub section s m =
    let (s', missing) = find_stub section s in
    if missing
    then (do
      made ← make_stub arm64 section s' m
      if made.status then fail Fault.aborted else ok made)
    else ok (record { section = section; memory = m; addr = s'; status = exit_success })

-- The case of JUMP26 and CALL26.
unfoldable pub branch_addend : Section → ℕ → ℕ → ℕ → Memory → Outcome Computed
branch_addend section p s a m =
    let v = sub64 (s + a) p in
    if not (is_int64 28 v)
    then (do
      made ← find_or_make_stub section s m
      assert (bit_and 0xffff000000000000 made.addr == 0)
      let v' = sub64 (made.addr + a) p
      assert (is_int64 28 v')
      value made.section made.memory v')
    else value section m v

-- The `switch` of `compute_addend`: place `p`, symbol `s`, GOT slot `got_s`, addend `a`.
unfoldable pub compute_at :
    Option Arm64Relocations → Section → ℕ → ℕ → ℕ → ℕ → Memory → Outcome Computed
compute_at (some aarch64_abs64) section p s got_s a m = value section m (u64 (s + a))
compute_at (some aarch64_abs32) section p s got_s a m = value section m (u64 (s + a))
compute_at (some aarch64_abs16) section p s got_s a m = value section m (u64 (s + a))
compute_at (some aarch64_prel64) section p s got_s a m = value section m (sub64 (s + a) p)
compute_at (some aarch64_prel32) section p s got_s a m = value section m (sub64 (s + a) p)
compute_at (some aarch64_prel16) section p s got_s a m = value section m (sub64 (s + a) p)
compute_at (some aarch64_adr_prel_pg_hi21) section p s got_s a m =
    value section m (sub64 (page (u64 (s + a))) (page p))
compute_at (some aarch64_add_abs_lo12_nc) section p s got_s a m =
    value section m (bit_and (u64 (s + a)) 0xfff)
compute_at (some aarch64_jump26) section p s got_s a m = branch_addend section p s a m
compute_at (some aarch64_call26) section p s got_s a m = branch_addend section p s a m
compute_at (some aarch64_ldst128_abs_lo12_nc) section p s got_s a m = do
  assert (bit_and (u64 (s + a)) 0x0f == 0)
  assert (bit_and (u64 (s + a)) 0x07 == 0)
  assert (bit_and (u64 (s + a)) 0x03 == 0)
  assert (bit_and (u64 (s + a)) 0x01 == 0)
  value section m (bit_and (u64 (s + a)) 0xfff)
compute_at (some aarch64_ldst64_abs_lo12_nc) section p s got_s a m = do
  assert (bit_and (u64 (s + a)) 0x07 == 0)
  assert (bit_and (u64 (s + a)) 0x03 == 0)
  assert (bit_and (u64 (s + a)) 0x01 == 0)
  value section m (bit_and (u64 (s + a)) 0xfff)
compute_at (some aarch64_ldst32_abs_lo12_nc) section p s got_s a m = do
  assert (bit_and (u64 (s + a)) 0x03 == 0)
  assert (bit_and (u64 (s + a)) 0x01 == 0)
  value section m (bit_and (u64 (s + a)) 0xfff)
compute_at (some aarch64_ldst16_abs_lo12_nc) section p s got_s a m = do
  assert (bit_and (u64 (s + a)) 0x01 == 0)
  value section m (bit_and (u64 (s + a)) 0xfff)
compute_at (some aarch64_ldst8_abs_lo12_nc) section p s got_s a m =
    value section m (bit_and (u64 (s + a)) 0xfff)
compute_at (some aarch64_adr_got_page) section p s got_s a m = do
  assert (not (got_s == 0))
  value section m (sub64 (page (u64 (got_s + a))) (page p))
compute_at (some aarch64_ld64_got_lo12_nc) section p s got_s a m = do
  assert (not (got_s == 0))
  value section m (bit_and (u64 (got_s + a)) 0xfff)
compute_at _ section p s got_s a m = fail Fault.aborted

unfoldable pub compute_addend : Section → ElfRel → ElfSymbol → ℕ → Memory → Outcome Computed
compute_addend section rel symbol addend m =
    let p = place section rel in
    do
      assert (not (p == 0))
      assert (leb section.start p)
      assert (leb p (u64 (section.start + section.size)))
      assert (not (symbol.addr == 0))
      compute_at (arm64_constant (elf64_r_type rel.r_info)) section p symbol.addr symbol.got_addr
          addend m

-- The body of the loops of `relocate_object_code_arm64`, for the symbol and the addend at hand.
unfoldable pub relocate_one : Section → ElfRel → ElfSymbol → ℕ → Memory → Outcome (Section × Memory)
relocate_one section rel symbol addend m = do
  c ← compute_addend section rel symbol addend m
  (m', status) ← encode_addend_arm64 c.section rel c.addend c.memory
  ok (c.section, m')
