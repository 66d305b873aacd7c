-- ===== src/Reloc/Arm.antt =====
-- elf/reloc/arm.c. Addresses and addends are 32-bit patterns. The functions that write through a
-- pointer take the memory and return the new one.
pub mod RoundTrip
pub mod Object
use liblink.Base.{
  ℕ, ◌+◌, ◌-◌, ◌^◌, ◌%◌, bit_and, bit_or, Bool, true, false, ◌&&◌, not, Option, none, some, ◌==◌,
  u32, ◌<<<◌, ◌>>>◌, if◌then◌else◌, Outcome, ok, fail, Fault, ◌>>=◌, ◌>>◌, assert, exit_success,
  exit_failure,
}
use liblink.Memory.{Memory, load32, store32}
use liblink.Types.{ElfRel, ElfSymbol, Section}
use liblink.Compat.{elf32_r_type}
use liblink.Compat.Arm.{
  ArmRelocations, arm_constant, arm_none, arm_pc24, arm_call, arm_jump24, arm_abs32, arm_rel32,
  arm_sbrel32, arm_gotoff32, arm_base_prel, arm_got_brel, arm_base_abs, arm_target1, arm_abs32_noi,
  arm_rel32_noi, arm_plt32_abs, arm_got_abs, arm_got_prel, arm_tls_gd32, arm_tls_ldm32,
  arm_tls_ldo32, arm_tls_ie32, arm_tls_le32, arm_tls_ldo12, arm_tls_le12, arm_abs16, arm_abs8,
  arm_prel31,
}
use liblink.Plt.{Made, find_stub, make_stub}
use liblink.Plt.Arm.{arm}
use liblink.Reloc.Util.{sign_extend32, is_int32}

unfoldable pub is_blx : ℕ → Bool
is_blx w = w >>> 28 == 0xf

-- The cases of CALL and JUMP24.
unfoldable pub decode_branch : ℕ → Memory → Outcome ℕ
decode_branch p m = do
  let w = load32 m p
  assert (not (is_blx w && not (bit_and w (1 <<< 24) == 0)))
  let imm24 = u32 (bit_and w 0x00ffffff <<< 2)
  ok (sign_extend32 26 imm24)

-- The `switch` of `decodeAddend_arm`, at the address `p`.
unfoldable pub decode_at : Option ArmRelocations → ℕ → Memory → Outcome ℕ
decode_at (some arm_call) p m = decode_branch p m
decode_at (some arm_jump24) p m = decode_branch p m
decode_at (some arm_abs32) p m = ok (load32 m p)
decode_at (some arm_rel32) p m = ok (load32 m p)
decode_at (some arm_sbrel32) p m = ok (load32 m p)
decode_at (some arm_gotoff32) p m = ok (load32 m p)
decode_at (some arm_base_prel) p m = ok (load32 m p)
decode_at (some arm_got_brel) p m = ok (load32 m p)
decode_at (some arm_base_abs) p m = ok (load32 m p)
decode_at (some arm_target1) p m = ok (load32 m p)
decode_at (some arm_abs32_noi) p m = ok (load32 m p)
decode_at (some arm_rel32_noi) p m = ok (load32 m p)
decode_at (some arm_plt32_abs) p m = ok (load32 m p)
decode_at (some arm_got_abs) p m = ok (load32 m p)
decode_at (some arm_got_prel) p m = ok (load32 m p)
decode_at (some arm_tls_gd32) p m = ok (load32 m p)
decode_at (some arm_tls_ldm32) p m = ok (load32 m p)
decode_at (some arm_tls_ldo32) p m = ok (load32 m p)
decode_at (some arm_tls_ie32) p m = ok (load32 m p)
decode_at (some arm_tls_le32) p m = ok (load32 m p)
decode_at (some arm_tls_ldo12) p m = ok (load32 m p)
decode_at (some arm_tls_le12) p m = ok (load32 m p)
decode_at (some arm_abs16) p m = ok (load32 m p)
decode_at (some arm_abs8) p m = ok (load32 m p)
decode_at (some arm_prel31) p m = ok (load32 m p)
decode_at _ p m = fail Fault.aborted

abbrev pub place : Section → ElfRel → ℕ
place section rel = u32 (section.start + rel.r_offset)

unfoldable pub decode_addend_arm : Section → ElfRel → Memory → Outcome ℕ
decode_addend_arm section rel m =
    decode_at (arm_constant (elf32_r_type rel.r_info)) (place section rel) m

unfoldable pub encode_branch : ℕ → ℕ → Memory → Outcome (Memory × Bool)
encode_branch p addend m = do
  assert (is_int32 26 addend)
  let imm24 = bit_and addend 0x03fffffc >>> 2
  ok (
    store32 m p (bit_or (bit_and (load32 m p) 0xff000000) (bit_and imm24 0x00ffffff)),
    exit_success,
  )

-- The `switch` of `encodeAddend_arm`, at the address `p`.
unfoldable pub encode_at : Option ArmRelocations → ℕ → ℕ → Memory → Outcome (Memory × Bool)
encode_at (some arm_call) p addend m = encode_branch p addend m
encode_at (some arm_jump24) p addend m = encode_branch p addend m
encode_at (some arm_abs32) p addend m = ok (store32 m p addend, exit_success)
encode_at (some arm_rel32) p addend m = ok (store32 m p addend, exit_success)
encode_at (some arm_sbrel32) p addend m = ok (store32 m p addend, exit_success)
encode_at (some arm_gotoff32) p addend m = ok (store32 m p addend, exit_success)
encode_at (some arm_base_prel) p addend m = ok (store32 m p addend, exit_success)
encode_at (some arm_got_brel) p addend m = ok (store32 m p addend, exit_success)
encode_at (some arm_base_abs) p addend m = ok (store32 m p addend, exit_success)
encode_at (some arm_target1) p addend m = ok (store32 m p addend, exit_success)
encode_at (some arm_abs32_noi) p addend m = ok (store32 m p addend, exit_success)
encode_at (some arm_rel32_noi) p addend m = ok (store32 m p addend, exit_success)
encode_at (some arm_plt32_abs) p addend m = ok (store32 m p addend, exit_success)
encode_at (some arm_got_abs) p addend m = ok (store32 m p addend, exit_success)
encode_at (some arm_got_prel) p addend m = ok (store32 m p addend, exit_success)
encode_at (some arm_tls_gd32) p addend m = ok (store32 m p addend, exit_success)
encode_at (some arm_tls_ldm32) p addend m = ok (store32 m p addend, exit_success)
encode_at (some arm_tls_ldo32) p addend m = ok (store32 m p addend, exit_success)
encode_at (some arm_tls_ie32) p addend m = ok (store32 m p addend, exit_success)
encode_at (some arm_tls_le32) p addend m = ok (store32 m p addend, exit_success)
encode_at (some arm_tls_ldo12) p addend m = ok (store32 m p addend, exit_success)
encode_at (some arm_tls_le12) p addend m = ok (store32 m p addend, exit_success)
encode_at (some arm_abs16) p addend m = ok (store32 m p addend, exit_success)
encode_at (some arm_abs8) p addend m = ok (store32 m p addend, exit_success)
encode_at (some arm_prel31) p addend m = ok (store32 m p addend, exit_success)
encode_at _ p addend m = ok (m, exit_failure)

unfoldable pub encode_addend_arm : Section → ElfRel → ℕ → Memory → Outcome (Memory × Bool)
encode_addend_arm section rel addend m =
    encode_at (arm_constant (elf32_r_type rel.r_info)) (place section rel) addend m

-- What `compute_addend` leaves: the section with its stubs, the memory, and the addend.
pub record Computed : Type 0 where
  pub section : Section
  pub memory : Memory
  pub addend : ℕ

abbrev pub value : Section → Memory → ℕ → Outcome Computed
value section m v = ok (record { section = section; memory = m; addend = v })

-- a - b on `addr_t`, for `b` in range.
abbrev pub sub32 : ℕ → ℕ → ℕ
sub32 a b = u32 (a + 2 ^ 32 - b)

-- `T`: thumb mode is off.
abbrev pub thumb : ℕ
thumb = 0

-- `find_stub`, or else `make_stub`: `made.addr` is the new `S`.
unfoldable pub find_or_make_stub : Section → ℕ → Memory → Outcome Made
find_or_make_stub section s m =
    let (s', missing) = find_stub section s in
    if missing
    then (do made ← make_stub arm section s' m; if made.status then fail Fault.aborted else ok made)
    else ok (record { section = section; memory = m; addr = s'; status = exit_success })

-- The case of CALL and JUMP24; the program counter is 8 bytes ahead (`bias`).
unfoldable pub branch_addend : Section → ℕ → ℕ → ℕ → Memory → Outcome Computed
branch_addend section p s a m =
    let s0 = u32 (s + a) in
    let v = sub32 (bit_or (u32 (s0 + 0)) thumb) p in
    if not (is_int32 26 v)
    then (do
      made ← find_or_make_stub section (u32 (s0 + 8)) m
      let s1 = sub32 made.addr 8
      let v' = sub32 (bit_or (u32 (s1 + 0)) thumb) p
      assert (is_int32 26 v')
      value made.section made.memory v')
    else value section m v

-- The `switch` of `compute_addend`: place `p`, symbol `s`, GOT slot `got_s`, addend `a`.
unfoldable pub compute_at :
    Option ArmRelocations → Section → ℕ → ℕ → ℕ → ℕ → Memory → Outcome Computed
compute_at (some arm_none) section p s got_s a m = fail Fault.aborted
compute_at (some arm_pc24) section p s got_s a m = fail Fault.aborted
compute_at (some arm_abs32) section p s got_s a m = value section m (bit_or (u32 (s + a)) thumb)
compute_at (some arm_rel32) section p s got_s a m =
    value section m (sub32 (bit_or (u32 (s + a)) thumb) p)
compute_at (some arm_prel31) section p s got_s a m =
    value section m (sub32 (bit_or (u32 (s + a)) thumb) p)
compute_at (some arm_call) section p s got_s a m = branch_addend section p s a m
compute_at (some arm_jump24) section p s got_s a m = branch_addend section p s a m
compute_at (some arm_got_prel) section p s got_s a m = do
  assert (not (got_s == 0))
  value section m (sub32 (got_s + a) p)
compute_at _ section p s got_s a m = fail Fault.aborted

unfoldable pub compute_addend : Section → ElfRel → ElfSymbol → ℕ → Memory → Outcome Computed
compute_addend section rel symbol addend m =
    let p = place section rel in
    do
      assert (not (symbol.addr == 0))
      assert (not (p == 0))
      compute_at (arm_constant (elf32_r_type rel.r_info)) section p symbol.addr symbol.got_addr
          addend m

-- The body of the loops of `relocate_object_code_arm`, for the symbol and the addend at hand; the
-- status of `encodeAddend_arm` is not looked at.
unfoldable pub relocate_one : Section → ElfRel → ElfSymbol → ℕ → Memory → Outcome (Section × Memory)
relocate_one section rel symbol addend m = do
  c ← compute_addend section rel symbol addend m
  (m', status) ← encode_addend_arm c.section rel c.addend c.memory
  ok (c.section, m')
