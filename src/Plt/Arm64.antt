-- ===== src/Plt/Arm64.antt =====
-- elf/plt/arm64.c
pub mod Jump
use liblink.Base.{
  ℕ, ◌+◌, ◌^◌, bit_or, Bool, true, false, Option, none, some, u16, u32, u64, ◌<<<◌, ◌>>>◌,
  exit_success,
}
use liblink.Memory.{Memory, store32}
use liblink.Types.{ElfRel, ElfRela, Stub}
use liblink.Compat.{elf64_r_type}
use liblink.Compat.Arm64.{Arm64Relocations, aarch64_call26, aarch64_jump26, arm64_constant}
use liblink.Target.{Target}

abbrev pub inst_size_arm64 : ℕ
inst_size_arm64 = 4

abbrev pub stub_size_arm64 : ℕ
stub_size_arm64 = 20

-- The `switch` of both functions below.
unfoldable pub is_branch_type : Option Arm64Relocations → Bool
is_branch_type (some aarch64_call26) = true
is_branch_type (some aarch64_jump26) = true
is_branch_type _ = false

unfoldable pub need_stub_for_rel_arm64 : ElfRel → Bool
unfolding is_branch_type
need_stub_for_rel_arm64 rel = is_branch_type (arm64_constant (elf64_r_type rel.r_info))

unfoldable pub need_stub_for_rela_arm64 : ElfRela → Bool
unfolding is_branch_type
need_stub_for_rela_arm64 rela = is_branch_type (arm64_constant (elf64_r_type rela.rel.r_info))

abbrev pub mov__hw0_x16 : ℕ
mov__hw0_x16 = bit_or 0xd2800000 16

abbrev pub movk_hw0_x16 : ℕ
movk_hw0_x16 = bit_or mov__hw0_x16 (1 <<< 29)

abbrev pub mov__hw3_x16 : ℕ
mov__hw3_x16 = bit_or mov__hw0_x16 (3 <<< 21)

abbrev pub movk_hw2_x16 : ℕ
movk_hw2_x16 = bit_or movk_hw0_x16 (2 <<< 21)

abbrev pub movk_hw1_x16 : ℕ
movk_hw1_x16 = bit_or movk_hw0_x16 (1 <<< 21)

abbrev pub br_x16 : ℕ
br_x16 = bit_or 0xd61f0000 (16 <<< 5)

unfoldable pub make_stub_arm64 : Stub → Memory → Memory × Bool
make_stub_arm64 s m =
    let p = s.addr in
    let addr = s.target in
    let addr_hw0 = u16 (addr >>> 0) in
    let addr_hw1 = u16 (addr >>> 16) in
    let addr_hw2 = u16 (addr >>> 32) in
    let addr_hw3 = u16 (addr >>> 48) in
    let m0 = store32 m p (bit_or mov__hw3_x16 (addr_hw3 <<< 5)) in
    let m1 = store32 m0 (p + 4) (bit_or movk_hw2_x16 (addr_hw2 <<< 5)) in
    let m2 = store32 m1 (p + 8) (bit_or movk_hw1_x16 (addr_hw1 <<< 5)) in
    let m3 = store32 m2 (p + 12) (bit_or movk_hw0_x16 (addr_hw0 <<< 5)) in
    let m4 = store32 m3 (p + 16) br_x16 in (m4, exit_success)

abbrev pub arm64 : Target
arm64 = record {
  addr_bits = 64;
  stub_size = stub_size_arm64;
  need_stub_for_rel = need_stub_for_rel_arm64;
  need_stub_for_rela = need_stub_for_rela_arm64;
  make_stub = make_stub_arm64;
}
