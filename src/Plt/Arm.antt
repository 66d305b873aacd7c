-- ===== src/Plt/Arm.antt =====
-- elf/plt/arm.c
pub mod Jump
use liblink.Base.{
  ℕ, ◌+◌, ◌^◌, bit_and, bit_or, Bool, true, false, Option, none, some, u32, ◌<<<◌, ◌>>>◌,
  exit_success,
}
use liblink.Memory.{Memory, store32}
use liblink.Types.{ElfRel, ElfRela, Stub}
use liblink.Compat.{elf32_r_type}
use liblink.Compat.Arm.{
  ArmRelocations, arm_pc24, arm_call, arm_jump24, arm_thm_call, arm_thm_jump24, arm_thm_jump19,
  arm_constant,
}
use liblink.Target.{Target}

abbrev pub stub_size_arm : ℕ
stub_size_arm = 12

-- The `switch` of both functions below.
unfoldable pub is_branch_type : Option ArmRelocations → Bool
is_branch_type (some arm_pc24) = true
is_branch_type (some arm_call) = true
is_branch_type (some arm_jump24) = true
is_branch_type (some arm_thm_call) = true
is_branch_type (some arm_thm_jump24) = true
is_branch_type (some arm_thm_jump19) = true
is_branch_type _ = false

unfoldable pub need_stub_for_rel_arm : ElfRel → Bool
unfolding is_branch_type
need_stub_for_rel_arm rel = is_branch_type (arm_constant (elf32_r_type rel.r_info))

unfoldable pub need_stub_for_rela_arm : ElfRela → Bool
unfolding is_branch_type
need_stub_for_rela_arm rela = is_branch_type (arm_constant (elf32_r_type rela.rel.r_info))

abbrev pub movw_r12 : ℕ
movw_r12 = 0xe300c000

abbrev pub movt_r12 : ℕ
movt_r12 = 0xe340c000

abbrev pub bx_r12 : ℕ
bx_r12 = 0xe12fff1c

unfoldable pub make_stub_arm : Stub → Memory → Memory × Bool
make_stub_arm s m =
    let p = s.addr in
    let target = s.target in
    let m0 =
      store32 m p
        (bit_or (bit_or movw_r12 (bit_and target 0xf000 <<< 4)) (bit_and target 0x0fff)) in
    let m1 = store32 m0 (p + 4) (
      bit_or (bit_or movt_r12 (bit_and (target >>> 16) 0xf000 <<< 4))
        (bit_and (target >>> 16) 0x0fff)) in
    let m2 = store32 m1 (p + 8) bx_r12 in (m2, exit_success)

abbrev pub arm : Target
arm = record {
  addr_bits = 32;
  stub_size = stub_size_arm;
  need_stub_for_rel = need_stub_for_rel_arm;
  need_stub_for_rela = need_stub_for_rela_arm;
  make_stub = make_stub_arm;
}
