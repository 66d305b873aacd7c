-- ===== src/Compat/Arm.antt =====
-- elf/compat.h: the relocation types of ARM.
use liblink.Base.{ℕ, ◌≡◌, refl, List, [], ◌∷◌, Option, some}
use liblink.Compat.{select, select-value}

pub data ArmRelocations : Type 0 where
  arm_none : ArmRelocations
  arm_pc24 : ArmRelocations
  arm_abs32 : ArmRelocations
  arm_rel32 : ArmRelocations
  arm_ldr_pc_g0 : ArmRelocations
  arm_abs16 : ArmRelocations
  arm_abs12 : ArmRelocations
  arm_thm_abs5 : ArmRelocations
  arm_abs8 : ArmRelocations
  arm_sbrel32 : ArmRelocations
  arm_thm_call : ArmRelocations
  arm_thm_pc8 : ArmRelocations
  arm_brel_adj : ArmRelocations
  arm_tls_desc : ArmRelocations
  arm_thm_swi8 : ArmRelocations
  arm_xpc25 : ArmRelocations
  arm_thm_xpc22 : ArmRelocations
  arm_tls_dtpmod32 : ArmRelocations
  arm_tls_dtpoff32 : ArmRelocations
  arm_tls_tpoff32 : ArmRelocations
  arm_copy : ArmRelocations
  arm_glob_dat : ArmRelocations
  arm_jump_slot : ArmRelocations
  arm_relative : ArmRelocations
  arm_gotoff32 : ArmRelocations
  arm_base_prel : ArmRelocations
  arm_got_brel : ArmRelocations
  arm_plt32 : ArmRelocations
  arm_call : ArmRelocations
  arm_jump24 : ArmRelocations
  arm_thm_jump24 : ArmRelocations
  arm_base_abs : ArmRelocations
  arm_alu_pcrel_7_0 : ArmRelocations
  arm_alu_pcrel_15_8 : ArmRelocations
  arm_alu_pcrel_23_15 : ArmRelocations
  arm_ldr_sbrel_11_0_nc : ArmRelocations
  arm_alu_sbrel_19_12_nc : ArmRelocations
  arm_alu_sbrel_27_20_ck : ArmRelocations
  arm_target1 : ArmRelocations
  arm_sbrel31 : ArmRelocations
  arm_v4bx : ArmRelocations
  arm_target2 : ArmRelocations
  arm_prel31 : ArmRelocations
  arm_movw_abs_nc : ArmRelocations
  arm_movt_abs : ArmRelocations
  arm_movw_prel_nc : ArmRelocations
  arm_movt_prel : ArmRelocations
  arm_thm_movw_abs_nc : ArmRelocations
  arm_thm_movt_abs : ArmRelocations
  arm_thm_movw_prel_nc : ArmRelocations
  arm_thm_movt_prel : ArmRelocations
  arm_thm_jump19 : ArmRelocations
  arm_thm_jump6 : ArmRelocations
  arm_thm_alu_prel_11_0 : ArmRelocations
  arm_thm_pc12 : ArmRelocations
  arm_abs32_noi : ArmRelocations
  arm_rel32_noi : ArmRelocations
  arm_alu_pc_g0_nc : ArmRelocations
  arm_alu_pc_g0 : ArmRelocations
  arm_alu_pc_g1_nc : ArmRelocations
  arm_alu_pc_g1 : ArmRelocations
  arm_alu_pc_g2 : ArmRelocations
  arm_ldr_pc_g1 : ArmRelocations
  arm_ldr_pc_g2 : ArmRelocations
  arm_ldrs_pc_g0 : ArmRelocations
  arm_ldrs_pc_g1 : ArmRelocations
  arm_ldrs_pc_g2 : ArmRelocations
  arm_ldc_pc_g0 : ArmRelocations
  arm_ldc_pc_g1 : ArmRelocations
  arm_ldc_pc_g2 : ArmRelocations
  arm_alu_sb_g0_nc : ArmRelocations
  arm_alu_sb_g0 : ArmRelocations
  arm_alu_sb_g1_nc : ArmRelocations
  arm_alu_sb_g1 : ArmRelocations
  arm_alu_sb_g2 : ArmRelocations
  arm_ldr_sb_g0 : ArmRelocations
  arm_ldr_sb_g1 : ArmRelocations
  arm_ldr_sb_g2 : ArmRelocations
  arm_ldrs_sb_g0 : ArmRelocations
  arm_ldrs_sb_g1 : ArmRelocations
  arm_ldrs_sb_g2 : ArmRelocations
  arm_ldc_sb_g0 : ArmRelocations
  arm_ldc_sb_g1 : ArmRelocations
  arm_ldc_sb_g2 : ArmRelocations
  arm_movw_brel_nc : ArmRelocations
  arm_movt_brel : ArmRelocations
  arm_movw_brel : ArmRelocations
  arm_thm_movw_brel_nc : ArmRelocations
  arm_thm_movt_brel : ArmRelocations
  arm_thm_movw_brel : ArmRelocations
  arm_tls_gotdesc : ArmRelocations
  arm_tls_call : ArmRelocations
  arm_tls_descseq : ArmRelocations
  arm_thm_tls_call : ArmRelocations
  arm_plt32_abs : ArmRelocations
  arm_got_abs : ArmRelocations
  arm_got_prel : ArmRelocations
  arm_got_brel12 : ArmRelocations
  arm_gotoff12 : ArmRelocations
  arm_gotrelax : ArmRelocations
  arm_gnu_vtentry : ArmRelocations
  arm_gnu_vtinherit : ArmRelocations
  arm_thm_jump11 : ArmRelocations
  arm_thm_jump8 : ArmRelocations
  arm_tls_gd32 : ArmRelocations
  arm_tls_ldm32 : ArmRelocations
  arm_tls_ldo32 : ArmRelocations
  arm_tls_ie32 : ArmRelocations
  arm_tls_le32 : ArmRelocations
  arm_tls_ldo12 : ArmRelocations
  arm_tls_le12 : ArmRelocations
  arm_tls_ie12gp : ArmRelocations
  arm_private_0 : ArmRelocations
  arm_private_1 : ArmRelocations
  arm_private_2 : ArmRelocations
  arm_private_3 : ArmRelocations
  arm_private_4 : ArmRelocations
  arm_private_5 : ArmRelocations
  arm_private_6 : ArmRelocations
  arm_private_7 : ArmRelocations
  arm_private_8 : ArmRelocations
  arm_private_9 : ArmRelocations
  arm_private_10 : ArmRelocations
  arm_private_11 : ArmRelocations
  arm_private_12 : ArmRelocations
  arm_private_13 : ArmRelocations
  arm_private_14 : ArmRelocations
  arm_private_15 : ArmRelocations
  arm_me_too : ArmRelocations
  arm_thm_tls_descseq16 : ArmRelocations
  arm_thm_tls_descseq32 : ArmRelocations

unfoldable pub arm_value : ArmRelocations → ℕ
arm_value arm_none = 0x00
arm_value arm_pc24 = 0x01
arm_value arm_abs32 = 0x02
arm_value arm_rel32 = 0x03
arm_value arm_ldr_pc_g0 = 0x04
arm_value arm_abs16 = 0x05
arm_value arm_abs12 = 0x06
arm_value arm_thm_abs5 = 0x07
arm_value arm_abs8 = 0x08
arm_value arm_sbrel32 = 0x09
arm_value arm_thm_call = 0x0a
arm_value arm_thm_pc8 = 0x0b
arm_value arm_brel_adj = 0x0c
arm_value arm_tls_desc = 0x0d
arm_value arm_thm_swi8 = 0x0e
arm_value arm_xpc25 = 0x0f
arm_value arm_thm_xpc22 = 0x10
arm_value arm_tls_dtpmod32 = 0x11
arm_value arm_tls_dtpoff32 = 0x12
arm_value arm_tls_tpoff32 = 0x13
arm_value arm_copy = 0x14
arm_value arm_glob_dat = 0x15
arm_value arm_jump_slot = 0x16
arm_value arm_relative = 0x17
arm_value arm_gotoff32 = 0x18
arm_value arm_base_prel = 0x19
arm_value arm_got_brel = 0x1a
arm_value arm_plt32 = 0x1b
arm_value arm_call = 0x1c
arm_value arm_jump24 = 0x1d
arm_value arm_thm_jump24 = 0x1e
arm_value arm_base_abs = 0x1f
arm_value arm_alu_pcrel_7_0 = 0x20
arm_value arm_alu_pcrel_15_8 = 0x21
arm_value arm_alu_pcrel_23_15 = 0x22
arm_value arm_ldr_sbrel_11_0_nc = 0x23
arm_value arm_alu_sbrel_19_12_nc = 0x24
arm_value arm_alu_sbrel_27_20_ck = 0x25
arm_value arm_target1 = 0x26
arm_value arm_sbrel31 = 0x27
arm_value arm_v4bx = 0x28
arm_value arm_target2 = 0x29
arm_value arm_prel31 = 0x2a
arm_value arm_movw_abs_nc = 0x2b
arm_value arm_movt_abs = 0x2c
arm_value arm_movw_prel_nc = 0x2d
arm_value arm_movt_prel = 0x2e
arm_value arm_thm_movw_abs_nc = 0x2f
arm_value arm_thm_movt_abs = 0x30
arm_value arm_thm_movw_prel_nc = 0x31
arm_value arm_thm_movt_prel = 0x32
arm_value arm_thm_jump19 = 0x33
arm_value arm_thm_jump6 = 0x34
arm_value arm_thm_alu_prel_11_0 = 0x35
arm_value arm_thm_pc12 = 0x36
arm_value arm_abs32_noi = 0x37
arm_value arm_rel32_noi = 0x38
arm_value arm_alu_pc_g0_nc = 0x39
arm_value arm_alu_pc_g0 = 0x3a
arm_value arm_alu_pc_g1_nc = 0x3b
arm_value arm_alu_pc_g1 = 0x3c
arm_value arm_alu_pc_g2 = 0x3d
arm_value arm_ldr_pc_g1 = 0x3e
arm_value arm_ldr_pc_g2 = 0x3f
arm_value arm_ldrs_pc_g0 = 0x40
arm_value arm_ldrs_pc_g1 = 0x41
arm_value arm_ldrs_pc_g2 = 0x42
arm_value arm_ldc_pc_g0 = 0x43
arm_value arm_ldc_pc_g1 = 0x44
arm_value arm_ldc_pc_g2 = 0x45
arm_value arm_alu_sb_g0_nc = 0x46
arm_value arm_alu_sb_g0 = 0x47
arm_value arm_alu_sb_g1_nc = 0x48
arm_value arm_alu_sb_g1 = 0x49
arm_value arm_alu_sb_g2 = 0x4a
arm_value arm_ldr_sb_g0 = 0x4b
arm_value arm_ldr_sb_g1 = 0x4c
arm_value arm_ldr_sb_g2 = 0x4d
arm_value arm_ldrs_sb_g0 = 0x4e
arm_value arm_ldrs_sb_g1 = 0x4f
arm_value arm_ldrs_sb_g2 = 0x50
arm_value arm_ldc_sb_g0 = 0x51
arm_value arm_ldc_sb_g1 = 0x52
arm_value arm_ldc_sb_g2 = 0x53
arm_value arm_movw_brel_nc = 0x54
arm_value arm_movt_brel = 0x55
arm_value arm_movw_brel = 0x56
arm_value arm_thm_movw_brel_nc = 0x57
arm_value arm_thm_movt_brel = 0x58
arm_value arm_thm_movw_brel = 0x59
arm_value arm_tls_gotdesc = 0x5a
arm_value arm_tls_call = 0x5b
arm_value arm_tls_descseq = 0x5c
arm_value arm_thm_tls_call = 0x5d
arm_value arm_plt32_abs = 0x5e
arm_value arm_got_abs = 0x5f
arm_value arm_got_prel = 0x60
arm_value arm_got_brel12 = 0x61
arm_value arm_gotoff12 = 0x62
arm_value arm_gotrelax = 0x63
arm_value arm_gnu_vtentry = 0x64
arm_value arm_gnu_vtinherit = 0x65
arm_value arm_thm_jump11 = 0x66
arm_value arm_thm_jump8 = 0x67
arm_value arm_tls_gd32 = 0x68
arm_value arm_tls_ldm32 = 0x69
arm_value arm_tls_ldo32 = 0x6a
arm_value arm_tls_ie32 = 0x6b
arm_value arm_tls_le32 = 0x6c
arm_value arm_tls_ldo12 = 0x6d
arm_value arm_tls_le12 = 0x6e
arm_value arm_tls_ie12gp = 0x6f
arm_value arm_private_0 = 0x70
arm_value arm_private_1 = 0x71
arm_value arm_private_2 = 0x72
arm_value arm_private_3 = 0x73
arm_value arm_private_4 = 0x74
arm_value arm_private_5 = 0x75
arm_value arm_private_6 = 0x76
arm_value arm_private_7 = 0x77
arm_value arm_private_8 = 0x78
arm_value arm_private_9 = 0x79
arm_value arm_private_10 = 0x7a
arm_value arm_private_11 = 0x7b
arm_value arm_private_12 = 0x7c
arm_value arm_private_13 = 0x7d
arm_value arm_private_14 = 0x7e
arm_value arm_private_15 = 0x7f
arm_value arm_me_too = 0x80
arm_value arm_thm_tls_descseq16 = 0x81
arm_value arm_thm_tls_descseq32 = 0x82

arm_constants : List ArmRelocations
arm_constants =
    arm_none ∷ arm_pc24 ∷ arm_abs32 ∷ arm_rel32 ∷ arm_ldr_pc_g0 ∷ arm_abs16 ∷ arm_abs12
    ∷ arm_thm_abs5 ∷ arm_abs8 ∷ arm_sbrel32 ∷ arm_thm_call ∷ arm_thm_pc8 ∷ arm_brel_adj
    ∷ arm_tls_desc ∷ arm_thm_swi8 ∷ arm_xpc25 ∷ arm_thm_xpc22 ∷ arm_tls_dtpmod32 ∷ arm_tls_dtpoff32
    ∷ arm_tls_tpoff32 ∷ arm_copy ∷ arm_glob_dat ∷ arm_jump_slot ∷ arm_relative ∷ arm_gotoff32
    ∷ arm_base_prel ∷ arm_got_brel ∷ arm_plt32 ∷ arm_call ∷ arm_jump24 ∷ arm_thm_jump24
    ∷ arm_base_abs ∷ arm_alu_pcrel_7_0 ∷ arm_alu_pcrel_15_8 ∷ arm_alu_pcrel_23_15
    ∷ arm_ldr_sbrel_11_0_nc ∷ arm_alu_sbrel_19_12_nc ∷ arm_alu_sbrel_27_20_ck ∷ arm_target1
    ∷ arm_sbrel31 ∷ arm_v4bx ∷ arm_target2 ∷ arm_prel31 ∷ arm_movw_abs_nc ∷ arm_movt_abs
    ∷ arm_movw_prel_nc ∷ arm_movt_prel ∷ arm_thm_movw_abs_nc ∷ arm_thm_movt_abs
    ∷ arm_thm_movw_prel_nc ∷ arm_thm_movt_prel ∷ arm_thm_jump19 ∷ arm_thm_jump6
    ∷ arm_thm_alu_prel_11_0 ∷ arm_thm_pc12 ∷ arm_abs32_noi ∷ arm_rel32_noi ∷ arm_alu_pc_g0_nc
    ∷ arm_alu_pc_g0 ∷ arm_alu_pc_g1_nc ∷ arm_alu_pc_g1 ∷ arm_alu_pc_g2 ∷ arm_ldr_pc_g1
    ∷ arm_ldr_pc_g2 ∷ arm_ldrs_pc_g0 ∷ arm_ldrs_pc_g1 ∷ arm_ldrs_pc_g2 ∷ arm_ldc_pc_g0
    ∷ arm_ldc_pc_g1 ∷ arm_ldc_pc_g2 ∷ arm_alu_sb_g0_nc ∷ arm_alu_sb_g0 ∷ arm_alu_sb_g1_nc
    ∷ arm_alu_sb_g1 ∷ arm_alu_sb_g2 ∷ arm_ldr_sb_g0 ∷ arm_ldr_sb_g1 ∷ arm_ldr_sb_g2 ∷ arm_ldrs_sb_g0
    ∷ arm_ldrs_sb_g1 ∷ arm_ldrs_sb_g2 ∷ arm_ldc_sb_g0 ∷ arm_ldc_sb_g1 ∷ arm_ldc_sb_g2
    ∷ arm_movw_brel_nc ∷ arm_movt_brel ∷ arm_movw_brel ∷ arm_thm_movw_brel_nc ∷ arm_thm_movt_brel
    ∷ arm_thm_movw_brel ∷ arm_tls_gotdesc ∷ arm_tls_call ∷ arm_tls_descseq ∷ arm_thm_tls_call
    ∷ arm_plt32_abs ∷ arm_got_abs ∷ arm_got_prel ∷ arm_got_brel12 ∷ arm_gotoff12 ∷ arm_gotrelax
    ∷ arm_gnu_vtentry ∷ arm_gnu_vtinherit ∷ arm_thm_jump11 ∷ arm_thm_jump8 ∷ arm_tls_gd32
    ∷ arm_tls_ldm32 ∷ arm_tls_ldo32 ∷ arm_tls_ie32 ∷ arm_tls_le32 ∷ arm_tls_ldo12 ∷ arm_tls_le12
    ∷ arm_tls_ie12gp ∷ arm_private_0 ∷ arm_private_1 ∷ arm_private_2 ∷ arm_private_3 ∷ arm_private_4
    ∷ arm_private_5 ∷ arm_private_6 ∷ arm_private_7 ∷ arm_private_8 ∷ arm_private_9 ∷ arm_private_10
    ∷ arm_private_11 ∷ arm_private_12 ∷ arm_private_13 ∷ arm_private_14 ∷ arm_private_15
    ∷ arm_me_too ∷ arm_thm_tls_descseq16 ∷ arm_thm_tls_descseq32 ∷ []

-- The constant that a `switch` on the number `n` selects; `none` is the `default` case.
unfoldable pub arm_constant : ℕ → Option ArmRelocations
unfolding select arm_value arm_constants
arm_constant n = select arm_value arm_constants n

-- Each constant is selected by its own value: no two share one.
pub arm_constant-value : (r : ArmRelocations) → arm_constant (arm_value r) ≡ some r
unfolding arm_constant arm_value
arm_constant-value arm_none = refl
arm_constant-value arm_pc24 = refl
arm_constant-value arm_abs32 = refl
arm_constant-value arm_rel32 = refl
arm_constant-value arm_ldr_pc_g0 = refl
arm_constant-value arm_abs16 = refl
arm_constant-value arm_abs12 = refl
arm_constant-value arm_thm_abs5 = refl
arm_constant-value arm_abs8 = refl
arm_constant-value arm_sbrel32 = refl
arm_constant-value arm_thm_call = refl
arm_constant-value arm_thm_pc8 = refl
arm_constant-value arm_brel_adj = refl
arm_constant-value arm_tls_desc = refl
arm_constant-value arm_thm_swi8 = refl
arm_constant-value arm_xpc25 = refl
arm_constant-value arm_thm_xpc22 = refl
arm_constant-value arm_tls_dtpmod32 = refl
arm_constant-value arm_tls_dtpoff32 = refl
arm_constant-value arm_tls_tpoff32 = refl
arm_constant-value arm_copy = refl
arm_constant-value arm_glob_dat = refl
arm_constant-value arm_jump_slot = refl
arm_constant-value arm_relative = refl
arm_constant-value arm_gotoff32 = refl
arm_constant-value arm_base_prel = refl
arm_constant-value arm_got_brel = refl
arm_constant-value arm_plt32 = refl
arm_constant-value arm_call = refl
arm_constant-value arm_jump24 = refl
arm_constant-value arm_thm_jump24 = refl
arm_constant-value arm_base_abs = refl
arm_constant-value arm_alu_pcrel_7_0 = refl
arm_constant-value arm_alu_pcrel_15_8 = refl
arm_constant-value arm_alu_pcrel_23_15 = refl
arm_constant-value arm_ldr_sbrel_11_0_nc = refl
arm_constant-value arm_alu_sbrel_19_12_nc = refl
arm_constant-value arm_alu_sbrel_27_20_ck = refl
arm_constant-value arm_target1 = refl
arm_constant-value arm_sbrel31 = refl
arm_constant-value arm_v4bx = refl
arm_constant-value arm_target2 = refl
arm_constant-value arm_prel31 = refl
arm_constant-value arm_movw_abs_nc = refl
arm_constant-value arm_movt_abs = refl
arm_constant-value arm_movw_prel_nc = refl
arm_constant-value arm_movt_prel = refl
arm_constant-value arm_thm_movw_abs_nc = refl
arm_constant-value arm_thm_movt_abs = refl
arm_constant-value arm_thm_movw_prel_nc = refl
arm_constant-value arm_thm_movt_prel = refl
arm_constant-value arm_thm_jump19 = refl
arm_constant-value arm_thm_jump6 = refl
arm_constant-value arm_thm_alu_prel_11_0 = refl
arm_constant-value arm_thm_pc12 = refl
arm_constant-value arm_abs32_noi = refl
arm_constant-value arm_rel32_noi = refl
arm_constant-value arm_alu_pc_g0_nc = refl
arm_constant-value arm_alu_pc_g0 = refl
arm_constant-value arm_alu_pc_g1_nc = refl
arm_constant-value arm_alu_pc_g1 = refl
arm_constant-value arm_alu_pc_g2 = refl
arm_constant-value arm_ldr_pc_g1 = refl
arm_constant-value arm_ldr_pc_g2 = refl
arm_constant-value arm_ldrs_pc_g0 = refl
arm_constant-value arm_ldrs_pc_g1 = refl
arm_constant-value arm_ldrs_pc_g2 = refl
arm_constant-value arm_ldc_pc_g0 = refl
arm_constant-value arm_ldc_pc_g1 = refl
arm_constant-value arm_ldc_pc_g2 = refl
arm_constant-value arm_alu_sb_g0_nc = refl
arm_constant-value arm_alu_sb_g0 = refl
arm_constant-value arm_alu_sb_g1_nc = refl
arm_constant-value arm_alu_sb_g1 = refl
arm_constant-value arm_alu_sb_g2 = refl
arm_constant-value arm_ldr_sb_g0 = refl
arm_constant-value arm_ldr_sb_g1 = refl
arm_constant-value arm_ldr_sb_g2 = refl
arm_constant-value arm_ldrs_sb_g0 = refl
arm_constant-value arm_ldrs_sb_g1 = refl
arm_constant-value arm_ldrs_sb_g2 = refl
arm_constant-value arm_ldc_sb_g0 = refl
arm_constant-value arm_ldc_sb_g1 = refl
arm_constant-value arm_ldc_sb_g2 = refl
arm_constant-value arm_movw_brel_nc = refl
arm_constant-value arm_movt_brel = refl
arm_constant-value arm_movw_brel = refl
arm_constant-value arm_thm_movw_brel_nc = refl
arm_constant-value arm_thm_movt_brel = refl
arm_constant-value arm_thm_movw_brel = refl
arm_constant-value arm_tls_gotdesc = refl
arm_constant-value arm_tls_call = refl
arm_constant-value arm_tls_descseq = refl
arm_constant-value arm_thm_tls_call = refl
arm_constant-value arm_plt32_abs = refl
arm_constant-value arm_got_abs = refl
arm_constant-value arm_got_prel = refl
arm_constant-value arm_got_brel12 = refl
arm_constant-value arm_gotoff12 = refl
arm_constant-value arm_gotrelax = refl
arm_constant-value arm_gnu_vtentry = refl
arm_constant-value arm_gnu_vtinherit = refl
arm_constant-value arm_thm_jump11 = refl
arm_constant-value arm_thm_jump8 = refl
arm_constant-value arm_tls_gd32 = refl
arm_constant-value arm_tls_ldm32 = refl
arm_constant-value arm_tls_ldo32 = refl
arm_constant-value arm_tls_ie32 = refl
arm_constant-value arm_tls_le32 = refl
arm_constant-value arm_tls_ldo12 = refl
arm_constant-value arm_tls_le12 = refl
arm_constant-value arm_tls_ie12gp = refl
arm_constant-value arm_private_0 = refl
arm_constant-value arm_private_1 = refl
arm_constant-value arm_private_2 = refl
arm_constant-value arm_private_3 = refl
arm_constant-value arm_private_4 = refl
arm_constant-value arm_private_5 = refl
arm_constant-value arm_private_6 = refl
arm_constant-value arm_private_7 = refl
arm_constant-value arm_private_8 = refl
arm_constant-value arm_private_9 = refl
arm_constant-value arm_private_10 = refl
arm_constant-value arm_private_11 = refl
arm_constant-value arm_private_12 = refl
arm_constant-value arm_private_13 = refl
arm_constant-value arm_private_14 = refl
arm_constant-value arm_private_15 = refl
arm_constant-value arm_me_too = refl
arm_constant-value arm_thm_tls_descseq16 = refl
arm_constant-value arm_thm_tls_descseq32 = refl

-- A constant is selected by no other number.
pub arm_value_of_constant : (n : ℕ) (r : ArmRelocations) → arm_constant n ≡ some r → arm_value r ≡ n
unfolding arm_constant
arm_value_of_constant n r h = select-value arm_value arm_constants n r h
