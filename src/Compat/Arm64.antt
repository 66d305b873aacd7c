-- ===== src/Compat/Arm64.antt =====
-- elf/compat.h: the relocation types of AArch64.
use liblink.Base.{ℕ, ◌≡◌, refl, List, [], ◌∷◌, Option, some}
use liblink.Compat.{select, select-value}

pub data Arm64Relocations : Type 0 where
  aarch64_none : Arm64Relocations
  aarch64_abs64 : Arm64Relocations
  aarch64_abs32 : Arm64Relocations
  aarch64_abs16 : Arm64Relocations
  aarch64_prel64 : Arm64Relocations
  aarch64_prel32 : Arm64Relocations
  aarch64_prel16 : Arm64Relocations
  aarch64_movw_uabs_g0 : Arm64Relocations
  aarch64_movw_uabs_g0_nc : Arm64Relocations
  aarch64_movw_uabs_g1 : Arm64Relocations
  aarch64_movw_uabs_g1_nc : Arm64Relocations
  aarch64_movw_uabs_g2 : Arm64Relocations
  aarch64_movw_uabs_g2_nc : Arm64Relocations
  aarch64_movw_uabs_g3 : Arm64Relocations
  aarch64_movw_sabs_g0 : Arm64Relocations
  aarch64_movw_sabs_g1 : Arm64Relocations
  aarch64_movw_sabs_g2 : Arm64Relocations
  aarch64_ld_prel_lo19 : Arm64Relocations
  aarch64_adr_prel_lo21 : Arm64Relocations
  aarch64_adr_prel_pg_hi21 : Arm64Relocations
  aarch64_add_abs_lo12_nc : Arm64Relocations
  aarch64_ldst8_abs_lo12_nc : Arm64Relocations
  aarch64_tstbr14 : Arm64Relocations
  aarch64_condbr19 : Arm64Relocations
  aarch64_jump26 : Arm64Relocations
  aarch64_call26 : Arm64Relocations
  aarch64_ldst16_abs_lo12_nc : Arm64Relocations
  aarch64_ldst32_abs_lo12_nc : Arm64Relocations
  aarch64_ldst64_abs_lo12_nc : Arm64Relocations
  aarch64_ldst128_abs_lo12_nc : Arm64Relocations
  aarch64_adr_got_page : Arm64Relocations
  aarch64_ld64_got_lo12_nc : Arm64Relocations
  aarch64_tlsld_movw_dtprel_g2 : Arm64Relocations
  aarch64_tlsld_movw_dtprel_g1 : Arm64Relocations
  aarch64_tlsld_movw_dtprel_g1_nc : Arm64Relocations
  aarch64_tlsld_movw_dtprel_g0 : Arm64Relocations
  aarch64_tlsld_movw_dtprel_g0_nc : Arm64Relocations
  aarch64_tlsld_add_dtprel_hi12 : Arm64Relocations
  aarch64_tlsld_add_dtprel_lo12 : Arm64Relocations
  aarch64_tlsld_add_dtprel_lo12_nc : Arm64Relocations
  aarch64_tlsld_ldst8_dtprel_lo12 : Arm64Relocations
  aarch64_tlsld_ldst8_dtprel_lo12_nc : Arm64Relocations
  aarch64_tlsld_ldst16_dtprel_lo12 : Arm64Relocations
  aarch64_tlsld_ldst16_dtprel_lo12_nc : Arm64Relocations
  aarch64_tlsld_ldst32_dtprel_lo12 : Arm64Relocations
  aarch64_tlsld_ldst32_dtprel_lo12_nc : Arm64Relocations
  aarch64_tlsld_ldst64_dtprel_lo12 : Arm64Relocations
  aarch64_tlsld_ldst64_dtprel_lo12_nc : Arm64Relocations
  aarch64_tlsie_movw_gottprel_g1 : Arm64Relocations
  aarch64_tlsie_movw_gottprel_g0_nc : Arm64Relocations
  aarch64_tlsie_adr_gottprel_page21 : Arm64Relocations
  aarch64_tlsie_ld64_gottprel_lo12_nc : Arm64Relocations
  aarch64_tlsie_ld_gottprel_prel19 : Arm64Relocations
  aarch64_tlsle_movw_tprel_g2 : Arm64Relocations
  aarch64_tlsle_movw_tprel_g1 : Arm64Relocations
  aarch64_tlsle_movw_tprel_g1_nc : Arm64Relocations
  aarch64_tlsle_movw_tprel_g0 : Arm64Relocations
  aarch64_tlsle_movw_tprel_g0_nc : Arm64Relocations
  aarch64_tlsle_add_tprel_hi12 : Arm64Relocations
  aarch64_tlsle_add_tprel_lo12 : Arm64Relocations
  aarch64_tlsle_add_tprel_lo12_nc : Arm64Relocations
  aarch64_tlsle_ldst8_tprel_lo12 : Arm64Relocations
  aarch64_tlsle_ldst8_tprel_lo12_nc : Arm64Relocations
  aarch64_tlsle_ldst16_tprel_lo12 : Arm64Relocations
  aarch64_tlsle_ldst16_tprel_lo12_nc : Arm64Relocations
  aarch64_tlsle_ldst32_tprel_lo12 : Arm64Relocations
  aarch64_tlsle_ldst32_tprel_lo12_nc : Arm64Relocations
  aarch64_tlsle_ldst64_tprel_lo12 : Arm64Relocations
  aarch64_tlsle_ldst64_tprel_lo12_nc : Arm64Relocations
  aarch64_tlsdesc_adr_page : Arm64Relocations
  aarch64_tlsdesc_ld64_lo12_nc : Arm64Relocations
  aarch64_tlsdesc_add_lo12_nc : Arm64Relocations
  aarch64_tlsdesc_call : Arm64Relocations

unfoldable pub arm64_value : Arm64Relocations → ℕ
arm64_value aarch64_none = 0x100
arm64_value aarch64_abs64 = 0x101
arm64_value aarch64_abs32 = 0x102
arm64_value aarch64_abs16 = 0x103
arm64_value aarch64_prel64 = 0x104
arm64_value aarch64_prel32 = 0x105
arm64_value aarch64_prel16 = 0x106
arm64_value aarch64_movw_uabs_g0 = 0x107
arm64_value aarch64_movw_uabs_g0_nc = 0x108
arm64_value aarch64_movw_uabs_g1 = 0x109
arm64_value aarch64_movw_uabs_g1_nc = 0x10a
arm64_value aarch64_movw_uabs_g2 = 0x10b
arm64_value aarch64_movw_uabs_g2_nc = 0x10c
arm64_value aarch64_movw_uabs_g3 = 0x10d
arm64_value aarch64_movw_sabs_g0 = 0x10e
arm64_value aarch64_movw_sabs_g1 = 0x10f
arm64_value aarch64_movw_sabs_g2 = 0x110
arm64_value aarch64_ld_prel_lo19 = 0x111
arm64_value aarch64_adr_prel_lo21 = 0x112
arm64_value aarch64_adr_prel_pg_hi21 = 0x113
arm64_value aarch64_add_abs_lo12_nc = 0x115
arm64_value aarch64_ldst8_abs_lo12_nc = 0x116
arm64_value aarch64_tstbr14 = 0x117
arm64_value aarch64_condbr19 = 0x118
arm64_value aarch64_jump26 = 0x11a
arm64_value aarch64_call26 = 0x11b
arm64_value aarch64_ldst16_abs_lo12_nc = 0x11c
arm64_value aarch64_ldst32_abs_lo12_nc = 0x11d
arm64_value aarch64_ldst64_abs_lo12_nc = 0x11e
arm64_value aarch64_ldst128_abs_lo12_nc = 0x12b
arm64_value aarch64_adr_got_page = 0x137
arm64_value aarch64_ld64_got_lo12_nc = 0x138
arm64_value aarch64_tlsld_movw_dtprel_g2 = 0x20b
arm64_value aarch64_tlsld_movw_dtprel_g1 = 0x20c
arm64_value aarch64_tlsld_movw_dtprel_g1_nc = 0x20d
arm64_value aarch64_tlsld_movw_dtprel_g0 = 0x20e
arm64_value aarch64_tlsld_movw_dtprel_g0_nc = 0x20f
arm64_value aarch64_tlsld_add_dtprel_hi12 = 0x210
arm64_value aarch64_tlsld_add_dtprel_lo12 = 0x211
arm64_value aarch64_tlsld_add_dtprel_lo12_nc = 0x212
arm64_value aarch64_tlsld_ldst8_dtprel_lo12 = 0x213
arm64_value aarch64_tlsld_ldst8_dtprel_lo12_nc = 0x214
arm64_value aarch64_tlsld_ldst16_dtprel_lo12 = 0x215
arm64_value aarch64_tlsld_ldst16_dtprel_lo12_nc = 0x216
arm64_value aarch64_tlsld_ldst32_dtprel_lo12 = 0x217
arm64_value aarch64_tlsld_ldst32_dtprel_lo12_nc = 0x218
arm64_value aarch64_tlsld_ldst64_dtprel_lo12 = 0x219
arm64_value aarch64_tlsld_ldst64_dtprel_lo12_nc = 0x21a
arm64_value aarch64_tlsie_movw_gottprel_g1 = 0x21b
arm64_value aarch64_tlsie_movw_gottprel_g0_nc = 0x21c
arm64_value aarch64_tlsie_adr_gottprel_page21 = 0x21d
arm64_value aarch64_tlsie_ld64_gottprel_lo12_nc = 0x21e
arm64_value aarch64_tlsie_ld_gottprel_prel19 = 0x21f
arm64_value aarch64_tlsle_movw_tprel_g2 = 0x220
arm64_value aarch64_tlsle_movw_tprel_g1 = 0x221
arm64_value aarch64_tlsle_movw_tprel_g1_nc = 0x222
arm64_value aarch64_tlsle_movw_tprel_g0 = 0x223
arm64_value aarch64_tlsle_movw_tprel_g0_nc = 0x224
arm64_value aarch64_tlsle_add_tprel_hi12 = 0x225
arm64_value aarch64_tlsle_add_tprel_lo12 = 0x226
arm64_value aarch64_tlsle_add_tprel_lo12_nc = 0x227
arm64_value aarch64_tlsle_ldst8_tprel_lo12 = 0x228
arm64_value aarch64_tlsle_ldst8_tprel_lo12_nc = 0x229
arm64_value aarch64_tlsle_ldst16_tprel_lo12 = 0x22a
arm64_value aarch64_tlsle_ldst16_tprel_lo12_nc = 0x22b
arm64_value aarch64_tlsle_ldst32_tprel_lo12 = 0x22c
arm64_value aarch64_tlsle_ldst32_tprel_lo12_nc = 0x22d
arm64_value aarch64_tlsle_ldst64_tprel_lo12 = 0x22e
arm64_value aarch64_tlsle_ldst64_tprel_lo12_nc = 0x22f
arm64_value aarch64_tlsdesc_adr_page = 0x232
arm64_value aarch64_tlsdesc_ld64_lo12_nc = 0x233
arm64_value aarch64_tlsdesc_add_lo12_nc = 0x234
arm64_value aarch64_tlsdesc_call = 0x239

arm64_constants : List Arm64Relocations
arm64_constants =
    aarch64_none ∷ aarch64_abs64 ∷ aarch64_abs32 ∷ aarch64_abs16 ∷ aarch64_prel64 ∷ aarch64_prel32
    ∷ aarch64_prel16 ∷ aarch64_movw_uabs_g0 ∷ aarch64_movw_uabs_g0_nc ∷ aarch64_movw_uabs_g1
    ∷ aarch64_movw_uabs_g1_nc ∷ aarch64_movw_uabs_g2 ∷ aarch64_movw_uabs_g2_nc
    ∷ aarch64_movw_uabs_g3 ∷ aarch64_movw_sabs_g0 ∷ aarch64_movw_sabs_g1 ∷ aarch64_movw_sabs_g2
    ∷ aarch64_ld_prel_lo19 ∷ aarch64_adr_prel_lo21 ∷ aarch64_adr_prel_pg_hi21
    ∷ aarch64_add_abs_lo12_nc ∷ aarch64_ldst8_abs_lo12_nc ∷ aarch64_tstbr14 ∷ aarch64_condbr19
    ∷ aarch64_jump26 ∷ aarch64_call26 ∷ aarch64_ldst16_abs_lo12_nc ∷ aarch64_ldst32_abs_lo12_nc
    ∷ aarch64_ldst64_abs_lo12_nc ∷ aarch64_ldst128_abs_lo12_nc ∷ aarch64_adr_got_page
    ∷ aarch64_ld64_got_lo12_nc ∷ aarch64_tlsld_movw_dtprel_g2 ∷ aarch64_tlsld_movw_dtprel_g1
    ∷ aarch64_tlsld_movw_dtprel_g1_nc ∷ aarch64_tlsld_movw_dtprel_g0
    ∷ aarch64_tlsld_movw_dtprel_g0_nc ∷ aarch64_tlsld_add_dtprel_hi12
    ∷ aarch64_tlsld_add_dtprel_lo12 ∷ aarch64_tlsld_add_dtprel_lo12_nc
    ∷ aarch64_tlsld_ldst8_dtprel_lo12 ∷ aarch64_tlsld_ldst8_dtprel_lo12_nc
    ∷ aarch64_tlsld_ldst16_dtprel_lo12 ∷ aarch64_tlsld_ldst16_dtprel_lo12_nc
    ∷ aarch64_tlsld_ldst32_dtprel_lo12 ∷ aarch64_tlsld_ldst32_dtprel_lo12_nc
    ∷ aarch64_tlsld_ldst64_dtprel_lo12 ∷ aarch64_tlsld_ldst64_dtprel_lo12_nc
    ∷ aarch64_tlsie_movw_gottprel_g1 ∷ aarch64_tlsie_movw_gottprel_g0_nc
    ∷ aarch64_tlsie_adr_gottprel_page21 ∷ aarch64_tlsie_ld64_gottprel_lo12_nc
    ∷ aarch64_tlsie_ld_gottprel_prel19 ∷ aarch64_tlsle_movw_tprel_g2 ∷ aarch64_tlsle_movw_tprel_g1
    ∷ aarch64_tlsle_movw_tprel_g1_nc ∷ aarch64_tlsle_movw_tprel_g0 ∷ aarch64_tlsle_movw_tprel_g0_nc
    ∷ aarch64_tlsle_add_tprel_hi12 ∷ aarch64_tlsle_add_tprel_lo12 ∷ aarch64_tlsle_add_tprel_lo12_nc
    ∷ aarch64_tlsle_ldst8_tprel_lo12 ∷ aarch64_tlsle_ldst8_tprel_lo12_nc
    ∷ aarch64_tlsle_ldst16_tprel_lo12 ∷ aarch64_tlsle_ldst16_tprel_lo12_nc
    ∷ aarch64_tlsle_ldst32_tprel_lo12 ∷ aarch64_tlsle_ldst32_tprel_lo12_nc
    ∷ aarch64_tlsle_ldst64_tprel_lo12 ∷ aarch64_tlsle_ldst64_tprel_lo12_nc
    ∷ aarch64_tlsdesc_adr_page ∷ aarch64_tlsdesc_ld64_lo12_nc ∷ aarch64_tlsdesc_add_lo12_nc
    ∷ aarch64_tlsdesc_call ∷ []

-- The constant that a `switch` on the number `n` selects; `none` is the `default` case.
unfoldable pub arm64_constant : ℕ → Option Arm64Relocations
unfolding select arm64_value arm64_constants
arm64_constant n = select arm64_value arm64_constants n

-- Each constant is selected by its own value: no two share one.
pub arm64_constant-value : (r : Arm64Relocations) → arm64_constant (arm64_value r) ≡ some r
unfolding arm64_constant arm64_value
arm64_constant-value aarch64_none = refl
arm64_constant-value aarch64_abs64 = refl
arm64_constant-value aarch64_abs32 = refl
arm64_constant-value aarch64_abs16 = refl
arm64_constant-value aarch64_prel64 = refl
arm64_constant-value aarch64_prel32 = refl
arm64_constant-value aarch64_prel16 = refl
arm64_constant-value aarch64_movw_uabs_g0 = refl
arm64_constant-value aarch64_movw_uabs_g0_nc = refl
arm64_constant-value aarch64_movw_uabs_g1 = refl
arm64_constant-value aarch64_movw_uabs_g1_nc = refl
arm64_constant-value aarch64_movw_uabs_g2 = refl
arm64_constant-value aarch64_movw_uabs_g2_nc = refl
arm64_constant-value aarch64_movw_uabs_g3 = refl
arm64_constant-value aarch64_movw_sabs_g0 = refl
arm64_constant-value aarch64_movw_sabs_g1 = refl
arm64_constant-value aarch64_movw_sabs_g2 = refl
arm64_constant-value aarch64_ld_prel_lo19 = refl
arm64_constant-value aarch64_adr_prel_lo21 = refl
arm64_constant-value aarch64_adr_prel_pg_hi21 = refl
arm64_constant-value aarch64_add_abs_lo12_nc = refl
arm64_constant-value aarch64_ldst8_abs_lo12_nc = refl
arm64_constant-value aarch64_tstbr14 = refl
arm64_constant-value aarch64_condbr19 = refl
arm64_constant-value aarch64_jump26 = refl
arm64_constant-value aarch64_call26 = refl
arm64_constant-value aarch64_ldst16_abs_lo12_nc = refl
arm64_constant-value aarch64_ldst32_abs_lo12_nc = refl
arm64_constant-value aarch64_ldst64_abs_lo12_nc = refl
arm64_constant-value aarch64_ldst128_abs_lo12_nc = refl
arm64_constant-value aarch64_adr_got_page = refl
arm64_constant-value aarch64_ld64_got_lo12_nc = refl
arm64_constant-value aarch64_tlsld_movw_dtprel_g2 = refl
arm64_constant-value aarch64_tlsld_movw_dtprel_g1 = refl
arm64_constant-value aarch64_tlsld_movw_dtprel_g1_nc = refl
arm64_constant-value aarch64_tlsld_movw_dtprel_g0 = refl
arm64_constant-value aarch64_tlsld_movw_dtprel_g0_nc = refl
arm64_constant-value aarch64_tlsld_add_dtprel_hi12 = refl
arm64_constant-value aarch64_tlsld_add_dtprel_lo12 = refl
arm64_constant-value aarch64_tlsld_add_dtprel_lo12_nc = refl
arm64_constant-value aarch64_tlsld_ldst8_dtprel_lo12 = refl
arm64_constant-value aarch64_tlsld_ldst8_dtprel_lo12_nc = refl
arm64_constant-value aarch64_tlsld_ldst16_dtprel_lo12 = refl
arm64_constant-value aarch64_tlsld_ldst16_dtprel_lo12_nc = refl
arm64_constant-value aarch64_tlsld_ldst32_dtprel_lo12 = refl
arm64_constant-value aarch64_tlsld_ldst32_dtprel_lo12_nc = refl
arm64_constant-value aarch64_tlsld_ldst64_dtprel_lo12 = refl
arm64_constant-value aarch64_tlsld_ldst64_dtprel_lo12_nc = refl
arm64_constant-value aarch64_tlsie_movw_gottprel_g1 = refl
arm64_constant-value aarch64_tlsie_movw_gottprel_g0_nc = refl
arm64_constant-value aarch64_tlsie_adr_gottprel_page21 = refl
arm64_constant-value aarch64_tlsie_ld64_gottprel_lo12_nc = refl
arm64_constant-value aarch64_tlsie_ld_gottprel_prel19 = refl
arm64_constant-value aarch64_tlsle_movw_tprel_g2 = refl
arm64_constant-value aarch64_tlsle_movw_tprel_g1 = refl
arm64_constant-value aarch64_tlsle_movw_tprel_g1_nc = refl
arm64_constant-value aarch64_tlsle_movw_tprel_g0 = refl
arm64_constant-value aarch64_tlsle_movw_tprel_g0_nc = refl
arm64_constant-value aarch64_tlsle_add_tprel_hi12 = refl
arm64_constant-value aarch64_tlsle_add_tprel_lo12 = refl
arm64_constant-value aarch64_tlsle_add_tprel_lo12_nc = refl
arm64_constant-value aarch64_tlsle_ldst8_tprel_lo12 = refl
arm64_constant-value aarch64_tlsle_ldst8_tprel_lo12_nc = refl
arm64_constant-value aarch64_tlsle_ldst16_tprel_lo12 = refl
arm64_constant-value aarch64_tlsle_ldst16_tprel_lo12_nc = refl
arm64_constant-value aarch64_tlsle_ldst32_tprel_lo12 = refl
arm64_constant-value aarch64_tlsle_ldst32_tprel_lo12_nc = refl
arm64_constant-value aarch64_tlsle_ldst64_tprel_lo12 = refl
arm64_constant-value aarch64_tlsle_ldst64_tprel_lo12_nc = refl
arm64_constant-value aarch64_tlsdesc_adr_page = refl
arm64_constant-value aarch64_tlsdesc_ld64_lo12_nc = refl
arm64_constant-value aarch64_tlsdesc_add_lo12_nc = refl
arm64_constant-value aarch64_tlsdesc_call = refl

-- A constant is selected by no other number.
pub arm64_value_of_constant :
    (n : ℕ) (r : Arm64Relocations) → arm64_constant n ≡ some r → arm64_value r ≡ n
unfolding arm64_constant
arm64_value_of_constant n r h = select-value arm64_value arm64_constants n r h
