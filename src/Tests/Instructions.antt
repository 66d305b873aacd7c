-- ===== src/Tests/Instructions.antt =====
-- Single instructions that are patched.
use liblink.Base.{
  ◌+◌, ◌*◌, ◌/◌, ◌%◌, ◌^◌, ◌≤◌, ◌<◌, ◌≡◌, ◌⊎◌, ◌↔◌, refl, inr, true, false, arith, ok, some,
  exit_success, exit_failure, fail, Fault,
}
use liblink.Memory.{Memory, load32, store32, store64}
use liblink.Memory.Laws.{SameOutside}
use liblink.Types.{ElfRel}
use liblink.Compat.Arm64.{arm64_constant}
use liblink.Compat.Arm.{arm_abs32}
use liblink.Machine.Arm64 as Cpu64
use liblink.Machine.Arm as Cpu32
use liblink.Reloc.Util.{is_int32, is_int64}
use liblink.Reloc.Util.Range.{is_int64_iff}
use liblink.Reloc.Arm64 as Arm64
use liblink.Reloc.Arm64.{got_shift, inst_shift, is_load_store, encode_addend_arm64}
use liblink.Reloc.Arm64.Encode.{encode_branch_lem, encode_adrp_lem, encode_lo12_lem}
use liblink.Reloc.Arm64.Writes.{encode_addend_arm64-SameOutside}
use liblink.Reloc.Arm as Arm
use liblink.Reloc.Arm.RoundTrip.{IsData, decode-encode_branch, decode-encode-IsData}
use liblink.Tests.Data.{zeros, code, code-IsBytes, text}

is_int64_iff_example :
    (is_int64 28 0x08000000 ≡ true) ↔ ((0x08000000 < 2 ^ 27) ⊎ (2 ^ 64 ≤ 0x08000000 + 2 ^ 27))
is_int64_iff_example = is_int64_iff 28 0x08000000 (omega arith) (omega arith) (omega arith)

near_branch : is_int64 28 0x1234 ≡ true
unfolding is_int64
near_branch = refl

near_page : is_int64 32 0xfffffffffffff000 ≡ true
unfolding is_int64
near_page = refl

-- A `bl` that gets the offset 0x1234.
encode_branch_lem_example :
    (m' : Memory) × (Arm64.encode_branch 0x10000 0x1234 (code 0x10000 0x94000000) ≡ ok m')
    × (Cpu64.branch_offset (load32 m' 0x10000) ≡ 0x1234)
    × (load32 m' 0x10000 / 2 ^ 26 ≡ load32 (code 0x10000 0x94000000) 0x10000 / 2 ^ 26)
    × SameOutside 0x10000 4 (code 0x10000 0x94000000) m'
encode_branch_lem_example =
    encode_branch_lem 0x10000 0x1234 (code 0x10000 0x94000000) (code-IsBytes 0x10000 0x94000000)
      (omega arith) near_branch refl

-- An `adrp` of the page before.
abbrev adrp : Memory
adrp = code 0x10000 0x90000003

encode_adrp_lem_example :
    (m' : Memory) × (Arm64.encode_adrp 0x10000 0xfffffffffffff000 adrp ≡ ok m')
    × (Cpu64.adrp_offset (load32 m' 0x10000) ≡ 0xfffffffffffff000)
    × (load32 m' 0x10000 / 2 ^ 31 ≡ load32 adrp 0x10000 / 2 ^ 31)
    × (load32 m' 0x10000 / 2 ^ 24 % 2 ^ 5 ≡ load32 adrp 0x10000 / 2 ^ 24 % 2 ^ 5)
    × (load32 m' 0x10000 % 2 ^ 5 ≡ load32 adrp 0x10000 % 2 ^ 5)
    × SameOutside 0x10000 4 adrp m'
encode_adrp_lem_example =
    encode_adrp_lem 0x10000 0xfffffffffffff000 adrp (code-IsBytes 0x10000 0x90000003) (omega arith)
      near_page refl

-- `ldr x3, [x3]`, whose immediate counts 8 bytes.
abbrev ldr : Memory
ldr = code 0x10000 0xf9400063

ldr_scale : Cpu64.imm12_scale (load32 ldr 0x10000) ≡ 3
unfolding Cpu64.imm12_scale load32 store32
ldr_scale = refl

encode_lo12_lem_example :
    (m' : Memory) × (Arm64.encode_lo12 (some 3) 0x10000 0x128 ldr ≡ ok m')
    × (Cpu64.imm12 (load32 m' 0x10000) * 2 ^ Cpu64.imm12_scale (load32 ldr 0x10000) ≡ 0x128)
    × (load32 m' 0x10000 / 2 ^ 22 ≡ load32 ldr 0x10000 / 2 ^ 22)
    × (load32 m' 0x10000 % 2 ^ 10 ≡ load32 ldr 0x10000 % 2 ^ 10)
    × SameOutside 0x10000 4 ldr m'
encode_lo12_lem_example =
    encode_lo12_lem 0x10000 0x128 ldr (code-IsBytes 0x10000 0xf9400063) (omega arith) (some 3) 3
      (unfold got_shift in refl) (omega arith) (rw ldr_scale refl) (inr (rw ldr_scale refl))

-- R_AARCH64_ABS64 at the start of the section.
abbrev abs64 : ElfRel
abs64 = record { r_offset = 0; r_info = 257 }

abs64_done :
    encode_addend_arm64 text abs64 0x7f00000000 zeros
    ≡ ok (store64 zeros 0x10000 0x7f00000000, exit_success)
unfolding encode_addend_arm64 Arm64.encode_at arm64_constant
abs64_done = refl

encode_addend_arm64-SameOutside_example :
    SameOutside 0x10000 8 zeros (store64 zeros 0x10000 0x7f00000000) × (exit_success ≡ exit_success)
encode_addend_arm64-SameOutside_example =
    encode_addend_arm64-SameOutside text abs64 0x7f00000000 zeros
      (store64 zeros 0x10000 0x7f00000000) exit_success abs64_done

-- An ARM `bl`.
abbrev bl : Memory
bl = code 0x10000 0xeb000000

bl_plain : Arm.is_blx (load32 bl 0x10000) ≡ false
unfolding Arm.is_blx load32 store32
bl_plain = refl

near_call : is_int32 26 0xfffffff8 ≡ true
unfolding is_int32
near_call = refl

decode-encode_branch_example :
    (m' : Memory) × (Arm.encode_branch 0x10000 0xfffffff8 bl ≡ ok (m', exit_success))
    × (Cpu32.branch_offset (load32 m' 0x10000) ≡ 0xfffffff8)
    × (Arm.decode_branch 0x10000 m' ≡ ok 0xfffffff8)
    × (load32 m' 0x10000 / 2 ^ 24 ≡ load32 bl 0x10000 / 2 ^ 24)
    × SameOutside 0x10000 4 bl m'
decode-encode_branch_example =
    decode-encode_branch 0x10000 0xfffffff8 bl (code-IsBytes 0x10000 0xeb000000) (omega arith)
      near_call refl bl_plain

decode-encode-IsData_example :
    (IsData (some arm_abs32)
      × (m' : Memory) × (Arm.encode_at (some arm_abs32) 0x10000 0xcafe zeros
          ≡ ok (m', exit_success))
      × (Arm.decode_at (some arm_abs32) 0x10000 m' ≡ ok 0xcafe)
      × SameOutside 0x10000 4 zeros m')
    ⊎ (¬ IsData (some arm_abs32)
        × (Arm.encode_at (some arm_abs32) 0x10000 0xcafe zeros ≡ ok (zeros, exit_failure))
        × (Arm.decode_at (some arm_abs32) 0x10000 zeros ≡ fail Fault.aborted))
decode-encode-IsData_example =
    decode-encode-IsData (some arm_abs32) 0x10000 0xcafe zeros (λ e. absurd (cc)) (λ e. absurd (cc))
      (omega arith)
