-- ===== src/Reloc/Arm/RoundTrip.antt =====
-- What `encodeAddend_arm` writes, `decodeAddend_arm` reads back, and the processor with it.
use liblink.Base.{
  ℕ, ◌+◌, ◌*◌, ◌/◌, ◌%◌, ◌^◌, ◌<◌, ◌≢◌, ◌⊎◌, inl, inr, fail, Fault, exit_failure, bit_and, bit_or,
  ◌≡◌, refl, ap, ◌∙◌, true, false, Option, some, arith, ok, ◌>>>◌, exit_success,
}
use liblink.Base.Bits.{bit_and_mask, bit_and_field, bit_or_fields}
use liblink.Memory.{Memory, load32, store32}
use liblink.Memory.Laws.{IsBytes, SameOutside, load32-lt, load32-store32, store32-SameOutside}
use liblink.Machine.Arm.{branch_offset}
use liblink.Compat.Arm.{
  ArmRelocations, arm_call, arm_jump24, arm_abs32, arm_rel32, arm_sbrel32, arm_gotoff32,
  arm_base_prel, arm_got_brel, arm_base_abs, arm_target1, arm_abs32_noi, arm_rel32_noi,
  arm_plt32_abs, arm_got_abs, arm_got_prel, arm_tls_gd32, arm_tls_ldm32, arm_tls_ldo32,
  arm_tls_ie32, arm_tls_le32, arm_tls_ldo12, arm_tls_le12, arm_abs16, arm_abs8, arm_prel31,
}
use liblink.Reloc.Util.{is_int32}
use liblink.Reloc.Util.Range.{is_int32_iff, sign_extend32_26}
use liblink.Reloc.Arm.{is_blx, decode_branch, decode_at, encode_branch, encode_at}

branch_fields :
    (w v : ℕ)
    → w < 2 ^ 32
    → bit_or (bit_and w 0xff000000) (bit_and (bit_and v 0x03fffffc >>> 2) 0x00ffffff)
      ≡ w / 2 ^ 24 * 2 ^ 24 + v / 2 ^ 2 % 2 ^ 24
branch_fields w v h =
    let upper : bit_and w 0xff000000 ≡ w / 2 ^ 24 % 2 ^ 8 * 2 ^ 24 = bit_and_field 8 24 w in
    let imm : bit_and v 0x03fffffc >>> 2 ≡ v / 2 ^ 2 % 2 ^ 24 =
      omega (arith, bit_and_field 24 2 v) in
    let lower : bit_and (v / 2 ^ 2 % 2 ^ 24) 0x00ffffff ≡ v / 2 ^ 2 % 2 ^ 24 =
      omega (arith, bit_and_mask 24 (v / 2 ^ 2 % 2 ^ 24)) in
    rw (upper, imm, lower)
      (ground (arith, bit_or_fields 24 (w / 2 ^ 24 % 2 ^ 8) (v / 2 ^ 2 % 2 ^ 24)))

-- The addend of a branch is the offset that the processor reads in the instruction.
pub decode_branch_lem :
    (p : ℕ) (m : Memory)
    → is_blx (load32 m p) ≡ false
    → decode_branch p m ≡ ok (branch_offset (load32 m p))
unfolding decode_branch
decode_branch_lem p m plain =
    let w = load32 m p in
    let low : bit_and w 0x00ffffff ≡ w % 2 ^ 24 = bit_and_mask 24 w in
    rw (plain, low) (ground (arith, sign_extend32_26 (w % 2 ^ 24 * 4)))

module _ (p v : ℕ) (m : Memory) (bytes : IsBytes m) (small : v < 2 ^ 32) where
  -- In an instruction that is not a `blx`, a branch addend that is a multiple of 4 and fits 26 bits is
  -- encoded: the processor reads it back from the instruction, so does `decodeAddend_arm`, and the
  -- opcode and all other bytes stay.
  pub decode-encode_branch :
      is_int32 26 v ≡ true
      → v % 4 ≡ 0
      → is_blx (load32 m p) ≡ false
      → (m' : Memory) × (encode_branch p v m ≡ ok (m', exit_success))
        × (branch_offset (load32 m' p) ≡ v)
        × (decode_branch p m' ≡ ok v)
        × (load32 m' p / 2 ^ 24 ≡ load32 m p / 2 ^ 24)
        × SameOutside p 4 m m'
  unfolding encode_branch
  decode-encode_branch fits aligned plain =
      let w = load32 m p in
      let w' = bit_or (bit_and w 0xff000000) (bit_and (bit_and v 0x03fffffc >>> 2) 0x00ffffff) in
      let m' = store32 m p w' in
      let range = (is_int32_iff 26 v (omega arith) (omega arith) small).0 fits in
      let bound = load32-lt m p bytes in
      let fields = branch_fields w v bound in
      let word = load32-store32 m p w' in
      let opcode : load32 m' p / 2 ^ 24 ≡ w / 2 ^ 24 = omega (arith, word, fields, bound) in
      let offset : branch_offset (load32 m' p) ≡ v = ground (arith, word, fields, range) in
      let plain' : is_blx (load32 m' p) ≡ false = unfold is_blx in ground arith in
      (
        m',
        rw fits,
        offset,
        decode_branch_lem p m' plain' ∙ ap ok offset,
        opcode,
        store32-SameOutside m p w',
      )

-- The types of ELF for ARM that patch one word of data, whole or in part.
unfoldable pub IsData : Option ArmRelocations → Type 0
IsData (some arm_abs32) = Unit {0}
IsData (some arm_rel32) = Unit {0}
IsData (some arm_sbrel32) = Unit {0}
IsData (some arm_gotoff32) = Unit {0}
IsData (some arm_base_prel) = Unit {0}
IsData (some arm_got_brel) = Unit {0}
IsData (some arm_base_abs) = Unit {0}
IsData (some arm_target1) = Unit {0}
IsData (some arm_abs32_noi) = Unit {0}
IsData (some arm_rel32_noi) = Unit {0}
IsData (some arm_plt32_abs) = Unit {0}
IsData (some arm_got_abs) = Unit {0}
IsData (some arm_got_prel) = Unit {0}
IsData (some arm_tls_gd32) = Unit {0}
IsData (some arm_tls_ldm32) = Unit {0}
IsData (some arm_tls_ldo32) = Unit {0}
IsData (some arm_tls_ie32) = Unit {0}
IsData (some arm_tls_le32) = Unit {0}
IsData (some arm_tls_ldo12) = Unit {0}
IsData (some arm_tls_le12) = Unit {0}
IsData (some arm_abs16) = Unit {0}
IsData (some arm_abs8) = Unit {0}
IsData (some arm_prel31) = Unit {0}
IsData _ = ⊥

-- The addend is a word in both directions.
abbrev IsWord : Option ArmRelocations → Type 0
IsWord r =
    IsData r
    × ((p v : ℕ) (m : Memory) → encode_at r p v m ≡ ok (store32 m p v, exit_success))
    × ((p : ℕ) (m : Memory) → decode_at r p m ≡ ok (load32 m p))

abbrev IsRefused : Option ArmRelocations → Type 0
IsRefused r =
    ¬ IsData r
    × ((p v : ℕ) (m : Memory) → encode_at r p v m ≡ ok (m, exit_failure))
    × ((p : ℕ) (m : Memory) → decode_at r p m ≡ fail Fault.aborted)

IsWord-IsRefused-cases :
    (r : Option ArmRelocations) → r ≢ some arm_call → r ≢ some arm_jump24 → IsWord r ⊎ IsRefused r
unfolding encode_at decode_at IsData
IsWord-IsRefused-cases (some arm_call) call jump = absurd (call refl)
IsWord-IsRefused-cases (some arm_jump24) call jump = absurd (jump refl)
IsWord-IsRefused-cases (some arm_abs32) call jump = inl (tt, (λ p v m. refl), λ p m. refl)
IsWord-IsRefused-cases (some arm_rel32) call jump = inl (tt, (λ p v m. refl), λ p m. refl)
IsWord-IsRefused-cases (some arm_sbrel32) call jump = inl (tt, (λ p v m. refl), λ p m. refl)
IsWord-IsRefused-cases (some arm_gotoff32) call jump = inl (tt, (λ p v m. refl), λ p m. refl)
IsWord-IsRefused-cases (some arm_base_prel) call jump = inl (tt, (λ p v m. refl), λ p m. refl)
IsWord-IsRefused-cases (some arm_got_brel) call jump = inl (tt, (λ p v m. refl), λ p m. refl)
IsWord-IsRefused-cases (some arm_base_abs) call jump = inl (tt, (λ p v m. refl), λ p m. refl)
IsWord-IsRefused-cases (some arm_target1) call jump = inl (tt, (λ p v m. refl), λ p m. refl)
IsWord-IsRefused-cases (some arm_abs32_noi) call jump = inl (tt, (λ p v m. refl), λ p m. refl)
IsWord-IsRefused-cases (some arm_rel32_noi) call jump = inl (tt, (λ p v m. refl), λ p m. refl)
IsWord-IsRefused-cases (some arm_plt32_abs) call jump = inl (tt, (λ p v m. refl), λ p m. refl)
IsWord-IsRefused-cases (some arm_got_abs) call jump = inl (tt, (λ p v m. refl), λ p m. refl)
IsWord-IsRefused-cases (some arm_got_prel) call jump = inl (tt, (λ p v m. refl), λ p m. refl)
IsWord-IsRefused-cases (some arm_tls_gd32) call jump = inl (tt, (λ p v m. refl), λ p m. refl)
IsWord-IsRefused-cases (some arm_tls_ldm32) call jump = inl (tt, (λ p v m. refl), λ p m. refl)
IsWord-IsRefused-cases (some arm_tls_ldo32) call jump = inl (tt, (λ p v m. refl), λ p m. refl)
IsWord-IsRefused-cases (some arm_tls_ie32) call jump = inl (tt, (λ p v m. refl), λ p m. refl)
IsWord-IsRefused-cases (some arm_tls_le32) call jump = inl (tt, (λ p v m. refl), λ p m. refl)
IsWord-IsRefused-cases (some arm_tls_ldo12) call jump = inl (tt, (λ p v m. refl), λ p m. refl)
IsWord-IsRefused-cases (some arm_tls_le12) call jump = inl (tt, (λ p v m. refl), λ p m. refl)
IsWord-IsRefused-cases (some arm_abs16) call jump = inl (tt, (λ p v m. refl), λ p m. refl)
IsWord-IsRefused-cases (some arm_abs8) call jump = inl (tt, (λ p v m. refl), λ p m. refl)
IsWord-IsRefused-cases (some arm_prel31) call jump = inl (tt, (λ p v m. refl), λ p m. refl)
IsWord-IsRefused-cases _ call jump = inr ((λ is. is), (λ p v m. refl), λ p m. refl)

-- Both directions agree on every type of relocation but the branches ARM_CALL and ARM_JUMP24. Each of
-- the 23 data relocations (`IsData`) stores its addend as a word, which `decodeAddend_arm` reads back for
-- the same type, and no other byte changes; this holds of the 16-bit, 8-bit and 31-bit types too, which
-- get a whole word. Every other type is refused: `encodeAddend_arm` returns `EXIT_FAILURE` and changes
-- nothing, and `decodeAddend_arm` aborts.
pub decode-encode-IsData :
    (r : Option ArmRelocations) (p v : ℕ) (m : Memory)
    → r ≢ some arm_call
    → r ≢ some arm_jump24
    → v < 2 ^ 32
    → (IsData r
        × (m' : Memory) × (encode_at r p v m ≡ ok (m', exit_success))
        × (decode_at r p m' ≡ ok v)
        × SameOutside p 4 m m')
      ⊎ (¬ IsData r
          × (encode_at r p v m ≡ ok (m, exit_failure))
          × (decode_at r p m ≡ fail Fault.aborted))
decode-encode-IsData r p v m call jump small = elim (IsWord-IsRefused-cases r call jump) [
  | inl (is, encodes, decodes) ↦ inl (
    is,
    store32 m p v,
    encodes p v m,
    decodes p (store32 m p v) ∙ ap ok (omega (arith, load32-store32 m p v)),
    store32-SameOutside m p v,
  )
  | inr (other, encodes, decodes) ↦ inr (other, encodes p v m, decodes p m)
]
