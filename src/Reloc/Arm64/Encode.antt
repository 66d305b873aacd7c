-- ===== src/Reloc/Arm64/Encode.antt =====
-- What `encodeAddend_arm64` leaves in memory: the patched instruction carries the addend in the
-- fields where the processor reads it, and nothing else changes.
use liblink.Base.{
  ℕ, ◌+◌, ◌*◌, ◌/◌, ◌%◌, ◌^◌, ◌<◌, bit_and, bit_or, ◌≡◌, ◌∙◌, ◌⊎◌, true, ◌||◌, Option, arith, ok,
  sar, u32, u64, ◌<<<◌, ◌>>>◌, ◌==◌, ==_refl,
}
use native.Mathlib.Nat.{mod-eq_of_lt, div-le_self, div-add-mod}
use liblink.Base.Bits.{bit_and_mask, bit_and_field, bit_and_split}
use liblink.Memory.{Memory, load32, load64, store32}
use liblink.Memory.Laws.{IsBytes, SameOutside, load32-lt, load32-store32, store32-SameOutside}
use liblink.Machine.Arm64.{branch_offset, adrp_offset, imm12, imm12_scale}
use liblink.Reloc.Util.{is_int64}
use liblink.Reloc.Util.Range.{is_int64_iff}
use liblink.Reloc.Arm64.{
  encode_adrp, encode_branch, encode_lo12, got_shift, inst_shift, is_load_store, is_vector_op,
}
use liblink.Reloc.Arm64.Fields.{branch_fields, adrp_fields, imm12_fields}

-- The tests of `isLoadStore` and `isVectorOp` on the word `w` below `h`.
load_store_mask :
    (w h : ℕ)
    → bit_and (w + h * 2 ^ 32) 0x3b000000
      ≡ w / 2 ^ 27 % 2 ^ 3 * 2 ^ 27 + w / 2 ^ 24 % 2 ^ 2 * 2 ^ 24
load_store_mask w h =
    let a = w + h * 2 ^ 32 in
    omega (
      arith,
      bit_and_split 27 a 7 0x3000000 (omega arith),
      bit_and_mask 3 (a / 2 ^ 27),
      bit_and_field 2 24 (a % 2 ^ 27),
    )

vector_mask :
    (w h : ℕ)
    → bit_and (w + h * 2 ^ 32) 0x04800000 ≡ w / 2 ^ 26 % 2 * 2 ^ 26 + w / 2 ^ 23 % 2 * 2 ^ 23
vector_mask w h =
    let a = w + h * 2 ^ 32 in
    omega (
      arith,
      bit_and_split 26 a 1 0x800000 (omega arith),
      bit_and_mask 1 (a / 2 ^ 26),
      bit_and_field 1 23 (a % 2 ^ 26),
    )

-- The scale that the code takes is that of the processor.
inst_shift_lem : (p : ℕ) (m : Memory) → inst_shift p m ≡ imm12_scale (load32 m p)
unfolding inst_shift is_load_store is_vector_op imm12_scale load64
inst_shift_lem p m =
    let w = load32 m p in
    let h = load32 m (p + 4) in
    let size : bit_and (w >>> 30) 0x3 ≡ w / 2 ^ 30 % 2 ^ 2 = bit_and_mask 2 (w >>> 30) in
    rw (load_store_mask w h, vector_mask w h, size) (ground arith)

module _ (p v : ℕ) (m : Memory) (bytes : IsBytes m) (small : v < 2 ^ 64) where
  -- A branch offset that is a multiple of 4 and fits 28 bits is encoded: the processor reads it back
  -- from the patched `b` or `bl`, whose opcode stays, and no other byte changes.
  pub encode_branch_lem :
      is_int64 28 v ≡ true
      → v % 4 ≡ 0
      → (m' : Memory) × (encode_branch p v m ≡ ok m')
        × (branch_offset (load32 m' p) ≡ v)
        × (load32 m' p / 2 ^ 26 ≡ load32 m p / 2 ^ 26)
        × SameOutside p 4 m m'
  unfolding encode_branch
  encode_branch_lem fits aligned =
      let w = load32 m p in
      let w' = bit_or (bit_and w 0xfc000000) (bit_and (u32 (sar 64 v 2)) 0x03ffffff) in
      let range = (is_int64_iff 28 v (omega arith) (omega arith) small).0 fits in
      let fields = branch_fields w (u32 (sar 64 v 2)) (load32-lt m p bytes) in
      let word : load32 (store32 m p w') p ≡ w / 2 ^ 26 * 2 ^ 26 + v / 2 ^ 2 % 2 ^ 26 =
        ground (arith, load32-store32 m p w', fields, range, load32-lt m p bytes) in
      (
        store32 m p w',
        rw fits,
        ground (arith, word, range),
        omega (arith, word),
        store32-SameOutside m p w',
      )

  -- A page offset that fits 32 bits is encoded: the processor reads it back from the patched `adrp`,
  -- whose opcode and register stay, and no other byte changes.
  pub encode_adrp_lem :
      is_int64 32 v ≡ true
      → v % 2 ^ 12 ≡ 0
      → (m' : Memory) × (encode_adrp p v m ≡ ok m')
        × (adrp_offset (load32 m' p) ≡ v)
        × (load32 m' p / 2 ^ 31 ≡ load32 m p / 2 ^ 31)
        × (load32 m' p / 2 ^ 24 % 2 ^ 5 ≡ load32 m p / 2 ^ 24 % 2 ^ 5)
        × (load32 m' p % 2 ^ 5 ≡ load32 m p % 2 ^ 5)
        × SameOutside p 4 m m'
  unfolding encode_adrp
  encode_adrp_lem fits paged =
      let w = load32 m p in
      let w' =
        bit_or (bit_or (bit_and w 0x9f00001f) (u32 (bit_and (u64 (v <<< 17)) 0x60000000)))
          (u32 (bit_and (v >>> 9) 0x00ffffe0)) in
      let range = (is_int64_iff 32 v (omega arith) (omega arith) small).0 fits in
      let low : bit_and v 0xfff ≡ 0 = bit_and_mask 12 v ∙ paged in
      let fields = adrp_fields w v (load32-lt m p bytes) in
      let word = load32-store32 m p w' in
      let bound = load32-lt m p bytes in
      (
        store32 m p w',
        rw (fits, low),
        ground (arith, word, fields, range),
        omega (arith, word, fields, bound),
        omega (arith, word, fields, bound),
        omega (arith, word, fields, bound),
        store32-SameOutside m p w',
      )

  -- The low bits of an address are encoded where they are a multiple of the scale that the processor
  -- has for the instruction, and it is that of the relocation (or the bits are zero): the processor
  -- reads them back, scaled, from the patched instruction, and no other field or byte changes.
  pub encode_lo12_lem :
      (exp : Option ℕ) (e : ℕ)
      → got_shift exp v ≡ ok e
      → v < 2 ^ 12
      → v % 2 ^ imm12_scale (load32 m p) ≡ 0
      → (v ≡ 0) ⊎ (e ≡ imm12_scale (load32 m p))
      → (m' : Memory) × (encode_lo12 exp p v m ≡ ok m')
        × (imm12 (load32 m' p) * 2 ^ imm12_scale (load32 m p) ≡ v)
        × (load32 m' p / 2 ^ 22 ≡ load32 m p / 2 ^ 22)
        × (load32 m' p % 2 ^ 10 ≡ load32 m p % 2 ^ 10)
        × SameOutside p 4 m m'
  unfolding encode_lo12
  encode_lo12_lem exp e entered lo scaled scale =
      let w = load32 m p in
      let k = imm12_scale (load32 m p) in
      let q = v / 2 ^ k in
      let w' = bit_or (bit_and w 0xffc003ff) (bit_and (u32 (q <<< 10)) 0x003ffc00) in
      let all : bit_and v 0xfff ≡ v = bit_and_mask 12 v ∙ mod-eq_of_lt lo in
      let q-lt : q < 2 ^ 12 = omega (arith, div-le_self v (2 ^ k)) in
      let fields = imm12_fields w q (load32-lt m p bytes) q-lt in
      let word = load32-store32 m p w' in
      let bound = load32-lt m p bytes in
      let imm : imm12 (load32 (store32 m p w') p) ≡ q = omega (arith, word, fields, bound) in
      let test : (v == 0 || e == k) ≡ true = ground arith in
      let unsigned : sar 64 v k ≡ q = ground arith in
      (
        store32 m p w',
        rw (entered, all, ==_refl v, inst_shift_lem p m, test, unsigned),
        rw imm (omega (arith, div-add-mod v (2 ^ k))),
        omega (arith, word, fields, bound),
        omega (arith, word, fields, bound),
        store32-SameOutside m p w',
      )
