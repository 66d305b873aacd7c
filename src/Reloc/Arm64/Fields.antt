-- ===== src/Reloc/Arm64/Fields.antt =====
-- The masks and merges of `encodeAddend_arm64` as arithmetic on the fields of an instruction.
use liblink.Base.{
  ℕ, ◌+◌, ◌*◌, ◌/◌, ◌%◌, ◌^◌, ◌<◌, bit_and, bit_or, ◌≡◌, arith, u32, u64, ◌<<<◌, ◌>>>◌,
}
use liblink.Base.Bits.{
  bit_or_parts, bit_or-zero, zero-bit_or, bit_and_mask, bit_and_field, bit_and_split, bit_or_fields,
}

-- Bits [25:0] replaced: `b` and `bl`.
pub branch_fields :
    (w v : ℕ)
    → w < 2 ^ 32
    → bit_or (bit_and w 0xfc000000) (bit_and v 0x03ffffff) ≡ w / 2 ^ 26 * 2 ^ 26 + v % 2 ^ 26
branch_fields w v h =
    let upper : bit_and w 0xfc000000 ≡ w / 2 ^ 26 % 2 ^ 6 * 2 ^ 26 = bit_and_field 6 26 w in
    let lower : bit_and v 0x03ffffff ≡ v % 2 ^ 26 = bit_and_mask 26 v in
    rw (upper, lower) (ground (arith, bit_or_fields 26 (w / 2 ^ 26 % 2 ^ 6) (v % 2 ^ 26)))

-- Bits 31, [28:24] and [4:0] of an instruction.
adrp_mask :
    (w : ℕ)
    → w < 2 ^ 32
    → bit_and w 0x9f00001f ≡ w / 2 ^ 31 * 2 ^ 31 + w / 2 ^ 24 % 2 ^ 5 * 2 ^ 24 + w % 2 ^ 5
adrp_mask w h = omega (
  arith,
  bit_and_split 5 w 0x4f80000 31 (omega arith),
  bit_and_mask 5 (w % 2 ^ 5),
  bit_and_split 26 (w / 2 ^ 5) 1 0xf80000 (omega arith),
  bit_and_mask 1 (w / 2 ^ 5 / 2 ^ 26),
  bit_and_field 5 19 (w / 2 ^ 5 % 2 ^ 26),
)

adrp_merge :
    (a b c l h : ℕ)
    → b < 2 ^ 5
    → c < 2 ^ 5
    → l < 2 ^ 2
    → h < 2 ^ 19
    → bit_or (bit_or (a * 2 ^ 31 + b * 2 ^ 24 + c) (l * 2 ^ 29)) (h * 2 ^ 5)
      ≡ a * 2 ^ 31 + l * 2 ^ 29 + b * 2 ^ 24 + h * 2 ^ 5 + c
adrp_merge a b c l h hb hc hl hh = ground (
  arith,
  bit_or_parts 29 (a * 2 ^ 2) (b * 2 ^ 24 + c) l 0,
  bit_or_fields 2 a l,
  bit_or-zero (b * 2 ^ 24 + c),
  bit_or_parts 24 (a * 2 ^ 7 + l * 2 ^ 5 + b) c 0 (h * 2 ^ 5),
  bit_or-zero (a * 2 ^ 7 + l * 2 ^ 5 + b),
  bit_or_parts 5 0 c h 0,
  zero-bit_or h,
  bit_or-zero c,
)

-- immlo and immhi replaced by bits [13:12] and [32:14] of the addend: `adrp`.
pub adrp_fields :
    (w v : ℕ)
    → w < 2 ^ 32
    → bit_or
        (bit_or (bit_and w 0x9f00001f) (u32 (bit_and (u64 (v <<< 17)) 0x60000000)))
        (u32 (bit_and (v >>> 9) 0x00ffffe0))
      ≡ w / 2 ^ 31 * 2 ^ 31
        + v / 2 ^ 12 % 2 ^ 2 * 2 ^ 29
        + w / 2 ^ 24 % 2 ^ 5 * 2 ^ 24
        + v / 2 ^ 14 % 2 ^ 19 * 2 ^ 5
        + w % 2 ^ 5
adrp_fields w v h =
    let lo : u32 (bit_and (u64 (v <<< 17)) 0x60000000) ≡ v / 2 ^ 12 % 2 ^ 2 * 2 ^ 29 =
      omega (arith, bit_and_field 2 29 (u64 (v <<< 17))) in
    let hi : u32 (bit_and (v >>> 9) 0x00ffffe0) ≡ v / 2 ^ 14 % 2 ^ 19 * 2 ^ 5 =
      omega (arith, bit_and_field 19 5 (v >>> 9)) in
    rw (lo, hi, adrp_mask w h)
      (adrp_merge (w / 2 ^ 31) (w / 2 ^ 24 % 2 ^ 5) (w % 2 ^ 5) (v / 2 ^ 12 % 2 ^ 2)
        (v / 2 ^ 14 % 2 ^ 19) (omega arith) (omega arith) (omega arith) (omega arith))

-- imm12, bits [21:10], replaced: `add`, `ldr`, `str`.
pub imm12_fields :
    (w v : ℕ)
    → w < 2 ^ 32
    → v < 2 ^ 12
    → bit_or (bit_and w 0xffc003ff) (bit_and (u32 (v <<< 10)) 0x003ffc00)
      ≡ w / 2 ^ 22 * 2 ^ 22 + v * 2 ^ 10 + w % 2 ^ 10
imm12_fields w v h small =
    let rest : bit_and w 0xffc003ff ≡ w / 2 ^ 22 * 2 ^ 22 + w % 2 ^ 10 = omega (
      arith,
      bit_and_split 10 w 0x3ff000 0x3ff (omega arith),
      bit_and_mask 10 (w % 2 ^ 10),
      bit_and_field 10 12 (w / 2 ^ 10),
    ) in
    let field : bit_and (u32 (v <<< 10)) 0x003ffc00 ≡ v * 2 ^ 10 =
      omega (arith, bit_and_field 12 10 (u32 (v <<< 10))) in
    rw (rest, field)
      (ground (
        arith,
        bit_or_parts 22 (w / 2 ^ 22) (w % 2 ^ 10) 0 (v * 2 ^ 10),
        bit_or-zero (w / 2 ^ 22),
        bit_or_parts 10 0 (w % 2 ^ 10) v 0,
        zero-bit_or v,
        bit_or-zero (w % 2 ^ 10),
      ))
