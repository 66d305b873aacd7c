-- ===== src/Plt/Arm64/Jump.antt =====
-- What the five instructions of a stub do (elf/plt/arm64.c): they jump to the target through x16.
use liblink.Base.{
  ℕ, ◌+◌, ◌*◌, ◌/◌, ◌%◌, ◌^◌, ◌≤◌, ◌<◌, bit_or, ◌≡◌, refl, ◌≢◌, ◌∙◌, some, arith, u16, ◌<<<◌, ◌>>>◌,
  ap, sym,
}
use mathlib.Core.Path.{subst}
use liblink.Base.Bits.{bit_or_parts, bit_or-zero, zero-bit_or}
use liblink.Memory.{Memory, load32, store32}
use liblink.Memory.Laws.{load32-store32, load32_same, load32-store32_ne}
use liblink.Types.{Stub}
use liblink.Machine.Arm64.{Cpu, write_reg, keep, step, run, run-suc, run-zero}
use liblink.Plt.Arm64.{
  mov__hw3_x16, movk_hw2_x16, movk_hw1_x16, movk_hw0_x16, br_x16, make_stub_arm64,
}

-- The half word `k` of an address.
abbrev half_word : ℕ → ℕ → ℕ
half_word v k = v / 2 ^ (16 * k) % 2 ^ 16

-- The code of a stub that jumps to `target` stands at `p`: movz, three movk, br, all on x16.
pub record IsJump (m : Memory) (p target : ℕ) : Type 0 where
  pub word0 : load32 m p ≡ 0xd2e00010 + half_word target 3 * 2 ^ 5
  pub word1 : load32 m (p + 4) ≡ 0xf2c00010 + half_word target 2 * 2 ^ 5
  pub word2 : load32 m (p + 8) ≡ 0xf2a00010 + half_word target 1 * 2 ^ 5
  pub word3 : load32 m (p + 12) ≡ 0xf2800010 + half_word target 0 * 2 ^ 5
  pub word4 : load32 m (p + 16) ≡ 0xd61f0200

-- A 16-bit immediate in bits [20:5] of an instruction on x16.
imm16_field :
    (q imm : ℕ)
    → imm < 2 ^ 16
    → bit_or (q * 2 ^ 21 + 16) (imm * 2 ^ 5) ≡ q * 2 ^ 21 + 16 + imm * 2 ^ 5
imm16_field q imm h = ground (
  arith,
  bit_or_parts 21 q 16 0 (imm * 2 ^ 5),
  bit_or_parts 5 0 16 imm 0,
  bit_or-zero q,
  bit_or-zero 16,
  zero-bit_or imm,
)

-- A jump is untouched by writes elsewhere.
pub IsJump-frame :
    (m g : Memory) (p target : ℕ)
    → ((a : ℕ) → p ≤ a → a < p + 20 → g a ≡ m a)
    → IsJump m p target
    → IsJump g p target
IsJump-frame m g p target same j = record {
  word0 = load32_same m g p (λ a lo hi. same a (omega arith) (omega arith)) ∙ j.word0;
  word1 = load32_same m g (p + 4) (λ a lo hi. same a (omega arith) (omega arith)) ∙ j.word1;
  word2 = load32_same m g (p + 8) (λ a lo hi. same a (omega arith) (omega arith)) ∙ j.word2;
  word3 = load32_same m g (p + 12) (λ a lo hi. same a (omega arith) (omega arith)) ∙ j.word3;
  word4 = load32_same m g (p + 16) (λ a lo hi. same a (omega arith) (omega arith)) ∙ j.word4;
}

pub make_stub_arm64-IsJump :
    (s : Stub) (m : Memory) → IsJump (make_stub_arm64 s m).0 s.addr s.target
unfolding make_stub_arm64
make_stub_arm64-IsJump s m =
    let p = s.addr in
    let w0 = bit_or mov__hw3_x16 (u16 (s.target >>> 48) <<< 5) in
    let w1 = bit_or movk_hw2_x16 (u16 (s.target >>> 32) <<< 5) in
    let w2 = bit_or movk_hw1_x16 (u16 (s.target >>> 16) <<< 5) in
    let w3 = bit_or movk_hw0_x16 (u16 (s.target >>> 0) <<< 5) in
    let m0 = store32 m p w0 in
    let m1 = store32 m0 (p + 4) w1 in
    let m2 = store32 m1 (p + 8) w2 in
    let m3 = store32 m2 (p + 12) w3 in
    record {
      word0 = omega (
        arith,
        load32-store32_ne m3 (p + 16) br_x16 p (omega arith),
        load32-store32_ne m2 (p + 12) w3 p (omega arith),
        load32-store32_ne m1 (p + 8) w2 p (omega arith),
        load32-store32_ne m0 (p + 4) w1 p (omega arith),
        load32-store32 m p w0,
        imm16_field 0x697 (half_word s.target 3) (omega arith),
      );
      word1 = omega (
        arith,
        load32-store32_ne m3 (p + 16) br_x16 (p + 4) (omega arith),
        load32-store32_ne m2 (p + 12) w3 (p + 4) (omega arith),
        load32-store32_ne m1 (p + 8) w2 (p + 4) (omega arith),
        load32-store32 m0 (p + 4) w1,
        imm16_field 0x796 (half_word s.target 2) (omega arith),
      );
      word2 = omega (
        arith,
        load32-store32_ne m3 (p + 16) br_x16 (p + 8) (omega arith),
        load32-store32_ne m2 (p + 12) w3 (p + 8) (omega arith),
        load32-store32 m1 (p + 8) w2,
        imm16_field 0x795 (half_word s.target 1) (omega arith),
      );
      word3 = omega (
        arith,
        load32-store32_ne m3 (p + 16) br_x16 (p + 12) (omega arith),
        load32-store32 m2 (p + 12) w3,
        imm16_field 0x794 (half_word s.target 0) (omega arith),
      );
      word4 = omega (arith, load32-store32 m3 (p + 16) br_x16);
    }

movz_step :
    (m : Memory) (c : Cpu) (p imm hw : ℕ)
    → c.pc ≡ p
    → imm < 2 ^ 16
    → hw < 4
    → load32 m p ≡ 0xd2800010 + hw * 2 ^ 21 + imm * 2 ^ 5
    → step m c
      ≡ some (record { pc = (c.pc + 4) % 2 ^ 64; x = write_reg c.x 16 (imm * 2 ^ (16 * hw)) })
unfolding step
movz_step m c p imm hw at hi hh w =
    let word = ap (load32 m) at ∙ w in
    let op : load32 m c.pc / 2 ^ 23 ≡ 0x1a5 = omega arith in
    let field : load32 m c.pc / 2 ^ 5 % 2 ^ 16 ≡ imm = omega arith in
    let shift : load32 m c.pc / 2 ^ 21 % 4 ≡ hw = omega arith in
    let reg : load32 m c.pc % 2 ^ 5 ≡ 16 = omega arith in rw (op, field, shift, reg)

movk_step :
    (m : Memory) (c : Cpu) (p imm hw : ℕ)
    → c.pc ≡ p
    → imm < 2 ^ 16
    → hw < 4
    → load32 m p ≡ 0xf2800010 + hw * 2 ^ 21 + imm * 2 ^ 5
    → step m c
      ≡ some (record { pc = (c.pc + 4) % 2 ^ 64; x = write_reg c.x 16 (keep (c.x 16) hw imm) })
unfolding step
movk_step m c p imm hw at hi hh w =
    let word = ap (load32 m) at ∙ w in
    let op : load32 m c.pc / 2 ^ 23 ≡ 0x1e5 = omega arith in
    let field : load32 m c.pc / 2 ^ 5 % 2 ^ 16 ≡ imm = omega arith in
    let shift : load32 m c.pc / 2 ^ 21 % 4 ≡ hw = omega arith in
    let reg : load32 m c.pc % 2 ^ 5 ≡ 16 = omega arith in rw (op, field, shift, reg)

br_step :
    (m : Memory) (c : Cpu) (p : ℕ)
    → c.pc ≡ p
    → load32 m p ≡ 0xd61f0200
    → step m c ≡ some (record { pc = c.x 16; x = c.x })
unfolding step
br_step m c p at w = rw (at, w)

-- Run from its first instruction, a stub ends at its target, with no register changed but x16.
pub run-IsJump :
    (m : Memory) (c : Cpu) (target : ℕ)
    → IsJump m c.pc target
    → c.pc + 20 ≤ 2 ^ 64
    → target < 2 ^ 64
    → (c' : Cpu) × (run 5 m c ≡ some c') × (c'.pc ≡ target) × ((q : ℕ) → q ≢ 16 → c'.x q ≡ c.x q)
run-IsJump m c target j fits small =
    let h = half_word target in
    let c1 : Cpu = record { pc = (c.pc + 4) % 2 ^ 64; x = write_reg c.x 16 (h 3 * 2 ^ 48) } in
    let c2 : Cpu = record {
      pc = (c1.pc + 4) % 2 ^ 64;
      x = write_reg c1.x 16 (keep (c1.x 16) 2 (h 2));
    } in
    let c3 : Cpu = record {
      pc = (c2.pc + 4) % 2 ^ 64;
      x = write_reg c2.x 16 (keep (c2.x 16) 1 (h 1));
    } in
    let c4 : Cpu = record {
      pc = (c3.pc + 4) % 2 ^ 64;
      x = write_reg c3.x 16 (keep (c3.x 16) 0 (h 0));
    } in
    let c5 : Cpu = record { pc = c4.x 16; x = c4.x } in
    let s1 = movz_step m c c.pc (h 3) 3 refl (omega arith) (omega arith) (omega (arith, j.word0)) in
    let s2 =
      movk_step m c1 (c.pc + 4) (h 2) 2 (omega arith) (omega arith) (omega arith)
        (omega (arith, j.word1)) in
    let s3 =
      movk_step m c2 (c.pc + 8) (h 1) 1 (omega arith) (omega arith) (omega arith)
        (omega (arith, j.word2)) in
    let s4 =
      movk_step m c3 (c.pc + 12) (h 0) 0 (omega arith) (omega arith) (omega arith)
        (omega (arith, j.word3)) in
    let s5 = br_step m c4 (c.pc + 16) (omega arith) j.word4 in
    (
      c5,
      run-suc 4 m c c1 s1
          ∙ run-suc 3 m c1 c2 s2
          ∙ run-suc 2 m c2 c3 s3
          ∙ run-suc 1 m c3 c4 s4
          ∙ run-suc 0 m c4 c5 s5
          ∙ run-zero m c5,
      omega arith,
      λ q ne. ground arith,
    )

-- A processor at the start of a stub that `make_stub_arm64` has written gets to the stub's target in
-- five instructions, with every register but x16 as it was. The stub lies below 2 ^ 64, and so does
-- the target.
pub make_stub_arm64_jumps :
    (s : Stub) (m : Memory) (c : Cpu)
    → c.pc ≡ s.addr
    → s.addr + 20 ≤ 2 ^ 64
    → s.target < 2 ^ 64
    → (c' : Cpu) × (run 5 (make_stub_arm64 s m).0 c ≡ some c')
      × (c'.pc ≡ s.target)
      × ((q : ℕ) → q ≢ 16 → c'.x q ≡ c.x q)
make_stub_arm64_jumps s m c at fits small =
    run-IsJump (make_stub_arm64 s m).0 c s.target
      (subst (λ p. IsJump (make_stub_arm64 s m).0 p s.target) (sym at) (make_stub_arm64-IsJump s m))
      (omega arith) small
