-- ===== src/Plt/Arm/Jump.antt =====
-- What the three instructions of a stub do (elf/plt/arm.c): they jump to the target through r12.
use liblink.Base.{
  ℕ, ◌+◌, ◌*◌, ◌/◌, ◌%◌, ◌^◌, ◌≤◌, ◌<◌, bit_and, bit_or, ◌≡◌, refl, ◌≢◌, ◌∙◌, some, arith, ◌<<<◌,
  ◌>>>◌, ap, sym,
}
use mathlib.Core.Path.{subst}
use liblink.Base.Bits.{bit_or_parts, bit_or-zero, zero-bit_or, bit_and_mask, bit_and_field}
use liblink.Memory.{Memory, load32, store32}
use liblink.Memory.Laws.{load32-store32, load32_same, load32-store32_ne}
use liblink.Types.{Stub}
use liblink.Machine.Arm.{Cpu, write_reg, step, run, run-suc, run-zero}
use liblink.Plt.Arm.{movw_r12, movt_r12, bx_r12, make_stub_arm}

-- imm4 and imm12 of `movw` and `movt`, at their places in the instruction.
abbrev imm4_imm12 : ℕ → ℕ
imm4_imm12 v = v / 2 ^ 12 % 2 ^ 4 * 2 ^ 16 + v % 2 ^ 12

-- The code of a stub that jumps to `target` stands at `p`: movw, movt, bx, all on r12.
pub record IsJump (m : Memory) (p target : ℕ) : Type 0 where
  pub word0 : load32 m p ≡ 0xe300c000 + imm4_imm12 target
  pub word1 : load32 m (p + 4) ≡ 0xe340c000 + imm4_imm12 (target / 2 ^ 16)
  pub word2 : load32 m (p + 8) ≡ 0xe12fff1c

-- The two masked fields, merged into an instruction whose fields are zero.
imm16_fields :
    (q v : ℕ)
    → bit_or (bit_or (q * 2 ^ 20 + 0xc000) (bit_and v 0xf000 <<< 4)) (bit_and v 0x0fff)
      ≡ q * 2 ^ 20 + 0xc000 + imm4_imm12 v
imm16_fields q v =
    let a = v / 2 ^ 12 % 2 ^ 4 in
    let upper : bit_and v 0xf000 ≡ a * 2 ^ 12 = bit_and_field 4 12 v in
    let lower : bit_and v 0x0fff ≡ v % 2 ^ 12 = bit_and_mask 12 v in
    rw (upper, lower)
      (ground (
        arith,
        bit_or_parts 20 q 0xc000 0 (a * 2 ^ 16),
        bit_or_parts 16 0 0xc000 a 0,
        bit_or_parts 12 (q * 2 ^ 8 + a * 2 ^ 4 + 12) 0 0 (v % 2 ^ 12),
        bit_or-zero q,
        bit_or-zero 0xc000,
        bit_or-zero (q * 2 ^ 8 + a * 2 ^ 4 + 12),
        zero-bit_or a,
        zero-bit_or (v % 2 ^ 12),
      ))

-- A jump is untouched by writes elsewhere.
pub IsJump-frame :
    (m g : Memory) (p target : ℕ)
    → ((a : ℕ) → p ≤ a → a < p + 12 → g a ≡ m a)
    → IsJump m p target
    → IsJump g p target
IsJump-frame m g p target same j = record {
  word0 = load32_same m g p (λ a lo hi. same a (omega arith) (omega arith)) ∙ j.word0;
  word1 = load32_same m g (p + 4) (λ a lo hi. same a (omega arith) (omega arith)) ∙ j.word1;
  word2 = load32_same m g (p + 8) (λ a lo hi. same a (omega arith) (omega arith)) ∙ j.word2;
}

pub make_stub_arm-IsJump : (s : Stub) (m : Memory) → IsJump (make_stub_arm s m).0 s.addr s.target
unfolding make_stub_arm
make_stub_arm-IsJump s m =
    let p = s.addr in
    let t = s.target in
    let w0 = bit_or (bit_or movw_r12 (bit_and t 0xf000 <<< 4)) (bit_and t 0x0fff) in
    let w1 =
      bit_or (bit_or movt_r12 (bit_and (t >>> 16) 0xf000 <<< 4)) (bit_and (t >>> 16) 0x0fff) in
    let m0 = store32 m p w0 in
    let m1 = store32 m0 (p + 4) w1 in
    record {
      word0 = omega (
        arith,
        load32-store32_ne m1 (p + 8) bx_r12 p (omega arith),
        load32-store32_ne m0 (p + 4) w1 p (omega arith),
        load32-store32 m p w0,
        imm16_fields 0xe30 t,
      );
      word1 = omega (
        arith,
        load32-store32_ne m1 (p + 8) bx_r12 (p + 4) (omega arith),
        load32-store32 m0 (p + 4) w1,
        imm16_fields 0xe34 (t >>> 16),
      );
      word2 = omega (arith, load32-store32 m1 (p + 8) bx_r12);
    }

module _ (m : Memory) (c : Cpu) (p v : ℕ) (at : c.pc ≡ p) where
  movw_step :
      load32 m p ≡ 0xe300c000 + imm4_imm12 v
      → step m c ≡ some (record { pc = (c.pc + 4) % 2 ^ 32; r = write_reg c.r 12 (v % 2 ^ 16) })
  unfolding step
  movw_step w =
      let word = ap (load32 m) at ∙ w in
      let op : load32 m c.pc / 2 ^ 20 ≡ 0xe30 = omega arith in
      let reg : load32 m c.pc / 2 ^ 12 % 2 ^ 4 ≡ 12 = omega arith in
      let field : load32 m c.pc / 2 ^ 16 % 2 ^ 4 * 2 ^ 12 + load32 m c.pc % 2 ^ 12 ≡ v % 2 ^ 16 =
        omega arith in
      rw (op, reg, field)

  movt_step :
      load32 m p ≡ 0xe340c000 + imm4_imm12 v
      → step m c
        ≡ some (record {
          pc = (c.pc + 4) % 2 ^ 32;
          r = write_reg c.r 12 (v % 2 ^ 16 * 2 ^ 16 + c.r 12 % 2 ^ 16);
        })
  unfolding step
  movt_step w =
      let word = ap (load32 m) at ∙ w in
      let op : load32 m c.pc / 2 ^ 20 ≡ 0xe34 = omega arith in
      let reg : load32 m c.pc / 2 ^ 12 % 2 ^ 4 ≡ 12 = omega arith in
      let field : load32 m c.pc / 2 ^ 16 % 2 ^ 4 * 2 ^ 12 + load32 m c.pc % 2 ^ 12 ≡ v % 2 ^ 16 =
        omega arith in
      rw (op, reg, field)

bx_step :
    (m : Memory) (c : Cpu) (p : ℕ)
    → c.pc ≡ p
    → load32 m p ≡ 0xe12fff1c
    → c.r 12 % 4 ≡ 0
    → step m c ≡ some (record { pc = c.r 12; r = c.r })
unfolding step
bx_step m c p at w even = rw (at, w, even)

-- Run from its first instruction, a stub ends at its target, with no register changed but r12. The
-- target is ARM code, so its address is a multiple of 4.
pub run-IsJump :
    (m : Memory) (c : Cpu) (target : ℕ)
    → IsJump m c.pc target
    → c.pc + 12 ≤ 2 ^ 32
    → target < 2 ^ 32
    → target % 4 ≡ 0
    → (c' : Cpu) × (run 3 m c ≡ some c') × (c'.pc ≡ target) × ((q : ℕ) → q ≢ 12 → c'.r q ≡ c.r q)
run-IsJump m c target j fits small aligned =
    let c1 : Cpu = record { pc = (c.pc + 4) % 2 ^ 32; r = write_reg c.r 12 (target % 2 ^ 16) } in
    let c2 : Cpu = record {
      pc = (c1.pc + 4) % 2 ^ 32;
      r = write_reg c1.r 12 (target / 2 ^ 16 % 2 ^ 16 * 2 ^ 16 + c1.r 12 % 2 ^ 16);
    } in
    let c3 : Cpu = record { pc = c2.r 12; r = c2.r } in
    let s1 = movw_step m c c.pc target refl j.word0 in
    let s2 = movt_step m c1 (c.pc + 4) (target / 2 ^ 16) (omega arith) j.word1 in
    let s3 = bx_step m c2 (c.pc + 8) (omega arith) j.word2 (omega arith) in
    (
      c3,
      run-suc 2 m c c1 s1 ∙ run-suc 1 m c1 c2 s2 ∙ run-suc 0 m c2 c3 s3 ∙ run-zero m c3,
      omega arith,
      λ q ne. ground arith,
    )

-- A processor at the start of a stub that `make_stub_arm` has written gets to the stub's target in
-- three instructions, with every register but r12 as it was. The stub lies below 2 ^ 32, and the
-- target is ARM code there, at a multiple of 4.
pub make_stub_arm_jumps :
    (s : Stub) (m : Memory) (c : Cpu)
    → c.pc ≡ s.addr
    → s.addr + 12 ≤ 2 ^ 32
    → s.target < 2 ^ 32
    → s.target % 4 ≡ 0
    → (c' : Cpu) × (run 3 (make_stub_arm s m).0 c ≡ some c')
      × (c'.pc ≡ s.target)
      × ((q : ℕ) → q ≢ 12 → c'.r q ≡ c.r q)
make_stub_arm_jumps s m c at fits small aligned =
    run-IsJump (make_stub_arm s m).0 c s.target
      (subst (λ p. IsJump (make_stub_arm s m).0 p s.target) (sym at) (make_stub_arm-IsJump s m))
      (omega arith) small aligned
