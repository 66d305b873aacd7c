-- ===== src/Machine/Arm64.antt =====
-- A64: `movz`, `movk`, `br`, `b` and `bl`, and the immediates of the instructions that are patched.
use liblink.Base.{
  ℕ, zero, suc, ◌+◌, ◌-◌, ◌*◌, ◌/◌, ◌%◌, ◌^◌, ◌&&◌, ◌≡◌, refl, sym, ◌∙◌, inl, inr, Option-cases,
  Option, none, some, arith, ◌==◌, ltb, if◌then◌else◌,
}
use native.Mathlib.Nat.{suc-add}
use liblink.Memory.{Memory, load32}

-- The registers that matter here: the program counter, and x0 to x30.
pub record Cpu : Type 0 where
  pub pc : ℕ
  pub x : ℕ → ℕ

abbrev pub write_reg : (ℕ → ℕ) → ℕ → ℕ → ℕ → ℕ
write_reg x r v q = if q == r then v else x q

-- `v` of `bits` bits as a 64-bit pattern.
abbrev pub sign_extend : ℕ → ℕ → ℕ
sign_extend bits v = if ltb v (2 ^ (bits - 1)) then v else 2 ^ 64 + v - 2 ^ bits

-- The half word `hw` of `v`, replaced by `imm`.
abbrev pub keep : ℕ → ℕ → ℕ → ℕ
keep v hw imm =
    v / 2 ^ (16 * hw + 16) * 2 ^ (16 * hw + 16) + imm * 2 ^ (16 * hw) + v % 2 ^ (16 * hw)

-- Bits [25:0] of `b` and `bl`, times 4.
abbrev pub branch_offset : ℕ → ℕ
branch_offset w = sign_extend 28 (w % 2 ^ 26 * 4)

-- immhi:immlo of `adrp`, times 4096.
abbrev pub adrp_offset : ℕ → ℕ
adrp_offset w = sign_extend 33 ((w / 2 ^ 5 % 2 ^ 19 * 4 + w / 2 ^ 29 % 4) * 2 ^ 12)

-- imm12 of `add`, `ldr` and `str`.
abbrev pub imm12 : ℕ → ℕ
imm12 w = w / 2 ^ 10 % 2 ^ 12

-- The scale of imm12, as a number of bits. A load or a store with an unsigned offset (bits [29:27] are
-- 111 and bits [25:24] are 01) counts bytes, half words, words or double words by bits [31:30]; one of
-- a 128-bit register (bits [31:30] are 00, bit 26 and bit 23 are set) counts 16 bytes. `add` counts
-- bytes.
unfoldable pub imm12_scale : ℕ → ℕ
imm12_scale w =
    let size = w / 2 ^ 30 % 2 ^ 2 in
    if w / 2 ^ 27 % 2 ^ 3 == 7 && w / 2 ^ 24 % 2 ^ 2 == 1
    then (if size == 0 && (w / 2 ^ 26 % 2 == 1 && w / 2 ^ 23 % 2 == 1) then 4 else size)
    else 0

-- One instruction; `none` is any that is not listed here.
unfoldable pub step : Memory → Cpu → Option Cpu
step m c =
    let w = load32 m c.pc in
    let imm = w / 2 ^ 5 % 2 ^ 16 in
    let hw = w / 2 ^ 21 % 4 in
    let rd = w % 2 ^ 5 in
    if w / 2 ^ 23 == 0x1a5
    then some (record { pc = (c.pc + 4) % 2 ^ 64; x = write_reg c.x rd (imm * 2 ^ (16 * hw)) })
    else if w / 2 ^ 23 == 0x1e5
    then some (record { pc = (c.pc + 4) % 2 ^ 64; x = write_reg c.x rd (keep (c.x rd) hw imm) })
    else if w / 2 ^ 10 == 0x3587c0 && w % 2 ^ 5 == 0
    then some (record { pc = c.x (w / 2 ^ 5 % 2 ^ 5); x = c.x })
    else if w / 2 ^ 26 == 0x05
    then some (record { pc = (c.pc + branch_offset w) % 2 ^ 64; x = c.x })
    else if w / 2 ^ 26 == 0x25
    then some (record {
      pc = (c.pc + branch_offset w) % 2 ^ 64;
      x = write_reg c.x 30 ((c.pc + 4) % 2 ^ 64);
    })
    else none

unfoldable pub run : ℕ → Memory → Cpu → Option Cpu
run zero m c = some c
run (suc n) m c = elim (step m c) [ none ↦ none | some c' ↦ run n m c' ]

pub run-zero : (m : Memory) (c : Cpu) → run 0 m c ≡ some c
unfolding run
run-zero m c = refl

pub run-suc : (n : ℕ) (m : Memory) (c c' : Cpu) → step m c ≡ some c' → run (suc n) m c ≡ run n m c'
unfolding run
run-suc n m c c' e = rw (e, run)

pub run-add :
    (k n : ℕ) (m : Memory) (c c' : Cpu) → run k m c ≡ some c' → run (k + n) m c ≡ run n m c'
unfolding run
run-add zero n m c c' e = ground arith
run-add (suc k) n m c c' e = elim (Option-cases (step m c)) [
  | inl halted ↦ absurd (ground arith)
  | inr (d, e') ↦
      rw suc-add (run-suc (k + n) m c d e' ∙ run-add k n m d c' (sym (run-suc k m c d e') ∙ e))
]
