-- ===== src/Machine/Arm.antt =====
-- A32: `movw`, `movt`, `bx`, `b` and `bl` under the condition "always", and the offset of a branch.
use liblink.Base.{
  ℕ, zero, suc, ◌+◌, ◌-◌, ◌*◌, ◌/◌, ◌%◌, ◌^◌, ◌&&◌, ◌≡◌, refl, sym, ◌∙◌, inl, inr, Option-cases,
  Option, none, some, arith, ◌==◌, ltb, if◌then◌else◌,
}
use native.Mathlib.Nat.{suc-add}
use liblink.Memory.{Memory, load32}

pub record Cpu : Type 0 where
  pub pc : ℕ
  pub r : ℕ → ℕ

abbrev pub write_reg : (ℕ → ℕ) → ℕ → ℕ → ℕ → ℕ
write_reg r n v q = if q == n then v else r q

-- `v` of `bits` bits as a 32-bit pattern.
abbrev pub sign_extend : ℕ → ℕ → ℕ
sign_extend bits v = if ltb v (2 ^ (bits - 1)) then v else 2 ^ 32 + v - 2 ^ bits

-- imm24 of `b` and `bl`, times 4.
abbrev pub branch_offset : ℕ → ℕ
branch_offset w = sign_extend 26 (w % 2 ^ 24 * 4)

-- One instruction; `none` is any that is not listed here, and a `bx` to Thumb code.
unfoldable pub step : Memory → Cpu → Option Cpu
step m c =
    let w = load32 m c.pc in
    let imm16 = w / 2 ^ 16 % 2 ^ 4 * 2 ^ 12 + w % 2 ^ 12 in
    let rd = w / 2 ^ 12 % 2 ^ 4 in
    if w / 2 ^ 20 == 0xe30
    then some (record { pc = (c.pc + 4) % 2 ^ 32; r = write_reg c.r rd imm16 })
    else if w / 2 ^ 20 == 0xe34
    then some (record {
      pc = (c.pc + 4) % 2 ^ 32;
      r = write_reg c.r rd (imm16 * 2 ^ 16 + c.r rd % 2 ^ 16);
    })
    else if w / 2 ^ 4 == 0xe12fff1 && c.r (w % 2 ^ 4) % 4 == 0
    then some (record { pc = c.r (w % 2 ^ 4); r = c.r })
    else if w / 2 ^ 24 == 0xea
    then some (record { pc = (c.pc + 8 + branch_offset w) % 2 ^ 32; r = c.r })
    else if w / 2 ^ 24 == 0xeb
    then some (record {
      pc = (c.pc + 8 + branch_offset w) % 2 ^ 32;
      r = write_reg c.r 14 ((c.pc + 4) % 2 ^ 32);
    })
    else none

unfoldable pub run : ℕ → Memory → Cpu → Option Cpu
run zero m c = some c
run (suc n) m c = elim (step m c) [ none ↦ none | some c' ↦ run n m c' ]

pub run-zero : (m : Memory) (c : Cpu) → run 0 m c ≡ some c
unfolding run
run-zero m c = refl

pub run-suc : (n : ℕ) (m : Memory) (c c' : Cpu) → step m c ≡ some c' → run (suc n) m c ≡ run n m c'
unfolding run
run-suc n m c c' e = rw (e, run)

pub run-add :
    (k n : ℕ) (m : Memory) (c c' : Cpu) → run k m c ≡ some c' → run (k + n) m c ≡ run n m c'
unfolding run
run-add zero n m c c' e = ground arith
run-add (suc k) n m c c' e = elim (Option-cases (step m c)) [
  | inl halted ↦ absurd (ground arith)
  | inr (d, e') ↦
      rw suc-add (run-suc (k + n) m c d e' ∙ run-add k n m d c' (sym (run-suc k m c d e') ∙ e))
]
