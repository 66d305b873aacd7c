-- ===== src/Reloc/Arm64/Writes.antt =====
-- `encodeAddend_arm64` on every branch: it writes at most the eight bytes at the place.
use liblink.Base.{
  ℕ, ◌≡◌, sym, ap, Bool, Option, none, some, arith, ok, ok-injective, assert->>-eq-ok, >>=-eq-ok,
  exit_success,
}
use mathlib.Core.Path.{subst}
use liblink.Memory.{Memory, store16, store32}
use liblink.Memory.Laws.{SameOutside, store16-SameOutside, store32-SameOutside, store64-SameOutside}
use liblink.Compat.Arm64.{
  Arm64Relocations, arm64_constant, aarch64_abs64, aarch64_prel64, aarch64_abs32, aarch64_prel32,
  aarch64_abs16, aarch64_prel16, aarch64_adr_prel_pg_hi21, aarch64_jump26, aarch64_call26,
  aarch64_adr_got_page, aarch64_add_abs_lo12_nc, aarch64_ldst8_abs_lo12_nc,
  aarch64_ldst16_abs_lo12_nc, aarch64_ldst32_abs_lo12_nc, aarch64_ldst64_abs_lo12_nc,
  aarch64_ldst128_abs_lo12_nc, aarch64_ld64_got_lo12_nc,
}
use liblink.Compat.{elf64_r_type}
use liblink.Types.{ElfRel, Section}
use liblink.Reloc.Arm64.{
  encode_adrp, encode_branch, encode_lo12, encode_at, got_shift, place, encode_addend_arm64,
}

writes_word : (p w : ℕ) (m m' : Memory) → ok (store32 m p w) ≡ ok m' → SameOutside p 8 m m'
writes_word p w m m' e =
    subst (SameOutside p 8 m) (ok-injective e) (λ a h. store32-SameOutside m p w a (omega arith))

writes_half : (p w : ℕ) (m m' : Memory) → ok (store16 m p w) ≡ ok m' → SameOutside p 8 m m'
writes_half p w m m' e =
    subst (SameOutside p 8 m) (ok-injective e) (λ a h. store16-SameOutside m p w a (omega arith))

encode_adrp_writes : (p v : ℕ) (m m' : Memory) → encode_adrp p v m ≡ ok m' → SameOutside p 8 m m'
unfolding encode_adrp
encode_adrp_writes p v m m' e = writes_word p _ m m' (assert->>-eq-ok _ _ (assert->>-eq-ok _ _ e))

encode_branch_writes :
    (p v : ℕ) (m m' : Memory) → encode_branch p v m ≡ ok m' → SameOutside p 8 m m'
unfolding encode_branch
encode_branch_writes p v m m' e = writes_word p _ m m' (assert->>-eq-ok _ _ e)

encode_lo12_writes :
    (exp : Option ℕ) (p v : ℕ) (m m' : Memory)
    → encode_lo12 exp p v m ≡ ok m'
    → SameOutside p 8 m m'
unfolding encode_lo12
encode_lo12_writes exp p v m m' e =
    let (exp_shift, entered, rest) = >>=-eq-ok (got_shift exp v) _ e in
    writes_word p _ m m' (assert->>-eq-ok _ _ (assert->>-eq-ok _ _ rest))

-- The `switch`, case by case.
encode_at_writes :
    (r : Option Arm64Relocations) (p v : ℕ) (m m' : Memory)
    → encode_at r p v m ≡ ok m'
    → SameOutside p 8 m m'
unfolding encode_at
encode_at_writes (some aarch64_abs64) p v m m' e =
    subst (SameOutside p 8 m) (ok-injective e) (store64-SameOutside m p v)
encode_at_writes (some aarch64_prel64) p v m m' e =
    subst (SameOutside p 8 m) (ok-injective e) (store64-SameOutside m p v)
encode_at_writes (some aarch64_abs32) p v m m' e =
    writes_word p v m m' (assert->>-eq-ok _ _ (assert->>-eq-ok _ _ e))
encode_at_writes (some aarch64_prel32) p v m m' e = writes_word p v m m' (assert->>-eq-ok _ _ e)
encode_at_writes (some aarch64_abs16) p v m m' e =
    writes_half p v m m' (assert->>-eq-ok _ _ (assert->>-eq-ok _ _ e))
encode_at_writes (some aarch64_prel16) p v m m' e = writes_half p v m m' (assert->>-eq-ok _ _ e)
encode_at_writes (some aarch64_adr_prel_pg_hi21) p v m m' e = encode_adrp_writes p v m m' e
encode_at_writes (some aarch64_adr_got_page) p v m m' e = encode_adrp_writes p v m m' e
encode_at_writes (some aarch64_jump26) p v m m' e = encode_branch_writes p v m m' e
encode_at_writes (some aarch64_call26) p v m m' e = encode_branch_writes p v m m' e
encode_at_writes (some aarch64_add_abs_lo12_nc) p v m m' e = encode_lo12_writes (some 0) p v m m' e
encode_at_writes (some aarch64_ldst8_abs_lo12_nc) p v m m' e =
    encode_lo12_writes (some 0) p v m m' e
encode_at_writes (some aarch64_ldst16_abs_lo12_nc) p v m m' e =
    encode_lo12_writes (some 1) p v m m' e
encode_at_writes (some aarch64_ldst32_abs_lo12_nc) p v m m' e =
    encode_lo12_writes (some 2) p v m m' e
encode_at_writes (some aarch64_ldst64_abs_lo12_nc) p v m m' e =
    encode_lo12_writes (some 3) p v m m' e
encode_at_writes (some aarch64_ldst128_abs_lo12_nc) p v m m' e =
    encode_lo12_writes (some 4) p v m m' e
encode_at_writes (some aarch64_ld64_got_lo12_nc) p v m m' e = encode_lo12_writes none p v m m' e
encode_at_writes _ p v m m' e = absurd (cc)

-- Whatever the type of the relocation, where `encodeAddend_arm64` returns it has changed no byte
-- but the eight at the place, and it returns `EXIT_SUCCESS`.
pub encode_addend_arm64-SameOutside :
    (section : Section) (rel : ElfRel) (v : ℕ) (m m' : Memory) (status : Bool)
    → encode_addend_arm64 section rel v m ≡ ok (m', status)
    → SameOutside (place section rel) 8 m m' × (status ≡ exit_success)
unfolding encode_addend_arm64
encode_addend_arm64-SameOutside section rel v m m' status e =
    let r = arm64_constant (elf64_r_type rel.r_info) in
    let (g, done, returned) = >>=-eq-ok (encode_at r (place section rel) v m) _ e in
    let same = encode_at_writes r (place section rel) v m g done in
    (
      subst (SameOutside (place section rel) 8 m)
          (ap (λ (x : Memory × Bool). x.0) (ok-injective returned)) same,
      sym (ap (λ (x : Memory × Bool). x.1) (ok-injective returned)),
    )
