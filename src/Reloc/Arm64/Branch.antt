-- ===== src/Reloc/Arm64/Branch.antt =====
-- A relocated `b` or `bl` reaches its symbol, directly or through a stub.
use liblink.Base.{
  ℕ, ◌+◌, ◌*◌, ◌/◌, ◌%◌, ◌^◌, bit_and, ◌≤◌, ◌<◌, ◌≡◌, ◌≢◌, refl, ◌∙◌, ap, ◌⊎◌, inl, inr, true,
  false, Option, some, arith, ok, Bool-cases, ◌==◌, leb, not, u64, if◌then◌else◌,
}
use liblink.Base.Bits.{bit_and_parts, zero-bit_and}
use liblink.Memory.{Memory, load32}
use liblink.Memory.Laws.{IsBytes, SameOutside, load32_same}
use liblink.Types.{ElfRel, ElfSymbol, Section}
use liblink.Compat.{elf64_r_type}
use liblink.Compat.Arm64.{Arm64Relocations, arm64_constant, aarch64_jump26, aarch64_call26}
use liblink.Machine.Arm64.{Cpu, write_reg, branch_offset, step, run, run-suc, run-zero}
use liblink.Plt.{Made}
use liblink.Plt.Arm64.{arm64}
use liblink.Plt.Arm64.Jump.{IsJump, IsJump-frame, run-IsJump}
use liblink.Plt.Trampoline.{arm64_trampoline}
use liblink.Plt.Chain.Place.{IsChain-frame}
use liblink.Reloc.Util.{is_int64}
use liblink.Reloc.Util.Range.{is_int64_iff}
use liblink.Reloc.Arm64.{
  Computed, place, sub64, encode_branch, encode_at, encode_addend_arm64, branch_addend, compute_at,
  compute_addend, relocate_one,
}
use liblink.Reloc.Arm64.Encode.{encode_branch_lem}
use liblink.Reloc.Arm64.Veneer.{IsChain, Veneer, find_or_make_stub_lem}

-- The registers behind the branch `w`: `bl` sets the link register.
abbrev pub link : ℕ → Cpu → ℕ → ℕ
link w c = if w / 2 ^ 26 == 0x25 then write_reg c.x 30 ((c.pc + 4) % 2 ^ 64) else c.x

abbrev pub IsBranch : ℕ → Type 0
IsBranch w = (w / 2 ^ 26 ≡ 0x05) ⊎ (w / 2 ^ 26 ≡ 0x25)

-- A processor at `p` gets to `target`, with its registers as the branch at `p` leaves them, but x16.
abbrev pub Reaches : Memory → ℕ → ℕ → Type 0
Reaches m p target =
    (c : Cpu)
    → c.pc ≡ p
    → (n : ℕ) × (c' : Cpu) × (run n m c ≡ some c')
      × (c'.pc ≡ target)
      × ((q : ℕ) → q ≢ 16 → c'.x q ≡ link (load32 m p) c q)

-- Where a branch is relocated: an aligned `b` or `bl` in front of the stubs of a section, whose
-- stubs, with one more, are in reach and below 2 ^ 48, and an aligned symbol address.
pub record BranchSite (section : Section) (p s : ℕ) (m : Memory) : Type 0 where
  pub chain : IsChain m section.info
  pub bytes : IsBytes m
  pub opcode : IsBranch (load32 m p)
  pub in_front : p + 4 ≤ section.info.stub_offset + 8
  pub aligned : p % 4 ≡ 0
  pub stubs_aligned : section.info.stub_offset % 4 ≡ 0
  pub symbol_aligned : s % 4 ≡ 0
  pub symbol_small : s < 2 ^ 64
  pub near : section.info.stub_offset + 8 + 20 * (section.info.nstubs + 1) ≤ p + 2 ^ 27
  pub canonical : section.info.stub_offset + 8 + 20 * (section.info.nstubs + 1) ≤ 2 ^ 48

branch_step :
    (m : Memory) (c : Cpu)
    → IsBranch (load32 m c.pc)
    → step m c
      ≡ some (record {
        pc = (c.pc + branch_offset (load32 m c.pc)) % 2 ^ 64;
        x = link (load32 m c.pc) c;
      })
unfolding step
branch_step m c b = ground arith

-- What the relocation of a branch comes to, once its addend is known.
record Patched (section : Section) (p v : ℕ) (m m' : Memory) : Type 0 where
  offset : branch_offset (load32 m' p) ≡ v
  opcode : load32 m' p / 2 ^ 26 ≡ load32 m p / 2 ^ 26
  same : SameOutside p 4 m m'

module _ (m : Memory) (p a : ℕ) (b : IsBranch (load32 m p))
    (goes : (p + branch_offset (load32 m p)) % 2 ^ 64 ≡ a) where
  -- The processor after the branch.
  after : Cpu → Cpu
  after c = record { pc = a; x = link (load32 m p) c }

  step-after : (c : Cpu) → c.pc ≡ p → step m c ≡ some (after c)
  unfolding after
  step-after c e =
      branch_step m c (rw e b)
      ∙ ap some (λ i. record {
        pc = (ap (λ x. (x + branch_offset (load32 m x)) % 2 ^ 64) e ∙ goes) i;
        x = link (load32 m (e i)) c;
      })

  Reaches-direct : Reaches m p a
  unfolding after
  Reaches-direct c e = (
    1,
    after c,
    run-suc 0 m c (after c) (step-after c e) ∙ run-zero m (after c),
    refl,
    λ q ne. refl,
  )

  Reaches-stub : (s : ℕ) → IsJump m a s → a + 20 ≤ 2 ^ 64 → s < 2 ^ 64 → Reaches m p s
  unfolding after
  Reaches-stub s jump fits small c e =
      let (c', done, at, same) = run-IsJump m (after c) s jump fits small in
      (6, c', run-suc 5 m c (after c) (step-after c e) ∙ done, at, same)

-- `encodeAddend_arm64` on a branch relocation.
encode_site :
    (r : Option Arm64Relocations) (p v : ℕ) (m : Memory)
    → (r ≡ some aarch64_call26) ⊎ (r ≡ some aarch64_jump26)
    → encode_at r p v m ≡ encode_branch p v m
unfolding encode_at
encode_site r p v m (inl call) = rw call
encode_site r p v m (inr jump) = rw jump

compute_site :
    (r : Option Arm64Relocations) (section : Section) (p s got_s a : ℕ) (m : Memory)
    → (r ≡ some aarch64_call26) ⊎ (r ≡ some aarch64_jump26)
    → compute_at r section p s got_s a m ≡ branch_addend section p s a m
unfolding compute_at
compute_site r section p s got_s a m (inl call) = rw call
compute_site r section p s got_s a m (inr jump) = rw jump

canonical_addr : (a : ℕ) → a < 2 ^ 48 → bit_and 0xffff000000000000 a ≡ 0
canonical_addr a h = ground (arith, bit_and_parts 48 0xffff 0 0 a (omega arith), zero-bit_and a)

module _ (section : Section) (p s : ℕ) (m : Memory) (site : BranchSite section p s m)
    (p_small : p < 2 ^ 64) where
  -- The computed addend goes to the symbol, or to a stub that jumps there.
  branch_addend_direct :
      is_int64 28 (sub64 (s + 0) p) ≡ true
      → branch_addend section p s 0 m
        ≡ ok (record { section = section; memory = m; addend = sub64 (s + 0) p })
  unfolding branch_addend
  branch_addend_direct near = rw near

  branch_addend_stub :
      is_int64 28 (sub64 (s + 0) p) ≡ false
      → (made : Made) × Veneer section s m made
        × (branch_addend section p s 0 m
            ≡ ok (record {
              section = made.section;
              memory = made.memory;
              addend = sub64 (made.addr + 0) p;
            }))
        × (is_int64 28 (sub64 (made.addr + 0) p) ≡ true)
  unfolding branch_addend
  branch_addend_stub far =
      let (made, got, veneer) =
        find_or_make_stub_lem section s m site.chain (omega (arith, site.canonical)) site.bytes in
      let at : made.addr < 2 ^ 48 = omega (arith, veneer.placed, veneer.bounded, site.canonical) in
      let near : is_int64 28 (sub64 (made.addr + 0) p) ≡ true =
        (is_int64_iff 28 (sub64 (made.addr + 0) p) (omega arith) (omega arith) (omega arith)).1
          (inl (omega (arith, veneer.placed, veneer.bounded, site.near, site.in_front))) in
      (made, veneer, rw (far, got, canonical_addr made.addr at, near), near)

  -- Patching the branch with an offset that leads to `a`.
  patch_lem :
      (r : Option Arm64Relocations) (v a : ℕ) (g : Memory)
      → (r ≡ some aarch64_call26) ⊎ (r ≡ some aarch64_jump26)
      → IsBytes g
      → load32 g p ≡ load32 m p
      → is_int64 28 v ≡ true
      → v < 2 ^ 64
      → v % 4 ≡ 0
      → (p + v) % 2 ^ 64 ≡ a
      → (m' : Memory) × (encode_at r p v g ≡ ok m')
        × IsBranch (load32 m' p)
        × (load32 m' p / 2 ^ 26 ≡ load32 m p / 2 ^ 26)
        × ((p + branch_offset (load32 m' p)) % 2 ^ 64 ≡ a)
        × SameOutside p 4 g m'
  patch_lem r v a g is bytes word fits small aligned goes =
      let (m', done, offset, opcode, same) = encode_branch_lem p v g bytes small fits aligned in
      (
        m',
        encode_site r p v g is ∙ done,
        omega (arith, opcode, word, site.opcode),
        omega (arith, opcode, word),
        rw offset goes,
        same,
      )

module _ (section : Section) (rel : ElfRel) (symbol : ElfSymbol) (m : Memory)
    (is : (arm64_constant (elf64_r_type rel.r_info) ≡ some aarch64_call26)
      ⊎ (arm64_constant (elf64_r_type rel.r_info) ≡ some aarch64_jump26))
    (site : BranchSite section (place section rel) symbol.addr m)
    (inside : (section.start ≤ place section rel)
      × (place section rel ≤ u64 (section.start + section.size)))
    (mapped : (place section rel ≢ 0) × (symbol.addr ≢ 0)) where
  abbrev p : ℕ
  p = place section rel

  computes : compute_addend section rel symbol 0 m ≡ branch_addend section p symbol.addr 0 m
  unfolding compute_addend
  computes =
      let nonzero : not (p == 0) ≡ true = ground (arith, mapped.0) in
      let behind : leb section.start p ≡ true = ground (arith, inside.0) in
      let before : leb p (u64 (section.start + section.size)) ≡ true = ground (arith, inside.1) in
      let defined : not (symbol.addr == 0) ≡ true = ground (arith, mapped.1) in
      rw (nonzero, behind, before, defined)
        (compute_site _ section p symbol.addr symbol.got_addr 0 m is)

  assembles :
      (c : Computed) (m' : Memory)
      → c.section.start ≡ section.start
      → branch_addend section p symbol.addr 0 m ≡ ok c
      → encode_at (arm64_constant (elf64_r_type rel.r_info)) p c.addend c.memory ≡ ok m'
      → relocate_one section rel symbol 0 m ≡ ok (c.section, m')
  unfolding relocate_one encode_addend_arm64
  assembles c m' start computed encoded =
      let here : place c.section rel ≡ p = ap (λ x. u64 (x + rel.r_offset)) start in
      rw (computes, computed, here, encoded)

  -- The relocation of a `b` or `bl` without addend succeeds, at a `BranchSite` whose place lies in the
  -- section and is not 0, for a symbol whose address is not 0: a processor at the place then reaches
  -- the symbol, directly where that is in range and else through a stub that is found or made. The
  -- instruction keeps its opcode, and the stubs of the section stay valid.
  pub relocate_one-Reaches :
      (section' : Section) × (m' : Memory) × (relocate_one section rel symbol 0 m
        ≡ ok (section', m'))
      × Reaches m' p symbol.addr
      × (load32 m' p / 2 ^ 26 ≡ load32 m p / 2 ^ 26)
      × IsChain m' section'.info
  relocate_one-Reaches = elim (Bool-cases (is_int64 28 (sub64 (symbol.addr + 0) p))) [
    | inl near ↦
        let v = sub64 (symbol.addr + 0) p in
        let (m', encoded, branch, opcode, goes, same) =
          patch_lem section p symbol.addr m site (omega arith) _ v symbol.addr m is site.bytes refl
            near (omega arith) (omega (arith, site.aligned, site.symbol_aligned))
            (omega (arith, site.symbol_small)) in
        (
          section,
          m',
          assembles _ m' refl (branch_addend_direct section p symbol.addr m site (omega arith) near)
              encoded,
          Reaches-direct m' p symbol.addr branch goes,
          opcode,
          IsChain-frame arm64 arm64_trampoline m m' section.info
              (λ a lo. same a (inr (omega (arith, site.in_front)))) site.chain,
        )
    | inr far ↦
        let (made, veneer, computed, near) =
          branch_addend_stub section p symbol.addr m site (omega arith) far in
        let v = sub64 (made.addr + 0) p in
        let (m', encoded, branch, opcode, goes, same) =
          patch_lem section p symbol.addr m site (omega arith) _ v made.addr made.memory is
            veneer.bytes
            (load32_same m made.memory p (λ a lo hi. veneer.below a (omega (arith, site.in_front))))
            near (omega arith) (omega (arith, veneer.placed, site.aligned, site.stubs_aligned))
            (omega (arith, veneer.placed, veneer.bounded, site.canonical)) in
        (
          made.section,
          m',
          assembles _ m' veneer.same_start computed encoded,
          Reaches-stub m' p made.addr branch goes symbol.addr
              (IsJump-frame made.memory m' made.addr symbol.addr
                (λ a lo hi. same a (inr (omega (arith, veneer.placed, site.in_front))))
                veneer.jumps)
              (omega (arith, veneer.placed, veneer.bounded, site.canonical)) site.symbol_small,
          opcode,
          IsChain-frame arm64 arm64_trampoline made.memory m' made.section.info
              (λ a lo. same a (inr (omega (arith, veneer.same_offset, site.in_front))))
              veneer.chain,
        )
  ]
