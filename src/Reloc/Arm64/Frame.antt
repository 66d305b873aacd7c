-- ===== src/Reloc/Arm64/Frame.antt =====
-- What the body of the relocation loops changes: the patched bytes, and one more stub.
use liblink.Base.{
  ℕ, u64, leb, List, [], ◌∷◌, ◌+◌, ◌≤◌, ◌<◌, ◌≡◌, refl, sym, ap, ◌∙◌, ◌⊎◌, inl, inr, Bool,
  Bool-cases, not, Option, some, arith, Outcome, ok, fail, Fault, ◌>>=◌, ◌>>◌, assert, >>=-eq-ok,
  ok-injective, assert->>-eq-ok, if◌then◌else◌, bit_and, ◌==◌, exit_success,
}
use mathlib.Core.Path.{subst}
use liblink.Memory.{Memory}
use liblink.Memory.Laws.{SameOutside}
use liblink.Types.{ElfRel, ElfSymbol, Section, SectionFormatInfo, Stub}
use liblink.Compat.{elf64_r_type}
use liblink.Compat.Arm64.{
  Arm64Relocations, arm64_constant, aarch64_abs64, aarch64_prel64, aarch64_abs32, aarch64_prel32,
  aarch64_abs16, aarch64_prel16, aarch64_adr_prel_pg_hi21, aarch64_jump26, aarch64_call26,
  aarch64_adr_got_page, aarch64_add_abs_lo12_nc, aarch64_ldst8_abs_lo12_nc,
  aarch64_ldst16_abs_lo12_nc, aarch64_ldst32_abs_lo12_nc, aarch64_ldst64_abs_lo12_nc,
  aarch64_ldst128_abs_lo12_nc, aarch64_ld64_got_lo12_nc,
}
use liblink.Plt.{Made, append_stub, make_stub, next_stub_addr, find_stub}
use liblink.Plt.Arm64.{arm64}
use liblink.Plt.Trampoline.{arm64_trampoline}
use liblink.Reloc.Util.{is_int64}
use liblink.Reloc.Arm64.{
  Computed, value, sub64, place, find_or_make_stub, branch_addend, compute_at, compute_addend,
  encode_addend_arm64, relocate_one,
}
use liblink.Reloc.Arm64.Writes.{encode_addend_arm64-SameOutside}

-- `s'` is `s`, but for the chain of its stubs and their number.
abbrev pub SameButStubs : Section → Section → Type 0
SameButStubs s s' =
    s' ≡ record s { info = record s.info { nstubs = s'.info.nstubs; stubs = s'.info.stubs } }

-- From one section and memory to another: only the chain of stubs of the section may differ, and only
-- the bytes of the stub that is next.
pub record OneStubMore (section section' : Section) (m m' : Memory) : Type 0 where
  pub shape : SameButStubs section section'
  pub writes : SameOutside (next_stub_addr arm64 section.info) 20 m m'

unchanged : (section : Section) (m : Memory) → OneStubMore section section m m
unchanged section m = record { shape = refl; writes = λ a h. refl }

append_stub_shape :
    (i i' : SectionFormatInfo) (s : Stub) (ss : List Stub)
    → append_stub arm64 i s ss ≡ ok i'
    → i' ≡ record i { nstubs = i'.nstubs; stubs = i'.stubs }
unfolding append_stub
append_stub_shape i i' s [] e =
    subst (λ (x : SectionFormatInfo). x ≡ record i { nstubs = x.nstubs; stubs = x.stubs })
      (ok-injective (assert->>-eq-ok _ _ e)) refl
append_stub_shape i i' s (x ∷ xs) e =
    subst (λ (x : SectionFormatInfo). x ≡ record i { nstubs = x.nstubs; stubs = x.stubs })
      (ok-injective e) refl

-- `make_stub`, once the architecture has set the stub up.
make_stub-append :
    (section : Section) (s : ℕ) (m : Memory)
    → make_stub arm64 section s m ≡ (
        append_stub arm64 section.info
          (record { addr = next_stub_addr arm64 section.info; target = s })
          section.info.stubs
        >>= λ info. ok (record {
          section = record section { info = info };
          memory =
              (arm64.make_stub
                (record { addr = next_stub_addr arm64 section.info; target = s })
                m).0;
          addr = next_stub_addr arm64 section.info;
          status = exit_success;
        }))
unfolding make_stub
make_stub-append section s m =
    rw
      (arm64_trampoline.succeeds (record { addr = next_stub_addr arm64 section.info; target = s })
        m)
      refl

make_stub-OneStubMore :
    (section : Section) (s : ℕ) (m : Memory) (made : Made)
    → make_stub arm64 section s m ≡ ok made
    → OneStubMore section made.section m made.memory
make_stub-OneStubMore section s m made e =
    let stub : Stub = record { addr = next_stub_addr arm64 section.info; target = s } in
    let (info, appended, returned) =
      >>=-eq-ok (append_stub arm64 section.info stub section.info.stubs) _
        (sym (make_stub-append section s m) ∙ e) in
    subst (λ (x : Made). OneStubMore section x.section m x.memory) (ok-injective returned)
      (record {
        shape =
            ap (λ (x : SectionFormatInfo). record section { info = x })
              (append_stub_shape section.info info stub section.info.stubs appended);
        writes = arm64_trampoline.writes stub m;
      })

find_or_make_stub-OneStubMore :
    (section : Section) (s : ℕ) (m : Memory) (made : Made)
    → find_or_make_stub section s m ≡ ok made
    → OneStubMore section made.section m made.memory
unfolding find_or_make_stub
find_or_make_stub-OneStubMore section s m made e = elim (Bool-cases (find_stub section s).1) [
  | inl missing ↦
      let (x, called, returned) =
        >>=-eq-ok (make_stub arm64 section (find_stub section s).0 m)
          (λ (y : Made). if y.status then fail Fault.aborted else ok y) (rw missing at e) in
      elim (Bool-cases x.status) [
        | inl failed ↦ absurd (ground arith)
        | inr fine ↦
            let same : x ≡ made = ground arith in
            subst (λ (y : Made). OneStubMore section y.section m y.memory) same
              (make_stub-OneStubMore section _ m x called)
      ]
  | inr found ↦
      subst (λ (y : Made). OneStubMore section y.section m y.memory) (ok-injective (rw found at e))
        (unchanged section m)
]

branch_addend-OneStubMore :
    (section : Section) (p s a : ℕ) (m : Memory) (c : Computed)
    → branch_addend section p s a m ≡ ok c
    → OneStubMore section c.section m c.memory
unfolding branch_addend
branch_addend-OneStubMore section p s a m c e = elim (Bool-cases (is_int64 28 (sub64 (s + a) p))) [
  | inl near ↦
      subst (λ (x : Computed). OneStubMore section x.section m x.memory)
        (ok-injective (rw near at e)) (unchanged section m)
  | inr far ↦
      let (made, called, rest) =
        >>=-eq-ok (find_or_make_stub section s m)
          (λ made. do
            assert (bit_and 0xffff000000000000 made.addr == 0)
            let v' = sub64 (made.addr + a) p
            assert (is_int64 28 v')
            ok (record { section = made.section; memory = made.memory; addend = v' }))
          (rw far at e) in
      subst (λ (x : Computed). OneStubMore section x.section m x.memory)
        (ok-injective (assert->>-eq-ok _ _ (assert->>-eq-ok _ _ rest)))
        (find_or_make_stub-OneStubMore section s m made called)
]

computes_value :
    (section : Section) (m : Memory) (v : ℕ) (c : Computed)
    → ok (record { section = section; memory = m; addend = v }) ≡ ok c
    → OneStubMore section c.section m c.memory
computes_value section m v c e =
    subst (λ (x : Computed). OneStubMore section x.section m x.memory) (ok-injective e)
      (unchanged section m)

-- A run of assertions before `next`.
abbrev all_asserted : List Bool → Outcome Computed → Outcome Computed
all_asserted [] next = next
all_asserted (b ∷ bs) next = assert b >> all_asserted bs next

all_asserted-eq-ok :
    (bs : List Bool) (next : Outcome Computed) {c : Computed}
    → all_asserted bs next ≡ ok c
    → next ≡ ok c
all_asserted-eq-ok [] next e = e
all_asserted-eq-ok (b ∷ bs) next e =
    all_asserted-eq-ok bs next (assert->>-eq-ok b (all_asserted bs next) e)

-- The `switch`, case by case.
compute_at-OneStubMore :
    (r : Option Arm64Relocations) (section : Section) (p s got_s a : ℕ) (m : Memory) (c : Computed)
    → compute_at r section p s got_s a m ≡ ok c
    → OneStubMore section c.section m c.memory
unfolding compute_at
compute_at-OneStubMore (some aarch64_abs64) section p s got_s a m c e =
    computes_value section m _ c e
compute_at-OneStubMore (some aarch64_abs32) section p s got_s a m c e =
    computes_value section m _ c e
compute_at-OneStubMore (some aarch64_abs16) section p s got_s a m c e =
    computes_value section m _ c e
compute_at-OneStubMore (some aarch64_prel64) section p s got_s a m c e =
    computes_value section m _ c e
compute_at-OneStubMore (some aarch64_prel32) section p s got_s a m c e =
    computes_value section m _ c e
compute_at-OneStubMore (some aarch64_prel16) section p s got_s a m c e =
    computes_value section m _ c e
compute_at-OneStubMore (some aarch64_adr_prel_pg_hi21) section p s got_s a m c e =
    computes_value section m _ c e
compute_at-OneStubMore (some aarch64_add_abs_lo12_nc) section p s got_s a m c e =
    computes_value section m _ c e
compute_at-OneStubMore (some aarch64_ldst8_abs_lo12_nc) section p s got_s a m c e =
    computes_value section m _ c e
compute_at-OneStubMore (some aarch64_ldst128_abs_lo12_nc) section p s got_s a m c e =
    computes_value section m _ c (
      all_asserted-eq-ok
        ((bit_and (u64 (s + a)) 0x0f == 0)
          ∷ (bit_and (u64 (s + a)) 0x07 == 0)
          ∷ (bit_and (u64 (s + a)) 0x03 == 0)
          ∷ (bit_and (u64 (s + a)) 0x01 == 0)
          ∷ [])
        (value section m (bit_and (u64 (s + a)) 0xfff)) e)
compute_at-OneStubMore (some aarch64_ldst64_abs_lo12_nc) section p s got_s a m c e =
    computes_value section m _ c (
      all_asserted-eq-ok
        ((bit_and (u64 (s + a)) 0x07 == 0)
          ∷ (bit_and (u64 (s + a)) 0x03 == 0)
          ∷ (bit_and (u64 (s + a)) 0x01 == 0)
          ∷ [])
        (value section m (bit_and (u64 (s + a)) 0xfff)) e)
compute_at-OneStubMore (some aarch64_ldst32_abs_lo12_nc) section p s got_s a m c e =
    computes_value section m _ c (
      all_asserted-eq-ok
        ((bit_and (u64 (s + a)) 0x03 == 0) ∷ (bit_and (u64 (s + a)) 0x01 == 0) ∷ [])
        (value section m (bit_and (u64 (s + a)) 0xfff)) e)
compute_at-OneStubMore (some aarch64_ldst16_abs_lo12_nc) section p s got_s a m c e =
    computes_value section m _ c (
      all_asserted-eq-ok ((bit_and (u64 (s + a)) 0x01 == 0) ∷ [])
        (value section m (bit_and (u64 (s + a)) 0xfff)) e)
compute_at-OneStubMore (some aarch64_adr_got_page) section p s got_s a m c e =
    computes_value section m _ c (assert->>-eq-ok _ _ e)
compute_at-OneStubMore (some aarch64_ld64_got_lo12_nc) section p s got_s a m c e =
    computes_value section m _ c (assert->>-eq-ok _ _ e)
compute_at-OneStubMore (some aarch64_jump26) section p s got_s a m c e =
    branch_addend-OneStubMore section p s a m c e
compute_at-OneStubMore (some aarch64_call26) section p s got_s a m c e =
    branch_addend-OneStubMore section p s a m c e
compute_at-OneStubMore _ section p s got_s a m c e = absurd (cc)

-- Whatever the type of the relocation: where the body of the loop returns, the section differs in the
-- chain of its stubs and their number at most, and no byte has changed but the eight at the place and
-- the twenty of the stub that is next.
pub relocate_one_writes :
    (section section' : Section) (rel : ElfRel) (symbol : ElfSymbol) (addend : ℕ) (m m' : Memory)
    → relocate_one section rel symbol addend m ≡ ok (section', m')
    → SameButStubs section section'
      × ((a : ℕ)
          → (a < place section rel) ⊎ (place section rel + 8 ≤ a)
          → (a < next_stub_addr arm64 section.info) ⊎ (next_stub_addr arm64 section.info + 20 ≤ a)
          → m' a ≡ m a)
unfolding relocate_one compute_addend
relocate_one_writes section section' rel symbol addend m m' e =
    let p = place section rel in
    let r = arm64_constant (elf64_r_type rel.r_info) in
    let (c, computed, rest) = >>=-eq-ok (compute_addend section rel symbol addend m) _ e in
    let ((g, status), encoded, returned) =
      >>=-eq-ok (encode_addend_arm64 c.section rel c.addend c.memory) _ rest in
    let more = compute_at-OneStubMore r section p symbol.addr symbol.got_addr addend m c (
      all_asserted-eq-ok
        (not (p == 0)
          ∷ leb section.start p
          ∷ leb p (u64 (section.start + section.size))
          ∷ not (symbol.addr == 0)
          ∷ [])
        (compute_at r section p symbol.addr symbol.got_addr addend m) computed) in
    let same_section : c.section ≡ section' =
      ap (λ (x : Section × Memory). x.0) (ok-injective returned) in
    let same_memory : g ≡ m' = ap (λ (x : Section × Memory). x.1) (ok-injective returned) in
    let patched =
      (encode_addend_arm64-SameOutside c.section rel c.addend c.memory g status encoded).0 in
    let here : place c.section rel ≡ place section rel =
      ap (λ (x : Section). place x rel) more.shape in
    (
      subst (SameButStubs section) same_section more.shape,
      λ a outside_place outside_stub.
          ap (λ (x : Memory). x a) (sym same_memory)
          ∙ patched a (subst (λ q. (a < q) ⊎ (q + 8 ≤ a)) (sym here) outside_place)
          ∙ more.writes a outside_stub,
    )
