-- ===== src/Plt/Chain/Sequence.antt =====
-- `make_stub` (elf/plt.c) for one target after the other, in a section that has no stubs.
use liblink.Base.{
  inl, inr, ◌==◌, Bool-cases, ◌∙◌, sym, ◌≤◌, ℕ, suc, ◌+◌, ◌*◌, ◌^◌, ◌<◌, ◌≡◌, refl, ap, List, [],
  ◌∷◌, ◌++◌, length, Each, map-Each, arith, Outcome, ok, ◌>>=◌, exit_success,
}
use native.Mathlib.Nat.{mul-zero}
use liblink.Memory.{Memory}
use liblink.Memory.Laws.{SameOutside}
use liblink.Types.{Section, Stub}
use liblink.Target.{Target}
use liblink.Plt.{find_in, find_stub, make_stub}
use liblink.Plt.Trampoline.{Trampoline}
use liblink.Plt.Chain.Place.{
  IsChain, HasRoom, next_stub, made_stub, make_stub-ok, made_stub-IsChain,
}
use liblink.Plt.Chain.Lookup.{find_stub-IsJump}

-- The section and the memory behind the calls.
abbrev pub make_stubs : Target → Section → List ℕ → Memory → Outcome (Section × Memory)
make_stubs t section [] m = ok (section, m)
make_stubs t section (target ∷ targets) m = do
  made ← make_stub t section target m
  make_stubs t made.section targets made.memory

-- A stub that is appended is found, or one for the same target before it.
find_in-append_found :
    (ss : List Stub) (s : Stub) → (a : ℕ) × (find_in (ss ++ s ∷ []) s.target ≡ (a, exit_success))
unfolding find_in
find_in-append_found [] s = (s.addr, ground arith)
find_in-append_found (x ∷ xs) s = elim (Bool-cases (x.target == s.target)) [
  | inl hit ↦ (x.addr, rw hit refl)
  | inr miss ↦ let (a, found) = find_in-append_found xs s in (a, rw miss found)
]

-- A stub that is found is still found behind it.
find_in-append_kept :
    (ss : List Stub) (s : Stub) (b a : ℕ)
    → find_in ss b ≡ (a, exit_success)
    → find_in (ss ++ s ∷ []) b ≡ (a, exit_success)
unfolding find_in
find_in-append_kept [] s b a e = absurd (ground arith)
find_in-append_kept (x ∷ xs) s b a e = elim (Bool-cases (x.target == b)) [
  | inl hit ↦ ground arith
  | inr miss ↦ rw miss (find_in-append_kept xs s b a (ground arith))
]

room_first : (s k n : ℕ) → s * k + s ≤ s * (k + suc n)
room_first s k n = grind arith

mul_suc : (s k : ℕ) → s * (k + 1) ≡ s * k + s
mul_suc s k = grind arith

room_rest : (k n : ℕ) → k + 1 + n ≡ k + suc n
room_rest k n = omega arith

module _ (t : Target) (j : Trampoline t) where
  -- What the calls leave of a valid chain.
  record AllFound (section : Section) (targets : List ℕ) (m : Memory) (section' : Section)
      (m' : Memory) : Type 0 where
    pub chain : IsChain t j m' section'.info
    pub kept :
        (b a : ℕ)
        → find_stub section b ≡ (a, exit_success)
        → find_stub section' b ≡ (a, exit_success)
    pub found : Each (λ b. (a : ℕ) × (find_stub section' b ≡ (a, exit_success))) targets
    pub outside :
        SameOutside
          (section.info.stub_offset + 8 + t.stub_size * section.info.nstubs)
          (t.stub_size * length targets)
          m
          m'

  make_stubs-AllFound :
      (section : Section) (targets : List ℕ) (m : Memory)
      → IsChain t j m section.info
      → section.info.stub_offset + 8 + t.stub_size * (section.info.nstubs + length targets)
        < 2 ^ t.addr_bits
      → section.info.nstubs + length targets < 2 ^ t.addr_bits
      → (section' : Section) × (m' : Memory) × (make_stubs t section targets m ≡ ok (section', m'))
        × AllFound section targets m section' m'
  unfolding find_stub
  make_stubs-AllFound section [] m chain room count = (
    section,
    m,
    refl,
    record { chain = chain; kept = λ b a e. e; found = tt; outside = λ a o. refl },
  )
  make_stubs-AllFound section (target ∷ targets) m chain room count =
      let i = section.info in
      let n = length targets in
      let fits : HasRoom t j i = (omega (arith, room_first t.stub_size i.nstubs n), omega arith) in
      let made = made_stub t j section target m in
      let (section', m', calls, rest) =
        make_stubs-AllFound made.section targets made.memory
          (made_stub-IsChain t j section target m chain)
          (omega (arith, ap (λ (k : ℕ). t.stub_size * k) (room_rest i.nstubs n))) (omega arith) in
      (
        section',
        m',
        rw (make_stub-ok t j section target m chain fits) calls,
        record {
          chain = rest.chain;
          kept = λ b x e. rest.kept b x (find_in-append_kept i.stubs _ b x e);
          found = (
            (let (x, first) = find_in-append_found i.stubs _ in (x, rest.kept target x first)),
            rest.found,
          );
          outside = λ a o.
              let one = mul_suc t.stub_size i.nstubs in
              let more = mul_suc t.stub_size n in
              elim o [
                | inl lo ↦
                    rest.outside a (inl (omega (arith, one)))
                    ∙ j.writes (next_stub t j i target) m a (inl lo)
                | inr hi ↦
                    rest.outside a (inr (omega (arith, one, more)))
                    ∙ j.writes (next_stub t j i target) m a (inr (omega (arith, more)))
              ];
        },
      )

  -- From a section without stubs, the calls of `make_stub` for a list of targets succeed one after the
  -- other, where the addresses of so many stubs and their number do not wrap around. In the section and
  -- the memory that they leave, `find_stub` finds a stub for each of the targets, whose code jumps to
  -- it, and finds no stub whose code does not jump to the wanted target. No byte has changed but those
  -- of the stubs, which start 8 bytes behind `stub_offset`.
  pub make_stubs-find_stub :
      (section : Section) (targets : List ℕ) (m : Memory)
      → section.info.nstubs ≡ 0
      → section.info.stubs ≡ []
      → section.info.stub_offset + 8 + t.stub_size * length targets < 2 ^ t.addr_bits
      → length targets < 2 ^ t.addr_bits
      → (section' : Section) × (m' : Memory) × (make_stubs t section targets m ≡ ok (section', m'))
        × Each (λ b. (a : ℕ) × (find_stub section' b ≡ (a, exit_success)) × j.IsJump m' a b) targets
        × ((b a : ℕ) → find_stub section' b ≡ (a, exit_success) → j.IsJump m' a b)
        × SameOutside (section.info.stub_offset + 8) (t.stub_size * length targets) m m'
  make_stubs-find_stub section targets m zero_stubs no_stubs room count =
      let i = section.info in
      let chain : IsChain t j m i = record {
        counted = zero_stubs ∙ sym (ap (λ (l : List Stub). length l) no_stubs);
        placed = rw no_stubs tt;
      } in
      let all : i.nstubs + length targets ≡ length targets = omega (arith, zero_stubs) in
      let (section', m', calls, made) =
        make_stubs-AllFound section targets m chain
          (omega (arith, ap (λ (k : ℕ). t.stub_size * k) all)) (omega (arith, all)) in
      let jumps : (b a : ℕ) → find_stub section' b ≡ (a, exit_success) → j.IsJump m' a b =
        λ b a e. find_stub-IsJump t j section' b a m' made.chain e in
      let start : t.stub_size * i.nstubs ≡ 0 = rw zero_stubs (mul-zero t.stub_size) in
      (
        section',
        m',
        calls,
        map-Each targets (λ b h. (h.0, h.1, jumps b h.0 h.1)) made.found,
        jumps,
        λ a o. made.outside a (ground (arith, start)),
      )
