-- ===== src/Plt/Chain/Place.antt =====
-- The invariant of a section's stubs, and that `make_stub` keeps it.
use liblink.Base.{
  ℕ, suc, ◌+◌, ◌*◌, ◌^◌, ◌≤◌, ◌<◌, ◌≡◌, refl, ap, inl, List, [], ◌∷◌, ◌++◌, length, length-append,
  arith, ok, exit_success,
}
use native.Mathlib.Nat.{mod-eq_of_lt, zero-add}
use liblink.Memory.{Memory}
use liblink.Memory.Laws.{SameOutside}
use liblink.Types.{Section, SectionFormatInfo, Stub}
use liblink.Target.{Target}
use liblink.Plt.{Made, append_stub, make_stub}
use liblink.Plt.Trampoline.{Trampoline}

mul_le_add : (s k n : ℕ) → s * k + s ≤ s * (k + suc n)
mul_le_add s k n = grind arith

mul_suc : (s k : ℕ) → s * (k + 1) ≡ s * k + s
mul_suc s k = grind arith

module _ (t : Target) (j : Trampoline t) where
  -- The stubs from number `k` on stand one after the other, and each jumps to its target.
  abbrev pub Placed : Memory → ℕ → ℕ → List Stub → Type 0
  Placed m base k [] = Unit {0}
  Placed m base k (s ∷ ss) =
      (s.addr ≡ base + t.stub_size * k) × j.IsJump m s.addr s.target × Placed m base (k + 1) ss

  pub record IsChain (m : Memory) (i : SectionFormatInfo) : Type 0 where
    pub counted : i.nstubs ≡ length i.stubs
    pub placed : Placed m (i.stub_offset + 8) 0 i.stubs

  -- Stubs below `base + stub_size * limit` do not see writes at or above it.
  Placed-frame :
      (m g : Memory) (base k : ℕ) (ss : List Stub)
      → ((a : ℕ) → a < base + t.stub_size * (k + length ss) → g a ≡ m a)
      → Placed m base k ss
      → Placed g base k ss
  Placed-frame m g base k [] same p = tt
  Placed-frame m g base k (s ∷ ss) same (at, jump, rest) = (
    at,
    j.frame m g s.addr s.target
        (λ a lo hi. same a (omega (arith, mul_le_add t.stub_size k (length ss)))) jump,
    Placed-frame m g base (k + 1) ss (λ a hi. same a (omega arith)) rest,
  )

  -- Stubs do not see writes below the first of them.
  Placed-frame_above :
      (m g : Memory) (base k : ℕ) (ss : List Stub)
      → ((a : ℕ) → base ≤ a → g a ≡ m a)
      → Placed m base k ss
      → Placed g base k ss
  Placed-frame_above m g base k [] same p = tt
  Placed-frame_above m g base k (s ∷ ss) same (at, jump, rest) = (
    at,
    j.frame m g s.addr s.target (λ a lo hi. same a (omega arith)) jump,
    Placed-frame_above m g base (k + 1) ss same rest,
  )

  -- Writes below the stubs of a section keep its chain valid.
  pub IsChain-frame :
      (m g : Memory) (i : SectionFormatInfo)
      → ((a : ℕ) → i.stub_offset + 8 ≤ a → g a ≡ m a)
      → IsChain m i
      → IsChain g i
  IsChain-frame m g i same chain = record {
    counted = chain.counted;
    placed = Placed-frame_above m g (i.stub_offset + 8) 0 i.stubs same chain.placed;
  }

  Placed-append :
      (m : Memory) (base k : ℕ) (ss : List Stub) (s : Stub)
      → Placed m base k ss
      → s.addr ≡ base + t.stub_size * (k + length ss)
      → j.IsJump m s.addr s.target
      → Placed m base k (ss ++ s ∷ [])
  Placed-append m base k [] s p at jump = (omega arith, jump, tt)
  Placed-append m base k (x ∷ xs) s (here, jump_x, rest) at jump =
      (here, jump_x, Placed-append m base (k + 1) xs s rest (omega arith) jump)

  -- Neither the address nor the count of the next stub wraps.
  abbrev pub HasRoom : SectionFormatInfo → Type 0
  HasRoom i =
      (i.stub_offset + 8 + t.stub_size * i.nstubs < 2 ^ t.addr_bits)
      × (i.nstubs + 1 < 2 ^ t.addr_bits)

  -- `i` with one more stub, to `target`.
  abbrev pub extend : SectionFormatInfo → ℕ → SectionFormatInfo
  extend i target = record i {
    stubs =
        i.stubs
        ++ record { addr = i.stub_offset + 8 + t.stub_size * i.nstubs; target = target } ∷ [];
    nstubs = i.nstubs + 1;
  }

  append_stub_lem :
      (i : SectionFormatInfo) (s : Stub) (ss : List Stub)
      → i.nstubs ≡ length ss
      → i.nstubs + 1 < 2 ^ t.addr_bits
      → append_stub t i s ss ≡ ok (record i { stubs = ss ++ s ∷ []; nstubs = i.nstubs + 1 })
  unfolding append_stub
  append_stub_lem i s [] counted fits = ground (arith, mod-eq_of_lt fits)
  append_stub_lem i s (x ∷ xs) counted fits = rw (mod-eq_of_lt fits)

  -- The stub that is set up next, for `target`.
  abbrev pub next_stub : SectionFormatInfo → ℕ → Stub
  next_stub i target = record { addr = i.stub_offset + 8 + t.stub_size * i.nstubs; target = target }

  -- What a successful `make_stub` leaves.
  abbrev pub made_stub : Section → ℕ → Memory → Made
  made_stub section target m = record {
    section = record section { info = extend section.info target };
    memory = (t.make_stub (next_stub section.info target) m).0;
    addr = (next_stub section.info target).addr;
    status = exit_success;
  }

  module _ (section : Section) (target : ℕ) (m : Memory) (chain : IsChain m section.info) where
    pub make_stub-ok :
        HasRoom section.info → make_stub t section target m ≡ ok (made_stub section target m)
    unfolding make_stub
    make_stub-ok room =
        let i = section.info in
        rw (
          mod-eq_of_lt room.0,
          j.succeeds (next_stub i target) m,
          append_stub_lem i (next_stub i target) i.stubs chain.counted room.1,
        )

    pub made_stub-IsChain :
        IsChain (made_stub section target m).memory (made_stub section target m).section.info
    made_stub-IsChain =
        let i = section.info in
        let s = next_stub i target in
        record {
          counted = omega (arith, chain.counted, length-append {0} i.stubs (s ∷ []));
          placed =
              Placed-append (t.make_stub s m).0 (i.stub_offset + 8) 0 i.stubs s
                (Placed-frame m (t.make_stub s m).0 (i.stub_offset + 8) 0 i.stubs
                  (λ a lt. j.writes s m a (
                    inl (
                      omega (
                        arith,
                        ap (λ (n : ℕ). t.stub_size * n) chain.counted,
                        ap (λ (n : ℕ). t.stub_size * n) (zero-add (length i.stubs)),
                      ))))
                  chain.placed)
                (omega (arith, ap (λ (n : ℕ). t.stub_size * n) chain.counted)) (j.made s m);
        }

  -- On a valid chain with room for one more stub, `make_stub` succeeds: it returns the address behind
  -- the last stub, puts the code of a jump to `target` there and writes nowhere else, and leaves a
  -- valid chain, which is the old one with that stub at its end.
  pub make_stub_lem :
      (section : Section) (target : ℕ) (m : Memory)
      → IsChain m section.info
      → HasRoom section.info
      → (made : Made) × (make_stub t section target m ≡ ok made)
        × (made.status ≡ exit_success)
        × (made.addr ≡ section.info.stub_offset + 8 + t.stub_size * section.info.nstubs)
        × (made.section ≡ record section { info = extend section.info target })
        × j.IsJump made.memory made.addr target
        × SameOutside made.addr t.stub_size m made.memory
        × IsChain made.memory made.section.info
  make_stub_lem section target m chain room = (
    made_stub section target m,
    make_stub-ok section target m chain room,
    refl,
    refl,
    refl,
    j.made (next_stub section.info target) m,
    j.writes (next_stub section.info target) m,
    made_stub-IsChain section target m chain,
  )

  -- Where `n * STUB_SIZE` bytes are reserved for the `n` stubs of a section, as `load_sections` does,
  -- and all but one of the stubs are there in a valid chain, `make_stub` succeeds and puts the last one
  -- where it ends 8 bytes behind the reserved bytes.
  pub make_stub_overruns :
      (section : Section) (target n : ℕ) (m : Memory)
      → IsChain m section.info
      → HasRoom section.info
      → section.info.stub_size ≡ t.stub_size * n
      → section.info.nstubs + 1 ≡ n
      → (made : Made) × (make_stub t section target m ≡ ok made)
        × (made.addr + t.stub_size ≡ section.info.stub_offset + section.info.stub_size + 8)
  make_stub_overruns section target n m chain room reserved last = (
    made_stub section target m,
    make_stub-ok section target m chain room,
    omega (arith, ap (λ k. t.stub_size * k) last, mul_suc t.stub_size section.info.nstubs),
  )
