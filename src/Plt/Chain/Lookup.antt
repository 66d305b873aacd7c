-- ===== src/Plt/Chain/Lookup.antt =====
-- `find_stub` against the chain, and after `make_stub`.
use liblink.Base.{
  ℕ, suc, ◌+◌, ◌*◌, ◌<◌, ◌≡◌, ◌≢◌, inl, inr, List, [], ◌∷◌, ◌++◌, length, arith, ok, exit_success,
  exit_failure, ◌==◌, ==_iff, Bool-cases,
}
use mathlib.Core.Path.{subst}
use liblink.Memory.{Memory}
use liblink.Types.{Section, Stub}
use liblink.Target.{Target}
use liblink.Plt.{Made, find_in, find_stub, make_stub}
use liblink.Plt.Trampoline.{Trampoline}
use liblink.Plt.Chain.Place.{Placed, IsChain, HasRoom, made_stub, make_stub-ok}

find_in-append_new :
    (ss : List Stub) (s : Stub)
    → find_in ss s.target ≡ (s.target, exit_failure)
    → find_in (ss ++ s ∷ []) s.target ≡ (s.addr, exit_success)
unfolding find_in
find_in-append_new [] s h = ground arith
find_in-append_new (x ∷ xs) s h = ground (arith, find_in-append_new xs s)

find_in-append_ne :
    (ss : List Stub) (s : Stub) (b : ℕ) → b ≢ s.target → find_in (ss ++ s ∷ []) b ≡ find_in ss b
unfolding find_in
find_in-append_ne [] s b ne = ground arith
find_in-append_ne (x ∷ xs) s b ne = ground (arith, find_in-append_ne xs s b)

module _ (t : Target) (j : Trampoline t) where
  find_in-IsJump :
      (m : Memory) (base k : ℕ) (ss : List Stub) (target a : ℕ)
      → Placed t j m base k ss
      → find_in ss target ≡ (a, exit_success)
      → j.IsJump m a target
  unfolding find_in
  find_in-IsJump m base k [] target a p e = absurd (ground arith)
  find_in-IsJump m base k (s ∷ ss) target a (at, jump, rest) e =
      elim (Bool-cases (s.target == target)) [
        | inl hit ↦
            let found : s.addr ≡ a = ground arith in
            subst (λ x. j.IsJump m x target) found
              (subst (λ x. j.IsJump m s.addr x) ((==_iff s.target target).0 hit) jump)
        | inr miss ↦ find_in-IsJump m base (k + 1) ss target a rest (ground arith)
      ]

  find_in_place :
      (m : Memory) (base k : ℕ) (ss : List Stub) (target a : ℕ)
      → Placed t j m base k ss
      → find_in ss target ≡ (a, exit_success)
      → (i : ℕ) × (i < length ss) × (a ≡ base + t.stub_size * (k + i))
  unfolding find_in
  find_in_place m base k [] target a p e = absurd (ground arith)
  find_in_place m base k (s ∷ ss) target a (at, jump, rest) e =
      elim (Bool-cases (s.target == target)) [
        | inl hit ↦ (0, omega arith, ground arith)
        | inr miss ↦
            let (i, lt, eq) = find_in_place m base (k + 1) ss target a rest (ground arith) in
            (suc i, omega arith, omega arith)
      ]

  -- It is one of the places of the chain.
  pub find_stub_place :
      (section : Section) (target a : ℕ) (m : Memory)
      → IsChain t j m section.info
      → find_stub section target ≡ (a, exit_success)
      → (i : ℕ) × (i < section.info.nstubs) × (a ≡ section.info.stub_offset + 8 + t.stub_size * i)
  unfolding find_stub
  find_stub_place section target a m chain e =
      let (i, lt, eq) =
        find_in_place m (section.info.stub_offset + 8) 0 section.info.stubs target a chain.placed
          e in
      (i, omega (arith, chain.counted), ground arith)

  -- Where `find_stub` finds a stub, the code at the address that it returns jumps to the wanted
  -- target.
  pub find_stub-IsJump :
      (section : Section) (target a : ℕ) (m : Memory)
      → IsChain t j m section.info
      → find_stub section target ≡ (a, exit_success)
      → j.IsJump m a target
  unfolding find_stub
  find_stub-IsJump section target a m chain e =
      find_in-IsJump m (section.info.stub_offset + 8) 0 section.info.stubs target a chain.placed e

  -- On a valid chain, where neither the address of one more stub nor the count wraps around, `make_stub`
  -- succeeds for a target that has no stub, and after it `find_stub` finds the new stub for that target,
  -- and answers as before for every other.
  pub find_stub-make_stub :
      (section : Section) (target : ℕ) (m : Memory)
      → IsChain t j m section.info
      → HasRoom t j section.info
      → find_stub section target ≡ (target, exit_failure)
      → (made : Made) × (make_stub t section target m ≡ ok made)
        × (find_stub made.section target ≡ (made.addr, exit_success))
        × ((b : ℕ) → b ≢ target → find_stub made.section b ≡ find_stub section b)
  unfolding find_stub
  find_stub-make_stub section target m chain room fresh = (
    made_stub t j section target m,
    make_stub-ok t j section target m chain room,
    find_in-append_new section.info.stubs _ fresh,
    λ b ne. find_in-append_ne section.info.stubs _ b ne,
  )
