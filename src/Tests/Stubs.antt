-- ===== src/Tests/Stubs.antt =====
-- Stubs: one made, one run, on both targets.
use liblink.Base.{Each, ℕ, ◌+◌, ◌≡◌, ◌≢◌, refl, List, [], ◌∷◌, ◌++◌, arith, ok, some, exit_success}
use liblink.Memory.{Memory}
use liblink.Memory.Laws.{SameOutside}
use liblink.Types.{Section, Stub}
use liblink.Machine.Arm64 as Cpu64
use liblink.Machine.Arm as Cpu32
use liblink.Plt.{Made, find_stub, make_stub, free_stubs}
use liblink.Plt.Arm64.{arm64, make_stub_arm64}
use liblink.Plt.Arm64.Jump.{make_stub_arm64_jumps, make_stub_arm64-IsJump}
use liblink.Plt.Arm64.Jump as Jump64
use liblink.Plt.Arm.{make_stub_arm}
use liblink.Plt.Arm.Jump.{make_stub_arm_jumps}
use liblink.Plt.Trampoline.{arm64_trampoline}
use liblink.Plt.Chain.Place.{IsChain, extend, make_stub_lem, make_stub_overruns}
use liblink.Plt.Chain.Lookup.{find_stub-make_stub}
use liblink.Plt.Chain.Sequence.{make_stubs, make_stubs-find_stub}
use liblink.Plt.Chain.Free.{free_stubs_leaks}
use liblink.Tests.Data.{zeros, info, text, text-IsChain, far_stub}

make_stub_arm64_jumps_example :
    (c' : Cpu64.Cpu) × (Cpu64.run 5
        (make_stub_arm64 far_stub zeros).0
        (record { pc = 0x20008; x = λ q. q })
      ≡ some c')
    × (c'.pc ≡ 0x7f00000000)
    × ((q : ℕ) → q ≢ 16 → c'.x q ≡ q)
make_stub_arm64_jumps_example =
    make_stub_arm64_jumps far_stub zeros (record { pc = 0x20008; x = λ q. q }) refl (omega arith)
      (omega arith)

abbrev arm_stub : Stub
arm_stub = record { addr = 0x20008; target = 0x7f123454 }

make_stub_arm_jumps_example :
    (c' : Cpu32.Cpu) × (Cpu32.run 3
        (make_stub_arm arm_stub zeros).0
        (record { pc = 0x20008; r = λ q. q })
      ≡ some c')
    × (c'.pc ≡ 0x7f123454)
    × ((q : ℕ) → q ≢ 12 → c'.r q ≡ q)
make_stub_arm_jumps_example =
    make_stub_arm_jumps arm_stub zeros (record { pc = 0x20008; r = λ q. q }) refl (omega arith)
      (omega arith) refl

make_stub_lem_example :
    (made : Made) × (make_stub arm64 text 0x7f00000000 zeros ≡ ok made)
    × (made.status ≡ exit_success)
    × (made.addr ≡ 0x20008)
    × (made.section ≡ record text { info = extend arm64 arm64_trampoline info 0x7f00000000 })
    × Jump64.IsJump made.memory made.addr 0x7f00000000
    × SameOutside made.addr 20 zeros made.memory
    × IsChain arm64 arm64_trampoline made.memory made.section.info
make_stub_lem_example =
    make_stub_lem arm64 arm64_trampoline text 0x7f00000000 zeros
      (text-IsChain arm64 arm64_trampoline zeros) (omega arith, omega arith)

-- The section whose only stub is `far_stub`, and its memory.
abbrev one_stub : Section
one_stub = record text { info = record info { nstubs = 1; stubs = far_stub ∷ [] } }

abbrev one_memory : Memory
one_memory = (make_stub_arm64 far_stub zeros).0

one_stub-IsChain : IsChain arm64 arm64_trampoline one_memory one_stub.info
one_stub-IsChain = record {
  counted = refl;
  placed = (refl, make_stub_arm64-IsJump far_stub zeros, tt);
}

-- 20 bytes are reserved for the one stub of this section, which takes 0x20008 up to 0x2001c.
make_stub_overruns_example :
    (made : Made) × (make_stub arm64
        (record text { info = record info { stub_size = 20 } })
        0x7f00000000
        zeros
      ≡ ok made)
    × (made.addr + 20 ≡ 0x20000 + 20 + 8)
make_stub_overruns_example =
    make_stub_overruns arm64 arm64_trampoline
      (record text { info = record info { stub_size = 20 } }) 0x7f00000000 1 zeros
      (record { counted = refl; placed = tt }) (omega arith, omega arith) refl refl

make_stubs-find_stub_example :
    (section' : Section) × (m' : Memory) × (make_stubs arm64 text
        (0x7f00000000 ∷ 0x6f00000000 ∷ [])
        zeros
      ≡ ok (section', m'))
    × Each
        (λ b. (a : ℕ) × (find_stub section' b ≡ (a, exit_success)) × Jump64.IsJump m' a b)
        (0x7f00000000 ∷ 0x6f00000000 ∷ [])
    × ((b a : ℕ) → find_stub section' b ≡ (a, exit_success) → Jump64.IsJump m' a b)
    × SameOutside 0x20008 40 zeros m'
make_stubs-find_stub_example =
    make_stubs-find_stub arm64 arm64_trampoline text (0x7f00000000 ∷ 0x6f00000000 ∷ []) zeros refl
      refl (omega arith) (omega arith)

find_stub-make_stub_example :
    (made : Made) × (make_stub arm64 one_stub 0x6f00000000 one_memory ≡ ok made)
    × (find_stub made.section 0x6f00000000 ≡ (made.addr, exit_success))
    × ((b : ℕ) → b ≢ 0x6f00000000 → find_stub made.section b ≡ find_stub one_stub b)
find_stub-make_stub_example =
    find_stub-make_stub arm64 arm64_trampoline one_stub 0x6f00000000 one_memory one_stub-IsChain
      (omega arith, omega arith) (unfold find_stub in refl)

free_stubs_leaks_example :
    (freed : List Stub) × (last : Stub) × (free_stubs one_stub
      ≡ ok (record one_stub { info = record one_stub.info { stubs = []; nstubs = 0 } }, freed))
    × (freed ++ last ∷ [] ≡ far_stub ∷ [])
free_stubs_leaks_example = free_stubs_leaks one_stub (omega arith) (λ e. absurd (cc))
