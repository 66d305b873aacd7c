-- ===== src/Plt/Trampoline.antt =====
-- What `plt.c` relies on of the `make_stub` of an architecture, and that both meet it.
use liblink.Base.{ℕ, ◌+◌, ◌≤◌, ◌<◌, ◌≡◌, refl, false, arith}
use liblink.Memory.{Memory, store32}
use liblink.Memory.Laws.{SameOutside}
use liblink.Types.{Stub}
use liblink.Target.{Target}
use liblink.Plt.Arm64.{arm64, make_stub_arm64}
use liblink.Plt.Arm64.Jump as Jump64
use liblink.Plt.Arm.{arm, make_stub_arm}
use liblink.Plt.Arm.Jump as Jump32

-- `IsJump m p a`: the code of a jump to `a` stands at `p`.
pub record Trampoline (t : Target) : Type 1 where
  pub IsJump : Memory → ℕ → ℕ → Type 0
  pub made : (s : Stub) (m : Memory) → IsJump (t.make_stub s m).0 s.addr s.target
  pub succeeds : (s : Stub) (m : Memory) → (t.make_stub s m).1 ≡ false
  pub writes : (s : Stub) (m : Memory) → SameOutside s.addr t.stub_size m (t.make_stub s m).0
  pub frame :
      (m g : Memory) (p target : ℕ)
      → ((a : ℕ) → p ≤ a → a < p + t.stub_size → g a ≡ m a)
      → IsJump m p target
      → IsJump g p target

pub arm64_succeeds : (s : Stub) (m : Memory) → (make_stub_arm64 s m).1 ≡ false
unfolding make_stub_arm64
arm64_succeeds s m = refl

-- `make_stub_arm64` writes only the 20 bytes of the stub.
pub make_stub_arm64-SameOutside :
    (s : Stub) (m : Memory) → SameOutside s.addr 20 m (make_stub_arm64 s m).0
unfolding make_stub_arm64 store32
make_stub_arm64-SameOutside s m a h = ground arith

pub arm_succeeds : (s : Stub) (m : Memory) → (make_stub_arm s m).1 ≡ false
unfolding make_stub_arm
arm_succeeds s m = refl

-- `make_stub_arm` writes only the 12 bytes of the stub.
pub make_stub_arm-SameOutside :
    (s : Stub) (m : Memory) → SameOutside s.addr 12 m (make_stub_arm s m).0
unfolding make_stub_arm store32
make_stub_arm-SameOutside s m a h = ground arith

abbrev pub arm64_trampoline : Trampoline arm64
arm64_trampoline = record {
  IsJump = Jump64.IsJump;
  made = Jump64.make_stub_arm64-IsJump;
  succeeds = arm64_succeeds;
  writes = make_stub_arm64-SameOutside;
  frame = Jump64.IsJump-frame;
}

abbrev pub arm_trampoline : Trampoline arm
arm_trampoline = record {
  IsJump = Jump32.IsJump;
  made = Jump32.make_stub_arm-IsJump;
  succeeds = arm_succeeds;
  writes = make_stub_arm-SameOutside;
  frame = Jump32.IsJump-frame;
}
