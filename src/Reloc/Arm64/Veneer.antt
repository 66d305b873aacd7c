-- ===== src/Reloc/Arm64/Veneer.antt =====
-- The stub that an out-of-range branch goes through: found or made, it jumps to the symbol.
use liblink.Base.{
  ℕ, ◌+◌, ◌*◌, ◌≤◌, ◌<◌, ◌≡◌, refl, inl, inr, true, List, [], ◌∷◌, arith, ok, Bool-cases,
  exit_success,
}
use liblink.Memory.{Memory}
use liblink.Memory.Laws.{IsBytes, store32-IsBytes}
use liblink.Types.{Section, Stub, SectionFormatInfo}
use liblink.Plt.{Made, find_in, find_stub}
use liblink.Plt.Arm64.{arm64, make_stub_arm64}
use liblink.Plt.Arm64.Jump.{IsJump}
use liblink.Plt.Trampoline.{arm64_trampoline, make_stub_arm64-SameOutside}
use liblink.Plt.Chain.Place
use liblink.Plt.Chain.Lookup.{find_stub-IsJump, find_stub_place}
use liblink.Reloc.Arm64.{find_or_make_stub}

abbrev pub IsChain : Memory → SectionFormatInfo → Type 0
IsChain m i = Place.IsChain arm64 arm64_trampoline m i

abbrev pub HasRoom : SectionFormatInfo → Type 0
HasRoom i = Place.HasRoom arm64 arm64_trampoline i

make_stub_arm64-IsBytes : (s : Stub) (m : Memory) → IsBytes m → IsBytes (make_stub_arm64 s m).0
unfolding make_stub_arm64
make_stub_arm64-IsBytes s m h = store32-IsBytes _ _ _ (
    store32-IsBytes _ _ _ (store32-IsBytes _ _ _ (store32-IsBytes _ _ _ (store32-IsBytes m _ _ h))))

find_in_missing : (ss : List Stub) (a : ℕ) → (find_in ss a).1 ≡ true → (find_in ss a).0 ≡ a
unfolding find_in
find_in_missing [] a h = refl
find_in_missing (x ∷ xs) a h = ground (arith, find_in_missing xs a)

find_stub_missing :
    (section : Section) (a : ℕ) → (find_stub section a).1 ≡ true → (find_stub section a).0 ≡ a
unfolding find_stub
find_stub_missing section a h = find_in_missing section.info.stubs a h

-- The stub for `s` that a branch from the section is sent through.
pub record Veneer (section : Section) (s : ℕ) (m : Memory) (made : Made) : Type 0 where
  pub number : ℕ
  pub placed : made.addr ≡ section.info.stub_offset + 8 + 20 * number
  pub bounded : number ≤ section.info.nstubs
  pub jumps : IsJump made.memory made.addr s
  pub below : (a : ℕ) → a < section.info.stub_offset + 8 → made.memory a ≡ m a
  pub bytes : IsBytes made.memory
  pub chain : IsChain made.memory made.section.info
  pub same_start : made.section.start ≡ section.start
  pub same_offset : made.section.info.stub_offset ≡ section.info.stub_offset

pub find_or_make_stub_lem :
    (section : Section) (s : ℕ) (m : Memory)
    → IsChain m section.info
    → HasRoom section.info
    → IsBytes m
    → (made : Made) × (find_or_make_stub section s m ≡ ok made) × Veneer section s m made
unfolding find_or_make_stub
find_or_make_stub_lem section s m chain room bytes = elim (Bool-cases (find_stub section s).1) [
  | inl missing ↦
      let made = Place.made_stub arm64 arm64_trampoline section s m in
      let i = section.info in
      (
        made,
        rw (
          missing,
          find_stub_missing section s missing,
          Place.make_stub-ok arm64 arm64_trampoline section s m chain room,
        ),
        record {
          number = i.nstubs;
          placed = refl;
          bounded = omega arith;
          jumps = arm64_trampoline.made (Place.next_stub arm64 arm64_trampoline i s) m;
          below = λ a lt.
              make_stub_arm64-SameOutside (Place.next_stub arm64 arm64_trampoline i s) m a
                (inl (omega arith));
          bytes = make_stub_arm64-IsBytes (Place.next_stub arm64 arm64_trampoline i s) m bytes;
          chain = Place.made_stub-IsChain arm64 arm64_trampoline section s m chain;
          same_start = refl;
          same_offset = refl;
        },
      )
  | inr found ↦
      let a = (find_stub section s).0 in
      let hit : find_stub section s ≡ (a, exit_success) = λ i. (a, found i) in
      let (k, lt, at) = find_stub_place arm64 arm64_trampoline section s a m chain hit in
      (
        record { section = section; memory = m; addr = a; status = exit_success },
        rw found,
        record {
          number = k;
          placed = at;
          bounded = omega arith;
          jumps = find_stub-IsJump arm64 arm64_trampoline section s a m chain hit;
          below = λ b lt. refl;
          bytes = bytes;
          chain = chain;
          same_start = refl;
          same_offset = refl;
        },
      )
]
