-- ===== src/Tests/Data.antt =====
-- Test data: a section of 64 KB at 0x10000 with room for stubs behind it, and memories.
use liblink.Base.{◌≡◌, Bool, true, false, Outcome, ok, fail, ℕ, [], ◌∷◌, arith, refl}
use liblink.Memory.{Memory, store32}
use liblink.Memory.Laws.{IsBytes, store32-IsBytes}
use liblink.Types.{
  ElfSym, ElfSymbol, Section, SectionFormatInfo, sectionkind_text, section_mmap, Stub,
}
use liblink.Target.{Target}
use liblink.Linker.{no_header}
use liblink.Plt.Trampoline.{Trampoline}
use liblink.Plt.Chain.Place.{IsChain}

abbrev pub zeros : Memory
zeros a = 0

pub zeros-IsBytes : IsBytes zeros
zeros-IsBytes a = omega arith

-- The instruction `w` at `p`.
abbrev pub code : ℕ → ℕ → Memory
code p w = store32 zeros p w

pub code-IsBytes : (p w : ℕ) → IsBytes (code p w)
code-IsBytes p w = store32-IsBytes zeros p w zeros-IsBytes

abbrev pub info : SectionFormatInfo
info = record {
  stub_offset = 0x20000;
  stub_size = 40;
  nstubs = 0;
  stubs = [];
  name = 0;
  section_header = no_header;
}

abbrev pub text : Section
text = record {
  start = 0x10000;
  size = 0x10000;
  kind = sectionkind_text;
  alloc = section_mmap;
  mapped_offset = 0;
  mapped_start = 0x10000;
  mapped_size = 0x10030;
  info = info;
}

-- A section without stubs has a valid chain.
pub text-IsChain : (t : Target) (j : Trampoline t) (m : Memory) → IsChain t j m info
text-IsChain t j m = record { counted = refl; placed = tt }

abbrev pub no_sym : ElfSym
no_sym = record { st_name = 0; st_info = 0; st_shndx = 0; st_value = 0; st_size = 0 }

-- A symbol at 0x7f00000000, far from the section.
abbrev pub far_symbol : ElfSymbol
far_symbol = record {
  name = 102 ∷ 97 ∷ 114 ∷ [];
  addr = 0x7f00000000;
  hash = 3;
  got_addr = 0;
  elf_sym = no_sym;
}

abbrev pub far_stub : Stub
far_stub = record { addr = 0x20008; target = 0x7f00000000 }

unfoldable pub has_result : {A : Type 0} → Outcome A → Bool
has_result (ok x) = true
has_result (fail why) = false

pub result_of : {A : Type 0} (x : Outcome A) → has_result x ≡ true → (r : A) × (x ≡ ok r)
unfolding has_result
result_of (ok r) e = (r, refl)
result_of (fail why) e = cc
