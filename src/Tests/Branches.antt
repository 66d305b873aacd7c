-- ===== src/Tests/Branches.antt =====
-- A `bl` to a symbol that is out of its reach.
use liblink.Base.{◌/◌, ◌^◌, ◌≡◌, refl, inl, inr, arith, ok, some}
use liblink.Memory.{Memory, load32}
use liblink.Memory.Laws.{load32-store32}
use liblink.Types.{ElfRel, Section}
use liblink.Compat.{elf64_r_type}
use liblink.Compat.Arm64.{arm64_constant, aarch64_call26}
use liblink.Plt.Arm64.{arm64}
use liblink.Plt.Trampoline.{arm64_trampoline}
use liblink.Reloc.Arm64.{place, relocate_one}
use liblink.Reloc.Arm64.Veneer.{IsChain}
use liblink.Reloc.Arm64.Branch.{BranchSite, Reaches, relocate_one-Reaches}
use liblink.Tests.Data.{zeros, code, code-IsBytes, text, far_symbol, text-IsChain}

-- R_AARCH64_CALL26 at the first instruction of the section.
abbrev call : ElfRel
call = record { r_offset = 0; r_info = 283 }

abbrev before : Memory
before = code 0x10000 0x94000000

word : load32 before 0x10000 ≡ 0x94000000
word = omega (arith, load32-store32 zeros 0x10000 0x94000000)

is_call : arm64_constant (elf64_r_type call.r_info) ≡ some aarch64_call26
unfolding arm64_constant
is_call = refl

site : BranchSite text (place text call) far_symbol.addr before
site = record {
  chain = text-IsChain arm64 arm64_trampoline before;
  bytes = code-IsBytes 0x10000 0x94000000;
  opcode = inr (omega (arith, word));
  in_front = omega arith;
  aligned = refl;
  stubs_aligned = refl;
  symbol_aligned = refl;
  symbol_small = omega arith;
  near = omega arith;
  canonical = omega arith;
}

relocate_one-Reaches_example :
    (section' : Section) × (m' : Memory) × (relocate_one text call far_symbol 0 before
      ≡ ok (section', m'))
    × Reaches m' 0x10000 0x7f00000000
    × (load32 m' 0x10000 / 2 ^ 26 ≡ load32 before 0x10000 / 2 ^ 26)
    × IsChain m' section'.info
relocate_one-Reaches_example =
    relocate_one-Reaches text call far_symbol before (inl is_call) site (omega arith, omega arith)
      (omega arith, omega arith)
