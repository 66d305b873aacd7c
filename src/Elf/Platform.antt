-- ===== src/Elf/Platform.antt =====
-- What elf/target.h chooses for an architecture: the types of ELF, the width of an address, and the
-- functions whose names end in the architecture's (elf/reloc.c).
use liblink.Base.{ℕ, Bool, Outcome}
use liblink.Memory.{Memory, load32, load64, store32, store64}
use liblink.Types.{ObjectCode, SymbolStore}
use liblink.Target.{Target}
use liblink.Plt.Arm64.{arm64}
use liblink.Plt.Arm.{arm}
use liblink.Reloc.Arm64.Object.{relocate_object_code_arm64}
use liblink.Reloc.Arm.Object.{relocate_object_code_arm}
use liblink.Elf.Format.{ElfFormat, elf64, elf32}

pub record Platform : Type 0 where
  pub target : Target
  pub format : ElfFormat
  pub sizeof_addr : ℕ
  pub load_addr : Memory → ℕ → ℕ
  pub store_addr : Memory → ℕ → ℕ → Memory
  pub relocate_object_code :
      SymbolStore → ObjectCode → Memory → Outcome (ObjectCode × Memory × Bool)

abbrev pub arm64_platform : Platform
arm64_platform = record {
  target = arm64;
  format = elf64;
  sizeof_addr = 8;
  load_addr = load64;
  store_addr = store64;
  relocate_object_code = relocate_object_code_arm64;
}

abbrev pub arm_platform : Platform
arm_platform = record {
  target = arm;
  format = elf32;
  sizeof_addr = 4;
  load_addr = load32;
  store_addr = store32;
  relocate_object_code = relocate_object_code_arm;
}
