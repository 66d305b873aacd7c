-- ===== src/Elf/Format.antt =====
-- The structures of <elf.h>, read from memory: the layouts of both classes (elf/target.h chooses one).
use liblink.Base.{ℕ, ◌+◌}
use liblink.Memory.{Memory, load16, load32, load64}
use liblink.Types.{ElfShdr, ElfSym, ElfRel, ElfRela}

pub record ElfEhdr : Type 0 where
  pub e_shoff : ℕ
  pub e_shnum : ℕ
  pub e_shstrndx : ℕ

pub record ElfFormat : Type 0 where
  pub ehdr : Memory → ℕ → ElfEhdr
  pub shdr : Memory → ℕ → ElfShdr
  pub sym : Memory → ℕ → ElfSym
  pub rel : Memory → ℕ → ElfRel
  pub rela : Memory → ℕ → ElfRela
  pub sizeof_shdr : ℕ
  pub sizeof_sym : ℕ
  pub sizeof_rel : ℕ
  pub sizeof_rela : ℕ

abbrev pub rel64 : Memory → ℕ → ElfRel
rel64 m p = record { r_offset = load64 m p; r_info = load64 m (p + 8) }

abbrev pub elf64 : ElfFormat
elf64 = record {
  ehdr = λ m p. record {
    e_shoff = load64 m (p + 40);
    e_shnum = load16 m (p + 60);
    e_shstrndx = load16 m (p + 62);
  };
  shdr = λ m p. record {
    sh_name = load32 m p;
    sh_type = load32 m (p + 4);
    sh_flags = load64 m (p + 8);
    sh_offset = load64 m (p + 24);
    sh_size = load64 m (p + 32);
    sh_link = load32 m (p + 40);
    sh_info = load32 m (p + 44);
  };
  sym = λ m p. record {
    st_name = load32 m p;
    st_info = m (p + 4);
    st_shndx = load16 m (p + 6);
    st_value = load64 m (p + 8);
    st_size = load64 m (p + 16);
  };
  rel = rel64;
  rela = λ m p. record { rel = rel64 m p; r_addend = load64 m (p + 16) };
  sizeof_shdr = 64;
  sizeof_sym = 24;
  sizeof_rel = 16;
  sizeof_rela = 24;
}

abbrev pub rel32 : Memory → ℕ → ElfRel
rel32 m p = record { r_offset = load32 m p; r_info = load32 m (p + 4) }

abbrev pub elf32 : ElfFormat
elf32 = record {
  ehdr = λ m p. record {
    e_shoff = load32 m (p + 32);
    e_shnum = load16 m (p + 48);
    e_shstrndx = load16 m (p + 50);
  };
  shdr = λ m p. record {
    sh_name = load32 m p;
    sh_type = load32 m (p + 4);
    sh_flags = load32 m (p + 8);
    sh_offset = load32 m (p + 16);
    sh_size = load32 m (p + 20);
    sh_link = load32 m (p + 24);
    sh_info = load32 m (p + 28);
  };
  sym = λ m p. record {
    st_name = load32 m p;
    st_info = m (p + 12);
    st_shndx = load16 m (p + 14);
    st_value = load32 m (p + 4);
    st_size = load32 m (p + 8);
  };
  rel = rel32;
  rela = λ m p. record { rel = rel32 m p; r_addend = load32 m (p + 8) };
  sizeof_shdr = 40;
  sizeof_sym = 16;
  sizeof_rel = 8;
  sizeof_rela = 12;
}
