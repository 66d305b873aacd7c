-- ===== src/Types.antt =====
-- Types.h, and the structures of <elf.h> as far as the code reads them. A `next` chain is a list,
-- an array with its length is a list, an address or a pointer into an image is a number.
use liblink.Base.{ℕ, Bool, List, Option}

pub data OStatus : Type 0 where
  object_loaded object_needed object_resolved object_unloaded object_dont_resolve : OStatus

pub data SectionKind : Type 0 where
  sectionkind_text : SectionKind
  sectionkind_rwdata : SectionKind
  sectionkind_rodata : SectionKind
  sectionkind_zerofill : SectionKind
  sectionkind_init_array : SectionKind
  sectionkind_other : SectionKind
  sectionkind_noinfoavail : SectionKind

pub data SectionAlloc : Type 0 where
  section_nomem section_m32 section_mmap section_malloc : SectionAlloc

-- The structures of <elf.h>, less the fields that no code reads.
pub record ElfSym : Type 0 where
  pub st_name : ℕ
  pub st_info : ℕ
  pub st_shndx : ℕ
  pub st_value : ℕ
  pub st_size : ℕ

pub record ElfShdr : Type 0 where
  pub sh_name : ℕ
  pub sh_type : ℕ
  pub sh_flags : ℕ
  pub sh_offset : ℕ
  pub sh_size : ℕ
  pub sh_link : ℕ
  pub sh_info : ℕ

pub record ElfRel : Type 0 where
  pub r_offset : ℕ
  pub r_info : ℕ

-- `(ElfRel*)rela` reads the first two fields.
pub record ElfRela : Type 0 where
  pub rel : ElfRel
  pub r_addend : ℕ

-- `name` is the text that `name` points at, less its terminating zero.
pub record ElfSymbol : Type 0 where
  pub name : List ℕ
  pub addr : ℕ
  pub hash : ℕ
  pub got_addr : ℕ
  pub elf_sym : ElfSym

-- `symbols` points at `n_symbols` cells of the symbol store (`SymbolStore`).
pub record ElfSymbolTable : Type 0 where
  pub index : ℕ
  pub symbols : ℕ
  pub n_symbols : ℕ
  pub names : ℕ

-- The `ElfSymbol` that a pointer leads to; `&symbols[i]` is `symbols + i`. The global table and the
-- objects share symbols through such pointers.
abbrev pub SymbolStore : Type 0
SymbolStore = ℕ → ElfSymbol

pub record ElfRelocationTable : Type 0 where
  pub index : ℕ
  pub target_section_index : ℕ
  pub section_header : ElfShdr
  pub relocations : List ElfRel

pub record ElfRelocationATable : Type 0 where
  pub index : ℕ
  pub target_section_index : ℕ
  pub section_header : ElfShdr
  pub relocations : List ElfRela

pub record Stub : Type 0 where
  pub addr : ℕ
  pub target : ℕ

pub record SectionFormatInfo : Type 0 where
  pub stub_offset : ℕ
  pub stub_size : ℕ
  pub nstubs : ℕ
  pub stubs : List Stub
  pub name : ℕ
  pub section_header : ElfShdr

pub record Section : Type 0 where
  pub start : ℕ
  pub size : ℕ
  pub kind : SectionKind
  pub alloc : SectionAlloc
  pub mapped_offset : ℕ
  pub mapped_start : ℕ
  pub mapped_size : ℕ
  pub info : SectionFormatInfo

pub record ObjectCodeFormatInfo : Type 0 where
  pub section_headers : List ElfShdr
  pub section_header_strtab : ℕ
  pub symbol_tables : List ElfSymbolTable
  pub rel_table : List ElfRelocationTable
  pub rela_table : List ElfRelocationATable
  pub got_start : ℕ
  pub got_size : ℕ

pub record ObjectCode : Type 0 where
  pub status : OStatus
  pub file_name : List ℕ
  pub file_size : ℕ
  pub archive_member_name : Option (List ℕ)
  pub symbols : List (List ℕ)
  pub n_symbols : ℕ
  pub image : ℕ
  pub image_mapped : Bool
  pub misalignment : ℕ
  pub info : ObjectCodeFormatInfo
  pub sections : List Section
