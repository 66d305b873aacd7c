-- ===== src/Elf/Init.antt =====
-- `mkOc` and `ocInit` (Elf.c): the tables of an object, read from its image. `calloc` of symbols takes
-- the cells of the symbol store from `next` on.
use liblink.Base.{
  ℕ, zero, suc, ◌+◌, ◌*◌, ◌/◌, Bool, true, false, not, ◌||◌, List, [], ◌∷◌, ◌++◌, Option, none,
  some, ◌==◌, u32, if◌then◌else◌, Outcome, ok, ◌>>=◌, ◌>>◌, assert,
}
use liblink.Memory.{Memory}
use liblink.Types.{
  OStatus, object_needed, object_loaded, ElfShdr, ElfSym, ElfSymbol, ElfSymbolTable,
  ElfRelocationTable, ElfRelocationATable, ObjectCode, ObjectCodeFormatInfo, Section, SymbolStore,
  sectionkind_text, section_nomem,
}
use liblink.Hash.{hash}
use liblink.Linker.{write_symbol, empty_info}
use liblink.Elf.Format.{ElfFormat}

-- `n` structures of `size` bytes from `p` on.
unfoldable pub read_array {ℓ} : {A : Type ℓ} → (Memory → ℕ → A) → ℕ → Memory → ℕ → ℕ → List A
read_array read size m p zero = []
read_array read size m p (suc n) = read m p ∷ read_array read size m (p + size) n

-- The text at `p`, up to its terminating zero, which is among the first `limit` bytes.
unfoldable pub c_string : ℕ → Memory → ℕ → List ℕ
c_string zero m p = []
c_string (suc limit) m p = elim (m p == 0) [ true ↦ [] | false ↦ m p ∷ c_string limit m (p + 1) ]

-- `&sectionHeader[i]`, for the ELF header at `image`.
abbrev pub header_at : ElfFormat → Memory → ℕ → ℕ → ElfShdr
header_at f m image i = f.shdr m (image + (f.ehdr m image).e_shoff + i * f.sizeof_shdr)

-- SHN_UNDEF is 0; the result is an `ElfWord`.
unfoldable pub elf_shnum : ElfFormat → Memory → ℕ → Outcome ℕ
elf_shnum f m image =
    let shnum = (f.ehdr m image).e_shnum in
    let first = header_at f m image 0 in
    do
      assert (not (shnum == 0) || not (first.sh_size == 0))
      ok (if shnum == 0 then u32 first.sh_size else shnum)

unfoldable pub set_oc_initial_status : Option (List ℕ) → OStatus
set_oc_initial_status none = object_needed
set_oc_initial_status (some name) = object_loaded

abbrev pub no_info : ObjectCodeFormatInfo
no_info = record {
  section_headers = [];
  section_header_strtab = 0;
  symbol_tables = [];
  rel_table = [];
  rela_table = [];
  got_start = 0;
  got_size = 0;
}

unfoldable pub mk_oc :
    (path : List ℕ) → (image image_size : ℕ) → Bool → Option (List ℕ) → ℕ → ObjectCode
unfolding set_oc_initial_status
mk_oc path image image_size mapped member misalignment = record {
  status = set_oc_initial_status member;
  file_name = path;
  file_size = image_size;
  archive_member_name = member;
  symbols = [];
  n_symbols = 0;
  image = image;
  image_mapped = mapped;
  misalignment = misalignment;
  info = no_info;
  sections = [];
}

-- The lists of tables, and the allocated symbols.
pub record Tables : Type 0 where
  pub symbol_tables : List ElfSymbolTable
  pub rel_table : List ElfRelocationTable
  pub rela_table : List ElfRelocationATable
  pub symbols : SymbolStore
  pub next : ℕ

-- "(no name)"
abbrev pub no_name : List ℕ
no_name = 40 ∷ 110 ∷ 111 ∷ 32 ∷ 110 ∷ 97 ∷ 109 ∷ 101 ∷ 41 ∷ []

-- One symbol in a cell of zeros.
unfoldable pub init_symbol : ℕ → Memory → ℕ → ElfSym → ElfSymbol
init_symbol limit m names s =
    let name = c_string limit m (names + s.st_name) in
    record {
      name = if s.st_name == 0 then no_name else name;
      addr = 0;
      hash = if s.st_name == 0 then 0 else hash name;
      got_addr = 0;
      elf_sym = s;
    }

unfoldable pub init_symbols : ℕ → Memory → ℕ → List ElfSym → ℕ → SymbolStore → SymbolStore
unfolding init_symbol
init_symbols limit m names [] p syms = syms
init_symbols limit m names (s ∷ ss) p syms =
    init_symbols limit m names ss (p + 1) (write_symbol syms p (init_symbol limit m names s))

-- SHT_SYMTAB, SHT_RELA and SHT_REL.
abbrev pub sht_symtab : ℕ
sht_symtab = 2

abbrev pub sht_rela : ℕ
sht_rela = 4

abbrev pub sht_rel : ℕ
sht_rel = 9

module _ (f : ElfFormat) (limit : ℕ) (m : Memory) (image : ℕ) where
  -- The entries of the symbol table of a section.
  abbrev pub entries : ElfShdr → List ElfSym
  entries h = read_array f.sym f.sizeof_sym m (image + h.sh_offset) (h.sh_size / f.sizeof_sym)

  -- The body of the loop of `ocInit`.
  unfoldable pub init_table : ℕ → ElfShdr → Tables → Tables
  unfolding init_symbols read_array
  init_table i h ts =
      if h.sh_type == sht_rel
      then record ts {
        rel_table =
            ts.rel_table
            ++ record {
              index = i;
              target_section_index = h.sh_info;
              section_header = h;
              relocations =
                  read_array f.rel f.sizeof_rel m (image + h.sh_offset) (h.sh_size / f.sizeof_rel);
            }
              ∷ [];
      }
      else if h.sh_type == sht_rela
      then record ts {
        rela_table =
            ts.rela_table
            ++ record {
              index = i;
              target_section_index = h.sh_info;
              section_header = h;
              relocations =
                  read_array f.rela f.sizeof_rela m (image + h.sh_offset)
                    (h.sh_size / f.sizeof_rela);
            }
              ∷ [];
      }
      else if h.sh_type == sht_symtab
      then (let names = image + (header_at f m image h.sh_link).sh_offset in
          let n = h.sh_size / f.sizeof_sym in
          record ts {
            symbol_tables =
                ts.symbol_tables
                ++ record { index = i; symbols = ts.next; n_symbols = n; names = names } ∷ [];
            symbols = init_symbols limit m names (entries h) ts.next ts.symbols;
            next = ts.next + n;
          })
      else ts

  unfoldable pub init_tables : ℕ → List ElfShdr → Tables → Tables
  unfolding init_table
  init_tables i [] ts = ts
  init_tables i (h ∷ hs) ts = init_tables (i + 1) hs (init_table i h ts)

-- `calloc` of the sections; all are set up by `load_sections`.
unfoldable pub no_sections : ℕ → List Section
no_sections zero = []
no_sections (suc n) =
    record {
      start = 0;
      size = 0;
      kind = sectionkind_text;
      alloc = section_nomem;
      mapped_offset = 0;
      mapped_start = 0;
      mapped_size = 0;
      info = empty_info;
    }
    ∷ no_sections n

-- The object, the symbols, and the next free cell.
unfoldable pub oc_init :
    ElfFormat → ℕ → ObjectCode → Memory → SymbolStore → ℕ → Outcome (ObjectCode × SymbolStore × ℕ)
unfolding init_tables elf_shnum read_array no_sections
oc_init f limit oc m syms next = do
  n ← elf_shnum f m oc.image
  let base = oc.image + (f.ehdr m oc.image).e_shoff
  let headers = read_array f.shdr f.sizeof_shdr m base n
  let ts =
      init_tables f limit m oc.image 0 headers (record {
        symbol_tables = [];
        rel_table = [];
        rela_table = [];
        symbols = syms;
        next = next;
      })
  ok (
    record oc {
      info = record {
        section_headers = headers;
        section_header_strtab =
            oc.image + (header_at f m oc.image (f.ehdr m oc.image).e_shstrndx).sh_offset;
        symbol_tables = ts.symbol_tables;
        rel_table = ts.rel_table;
        rela_table = ts.rela_table;
        got_start = 0;
        got_size = 0;
      };
      sections = no_sections n;
    },
    ts.symbols,
    ts.next,
  )
