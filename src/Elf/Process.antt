-- ===== src/Elf/Process.antt =====
-- `processObject`, `loadObject`, `loadArchive` and `resolveObject` (Elf.c). A file is its bytes, or
-- nothing if `stat` fails. The image of an archive member comes from `calloc`, whose k-th call answers
-- `calloc k size`.
pub mod Success
use liblink.Base.{
  ℕ, suc, ◌+◌, ◌-◌, Bool, true, false, ◌&&◌, List, [], ◌∷◌, ◌++◌, Option, none, some, length,
  get_elem?, leb, ltb, if◌then◌else◌, Outcome, ok, fail, Fault, ◌>>=◌, ◌>>◌, assert, exit_failure,
}
use liblink.Memory.{Memory}
use liblink.Types.{ObjectCode, SymbolStore}
use liblink.Linker.{Linker}
use liblink.Got.{Filled, make_got, fill_got, verify_got}
use liblink.Elf.Platform.{Platform}
use liblink.Elf.Init.{mk_oc, oc_init, entries}
use liblink.Elf.Sections.{load_sections}
use liblink.Elf.Symbols.{get_names}
use liblink.Elf.Protect.{Call, mprotect_object_code}
use liblink.Ar.{Object}
use liblink.Debug.{get_oc_info}

-- All that the linker keeps: its tables, the symbols with the next free cell, the memory, and how
-- many mappings were made.
pub record World : Type 0 where
  pub linker : Linker
  pub symbols : SymbolStore
  pub next : ℕ
  pub memory : Memory
  pub calls : ℕ

-- The bytes `bs` at `p`.
unfoldable pub place_bytes : Memory → ℕ → List ℕ → Memory
place_bytes m p bs a =
    if leb p a && ltb a (p + length bs)
    then elim (get_elem? bs (a - p)) [ none ↦ m a | some b ↦ b ]
    else m a

-- `if(fst == NULL) fst = oc`.
unfoldable pub or_first : Option ObjectCode → ObjectCode → Option ObjectCode
or_first none oc = some oc
or_first (some fst) oc = some fst

-- What `resolveObject` leaves: the object, the symbols, the memory, the calls of `mprotect`, and the
-- returned `bool`.
pub record Resolved : Type 0 where
  pub object : ObjectCode
  pub symbols : SymbolStore
  pub memory : Memory
  pub protected : List Call
  pub status : Bool

-- `return EXIT_FAILURE` before the relocation.
abbrev pub stopped : ObjectCode → Filled → Resolved
stopped oc f = record {
  object = oc;
  symbols = f.symbols;
  memory = f.memory;
  protected = [];
  status = exit_failure;
}

module _ (plat : Platform) (limit : ℕ) (dlsym : List ℕ → ℕ) (mmap : ℕ → ℕ → Option ℕ) where
  -- The object is appended to the list of objects.
  unfoldable pub process_object : ObjectCode → World → Outcome (ObjectCode × World)
  process_object oc w = do
    (oc1, syms1, next) ← oc_init plat.format limit oc w.memory w.symbols w.next
    (oc2, m, calls, sections_failed) ← load_sections plat.target mmap oc1 w.memory w.calls
    if sections_failed then fail Fault.aborted else (do
      (l, oc3, syms3, names_failed) ← get_names dlsym plat.target.addr_bits w.linker oc2 syms1
      if names_failed
          then fail Fault.aborted
          else (let (oc4, syms4, got_failed) =
                make_got (entries plat.format limit m oc.image) (mmap calls) plat.sizeof_addr oc3
                  syms3 in
              if got_failed
              then fail Fault.aborted
              else ok (
                oc4,
                record {
                  linker = record l { objects = l.objects ++ oc4 ∷ [] };
                  symbols = syms4;
                  next = next;
                  memory = m;
                  calls = suc calls;
                },
              )))

  unfoldable pub load_object : List ℕ → Option (List ℕ) → World → Outcome (ObjectCode × World)
  unfolding process_object place_bytes
  load_object path file w = elim file [
    | none ↦ fail Fault.aborted
    | some bytes ↦ assert (ltb 0 (length bytes)) >> elim (mmap w.calls (length bytes)) [
      | none ↦ fail Fault.aborted
      | some image ↦
          process_object (mk_oc path image (length bytes) true none 0)
            (record w { memory = place_bytes w.memory image bytes; calls = suc w.calls })
    ]
  ]

  -- The loop of `loadArchive`; the first object is passed on.
  unfoldable pub load_members :
      (ℕ → ℕ → ℕ)
      → List ℕ
      → List Object
      → Option ObjectCode
      → World
      → Outcome (Option ObjectCode × World)
  unfolding process_object place_bytes or_first
  load_members calloc path [] fst w = ok (fst, w)
  load_members calloc path (o ∷ os) fst w = do
    let image = calloc w.calls o.size
    (oc, w') ←
        process_object (mk_oc path image o.size false (some o.name) 0)
          (record w { memory = place_bytes w.memory image o.image; calls = suc w.calls })
    load_members calloc path os (or_first fst oc) w'

  unfoldable pub load_archive :
      (ℕ → ℕ → ℕ) → List ℕ → Outcome (List Object) → World → Outcome (Option ObjectCode × World)
  unfolding load_members
  load_archive calloc path archive w = do objs ← archive; load_members calloc path objs none w

  -- The last two steps of `resolveObject`.
  unfoldable pub relocate_and_protect :
      (Call → ℕ) → ObjectCode → SymbolStore → Memory → Outcome Resolved
  relocate_and_protect mprotect oc syms m = do
    (oc', m', unrelocated) ← plat.relocate_object_code syms oc m
    let (calls, failed) = mprotect_object_code mprotect oc'
    ok (
        if unrelocated
        then record {
          object = oc';
          symbols = syms;
          memory = m';
          protected = [];
          status = exit_failure;
        }
        else record {
          object = oc';
          symbols = syms;
          memory = m';
          protected = calls;
          status = failed;
        })

  -- The text of `get_oc_info` and its end are printed into a buffer of 256 bytes.
  unfoldable pub resolve_object :
      (Call → ℕ) → Linker → ObjectCode → SymbolStore → Memory → Outcome Resolved
  unfolding relocate_and_protect
  resolve_object mprotect l oc syms m =
      let f = fill_got dlsym plat.store_addr l oc syms m in
      if leb 256 (length (get_oc_info oc))
      then fail Fault.undefined
      else if f.status
      then ok (stopped oc f)
      else (do
        unverified ← verify_got plat.load_addr oc f.symbols f.memory
        if unverified
            then ok (stopped oc f)
            else relocate_and_protect mprotect oc f.symbols f.memory)
