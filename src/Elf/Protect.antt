-- ===== src/Elf/Protect.antt =====
-- `mprotect_object_code` (Elf.c). `mprotect` answers 0 if it succeeds; its calls are recorded.
pub mod Exclusive
use liblink.Base.{
  ℕ, ◌+◌, Bool, true, false, not, List, [], ◌∷◌, ◌++◌, ◌==◌, if◌then◌else◌, exit_success,
  exit_failure,
}
use liblink.Types.{
  ObjectCode, Section, SectionKind, SectionAlloc, sectionkind_text, sectionkind_rwdata,
  sectionkind_zerofill, section_mmap,
}

pub record Call : Type 0 where
  pub start : ℕ
  pub size : ℕ
  pub flags : ℕ

-- PROT_READ, PROT_WRITE and PROT_EXEC are 1, 2 and 4.
unfoldable pub flags_of : SectionKind → ℕ
flags_of sectionkind_zerofill = 1 + 2
flags_of sectionkind_rwdata = 1 + 2
flags_of sectionkind_text = 1 + 4
flags_of _ = 1

unfoldable pub is_mmap : SectionAlloc → Bool
is_mmap section_mmap = true
is_mmap _ = false

module _ (mprotect : Call → ℕ) where
  -- The calls, and the returned `bool`.
  unfoldable pub mprotect_loaded_sections : List Section → List Call × Bool
  unfolding flags_of is_mmap
  mprotect_loaded_sections [] = ([], exit_success)
  mprotect_loaded_sections (s ∷ ss) =
      let call : Call = record {
        start = s.mapped_start;
        size = s.mapped_size;
        flags = flags_of s.kind;
      } in
      let (calls, status) = mprotect_loaded_sections ss in
      if is_mmap s.alloc
      then (if mprotect call == 0 then (call ∷ calls, status) else (call ∷ [], exit_failure))
      else (calls, status)

  unfoldable pub mprotect_object_code : ObjectCode → List Call × Bool
  unfolding mprotect_loaded_sections
  mprotect_object_code oc =
      let (calls, failed) = mprotect_loaded_sections oc.sections in
      let got : Call = record {
        start = oc.info.got_start;
        size = oc.info.got_size;
        flags = 1 + 4;
      } in
      if failed
      then (calls, exit_failure)
      else (if oc.info.got_start == 0
          then (calls, exit_success)
          else (calls ++ got ∷ [], not (mprotect got == 0)))
