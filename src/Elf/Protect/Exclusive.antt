-- ===== src/Elf/Protect/Exclusive.antt =====
-- The flags and the calls of `mprotect_object_code` (Elf.c).
use liblink.Base.{
  ℕ, ◌+◌, ◌/◌, ◌%◌, ◌≡◌, ◌⊎◌, refl, inl, inr, Bool-cases, List, [], ◌∷◌, ◌++◌, arith, ◌==◌,
  if◌then◌else◌, exit_success, exit_failure,
}
use liblink.Types.{
  ObjectCode, Section, SectionKind, sectionkind_text, sectionkind_rwdata, sectionkind_zerofill,
}
use liblink.Elf.Protect.{Call, flags_of, is_mmap, mprotect_loaded_sections, mprotect_object_code}

-- The flags lack PROT_WRITE or PROT_EXEC.
abbrev pub IsExclusive : Call → Type 0
IsExclusive c = (c.flags / 2 % 2 ≡ 0) ⊎ (c.flags / 4 % 2 ≡ 0)

abbrev pub AllExclusive : List Call → Type 0
AllExclusive [] = Unit {0}
AllExclusive (c ∷ cs) = IsExclusive c × AllExclusive cs

flags_of_exclusive : (k : SectionKind) → (flags_of k / 2 % 2 ≡ 0) ⊎ (flags_of k / 4 % 2 ≡ 0)
unfolding flags_of
flags_of_exclusive sectionkind_zerofill = inr refl
flags_of_exclusive sectionkind_rwdata = inr refl
flags_of_exclusive sectionkind_text = inl refl
flags_of_exclusive _ = inl refl

-- The calls that protect the mapped sections.
section_calls : List Section → List Call
section_calls [] = []
section_calls (s ∷ ss) =
    if is_mmap s.alloc
    then record { start = s.mapped_start; size = s.mapped_size; flags = flags_of s.kind }
      ∷ section_calls ss
    else section_calls ss

-- All calls for an object.
pub object_calls : ObjectCode → List Call
unfolding section_calls
object_calls oc =
    if oc.info.got_start == 0
    then section_calls oc.sections
    else section_calls oc.sections
      ++ record { start = oc.info.got_start; size = oc.info.got_size; flags = 1 + 4 } ∷ []

append-AllExclusive :
    (xs ys : List Call) → AllExclusive xs → AllExclusive ys → AllExclusive (xs ++ ys)
append-AllExclusive [] ys hx hy = hy
append-AllExclusive (x ∷ xs) ys hx hy = (hx.0, append-AllExclusive xs ys hx.1 hy)

module _ (mprotect : Call → ℕ) where
  sections-AllExclusive :
      (ss : List Section) → AllExclusive (mprotect_loaded_sections mprotect ss).0
  unfolding mprotect_loaded_sections
  sections-AllExclusive [] = tt
  sections-AllExclusive (s ∷ ss) =
      let rest = sections-AllExclusive ss in
      let here = flags_of_exclusive s.kind in
      elim (Bool-cases (is_mmap s.alloc)) [
        | inr skipped ↦ rw (skipped, mprotect_loaded_sections) rest
        | inl mapped ↦
            elim (Bool-cases (
              mprotect
                (record { start = s.mapped_start; size = s.mapped_size; flags = flags_of s.kind })
              == 0)) [
                | inl fine ↦ rw (mapped, fine, mprotect_loaded_sections) (here, rest)
                | inr failed ↦ rw (mapped, failed, mprotect_loaded_sections) (here, tt)
              ]
      ]

  sections_complete :
      (ss : List Section)
      → (mprotect_loaded_sections mprotect ss).1 ≡ exit_success
      → (mprotect_loaded_sections mprotect ss).0 ≡ section_calls ss
  unfolding mprotect_loaded_sections section_calls
  sections_complete [] e = refl
  sections_complete (s ∷ ss) e = ground (arith, sections_complete ss)

  object_complete :
      (oc : ObjectCode)
      → (mprotect_object_code mprotect oc).1 ≡ exit_success
      → (mprotect_object_code mprotect oc).0 ≡ object_calls oc
  unfolding mprotect_object_code object_calls
  object_complete oc e = ground (arith, sections_complete oc.sections)

  object-AllExclusive : (oc : ObjectCode) → AllExclusive (mprotect_object_code mprotect oc).0
  unfolding mprotect_object_code
  object-AllExclusive oc =
      let all = sections-AllExclusive oc.sections in
      elim (Bool-cases (mprotect_loaded_sections mprotect oc.sections).1) [
        | inl failed ↦ rw failed all
        | inr fine ↦ elim (Bool-cases (oc.info.got_start == 0)) [
          | inl no_got ↦ rw (fine, no_got) all
          | inr got ↦ rw (fine, got) (append-AllExclusive _ _ all (inl refl, tt))
        ]
      ]

  -- Whatever `mprotect` answers, no call of `mprotect_object_code` asks for memory that is both
  -- writable and executable. It returns `EXIT_FAILURE`, or it has made a call for each mapped section,
  -- with the flags of its kind, and one for the global offset table, if there is one.
  pub mprotect_object_code-AllExclusive :
      (oc : ObjectCode)
      → AllExclusive (mprotect_object_code mprotect oc).0
        × (((mprotect_object_code mprotect oc).1 ≡ exit_failure)
            ⊎ ((mprotect_object_code mprotect oc).0 ≡ object_calls oc))
  mprotect_object_code-AllExclusive oc = (
    object-AllExclusive oc,
    elim (Bool-cases (mprotect_object_code mprotect oc).1) [
      | inl failed ↦ inl failed
      | inr fine ↦ inr (object_complete oc fine)
    ],
  )
