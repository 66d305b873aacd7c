-- ===== src/Tests/Loading.antt =====
-- An object with a section of code and one of data.
use liblink.Base.{
  true, ℕ, ◌+◌, ◌*◌, ◌≡◌, refl, Bool, [], ◌∷◌, Option, some, arith, ok, length, exit_failure, ◌⊎◌,
  inl,
}
use liblink.Memory.{Memory}
use liblink.Types.{ElfShdr, ObjectCode, sectionkind_text}
use liblink.Linker.{no_header}
use liblink.Plt.Arm64.{arm64}
use liblink.Plt.Trampoline.{arm64_trampoline}
use liblink.Plt.Chain.Place.{IsChain}
use liblink.Elf.Sections.Contents.{stub_space, Holds, load_bytes_lem}
use liblink.Elf.Init.{mk_oc}
use liblink.Elf.Sections.{load_sections, section_kind, load_kind, load_bytes, Loaded}
use liblink.Elf.Sections.Refused.{NoWritableCode, load_sections_refuses}
use liblink.Elf.Protect.{Call, mprotect_object_code}
use liblink.Elf.Protect.Exclusive.{AllExclusive, object_calls, mprotect_object_code-AllExclusive}
use liblink.Plt.{number_of_stubs_for_section}
use liblink.Tests.Data.{zeros, has_result, result_of}

abbrev code_header : ElfShdr
code_header = record no_header { sh_type = 1; sh_flags = 6; sh_offset = 64; sh_size = 8 }

abbrev data_header : ElfShdr
data_header = record no_header { sh_type = 1; sh_flags = 3; sh_offset = 72; sh_size = 4 }

abbrev no_object : ObjectCode
no_object = mk_oc [] 0x5000 100 true Option.none 0

abbrev object : ObjectCode
object = record no_object {
  info = record no_object.info { section_headers = code_header ∷ data_header ∷ [] };
}

-- The k-th mapping starts at page k + 1.
abbrev pages : ℕ → ℕ → Option ℕ
pages k size = some (0x100000 * (k + 1))

loaded : (r : ObjectCode × Memory × ℕ × Bool) × (load_sections arm64 pages object zeros 0 ≡ ok r)
unfolding has_result load_sections section_kind load_kind load_bytes number_of_stubs_for_section
    mk_oc
loaded = result_of (load_sections arm64 pages object zeros 0) refl

load_sections_refuses_example :
    NoWritableCode (code_header ∷ data_header ∷ []) × (length loaded.0.0.sections ≡ 2)
load_sections_refuses_example = load_sections_refuses arm64 pages object zeros 0 loaded.0 loaded.1

abbrev protects : Call → ℕ
protects c = 0

mprotect_object_code-AllExclusive_example :
    AllExclusive (mprotect_object_code protects loaded.0.0).0
    × (((mprotect_object_code protects loaded.0.0).1 ≡ exit_failure)
        ⊎ ((mprotect_object_code protects loaded.0.0).0 ≡ object_calls loaded.0.0))
mprotect_object_code-AllExclusive_example = mprotect_object_code-AllExclusive protects loaded.0.0

-- The memory of the section of code: 8 bytes of the image, at the page of the first mapping.
load_bytes_lem_example :
    (r : Loaded) × (load_bytes arm64 pages object 0 sectionkind_text code_header zeros 0 ≡ ok r)
    × (r.section.start ≡ 0x100000)
    × (r.section.info.stub_offset ≡ 0x100008)
    × (r.section.info.stub_size ≡ stub_space arm64 object 0)
    × (r.section.info.stubs ≡ [])
    × IsChain arm64 arm64_trampoline r.memory r.section.info
    × Holds zeros r.memory 0x100000 (8 + stub_space arm64 object 0) (0x5000 + 64) 8
unfolding number_of_stubs_for_section mk_oc
load_bytes_lem_example =
    load_bytes_lem arm64 arm64_trampoline pages object 0 sectionkind_text code_header zeros 0
      0x100000 (λ e. absurd (omega (arith, e))) (omega arith) (inl refl) refl (omega arith)
      (inl (omega arith))
