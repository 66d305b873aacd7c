-- ===== src/Ar/Header.antt =====
-- A round of the loop of `read_archive` at a header that is given by its fields.
use liblink.Base.{
  ℕ, ◌+◌, ◌≡◌, refl, sym, ap, ◌∙◌, false, List, [], ◌∷◌, ◌++◌, length, take, drop, take_at, drop_at,
  drop-drop, length-append, arith,
}
use liblink.Ar.Stdio.{fread}
use liblink.Ar.{State, end_at_blank, strtol, read_member, read_fields, read_step}

-- The header without its magic, field by field; `middle` are the four fields that are not read.
pub record Fields : Type 0 where
  pub name : List ℕ
  pub middle : List ℕ
  pub size : List ℕ

pub record IsHeader (f : Fields) : Type 0 where
  pub name_16 : length f.name ≡ 16
  pub middle_32 : length f.middle ≡ 32
  pub size_10 : length f.size ≡ 10

abbrev pub member_magic : List ℕ
member_magic = 0x60 ∷ 0x0a ∷ []

unfoldable pub header : Fields → List ℕ
header f = f.name ++ (f.middle ++ (f.size ++ member_magic))

pub length-header : (f : Fields) → IsHeader f → length (header f) ≡ 60
unfolding header
length-header f is = omega (
  arith,
  length-append f.name (f.middle ++ (f.size ++ member_magic)),
  length-append f.middle (f.size ++ member_magic),
  length-append f.size member_magic,
  is.name_16,
  is.middle_32,
  is.size_10,
)

module _ (f : Fields) (is : IsHeader f) where
  pub header_name : take 16 (header f) ≡ f.name
  unfolding header
  header_name = take_at 16 f.name (f.middle ++ (f.size ++ member_magic)) is.name_16

  pub header_rest : drop 16 (header f) ≡ f.middle ++ (f.size ++ member_magic)
  unfolding header
  header_rest = drop_at 16 f.name (f.middle ++ (f.size ++ member_magic)) is.name_16

  header_behind_middle : drop 48 (header f) ≡ f.size ++ member_magic
  header_behind_middle =
      drop-drop 16 32 48 (header f) (omega arith)
      ∙ ap (drop 32) header_rest
      ∙ drop_at 32 f.middle (f.size ++ member_magic) is.middle_32

  pub header_size : take 10 (drop 48 (header f)) ≡ f.size
  header_size = ap (take 10) header_behind_middle ∙ take_at 10 f.size member_magic is.size_10

  pub header_magic : drop 58 (header f) ≡ member_magic
  header_magic =
      drop-drop 48 10 58 (header f) (omega arith)
      ∙ ap (drop 10) header_behind_middle
      ∙ drop_at 10 f.size member_magic is.size_10

  pub read_member-header :
      (bits : ℕ) (st : State)
      → read_member bits (header f) st
        ≡ read_fields bits
            (end_at_blank f.name)
            (f.middle ++ (f.size ++ member_magic))
            (strtol bits (end_at_blank f.size ++ member_magic))
            member_magic
            st
  unfolding read_member
  read_member-header bits st = rw (header_name, header_rest, header_size, header_magic) refl

-- Reading the header, which stands at the position of the file.
pub read_step-header :
    (bits : ℕ) (f : Fields) (st : State) (before after : List ℕ)
    → IsHeader f
    → st.file.contents ≡ before ++ (header f ++ after)
    → st.file.pos ≡ length before
    → st.file.at_end ≡ false
    → read_step bits st
      ≡ read_member bits (header f) (record st { file = record st.file { pos = st.file.pos + 60 } })
unfolding read_step fread
read_step-header bits f st before after is shape at going =
    let sixty = length-header f is in
    let bytes : take 60 (drop st.file.pos st.file.contents) ≡ header f =
      ap (λ (c : List ℕ). take 60 (drop st.file.pos c)) shape
      ∙ ap (take 60) (drop_at st.file.pos before (header f ++ after) (sym at))
      ∙ take_at 60 (header f) after sixty in
    rw (bytes, sixty, going) refl
