-- ===== src/Ar/RoundTrip.antt =====
-- Archives with short names, as they are written and as `read_archive` (Ar.c) reads them.
use liblink.Base.{
  ℕ, zero, suc, ◌+◌, ◌-◌, ◌^◌, ◌%◌, ◌≤◌, ◌<◌, ◌≡◌, refl, sym, ap, ◌∙◌, true, false, List, [], ◌∷◌,
  ◌++◌, if◌then◌else◌, ◌==◌, none, some, length, length-append, take, drop, take_at, drop_at, ltb,
  ==_refl, arith, ok,
}
use mathlib.Core.List.{append_assoc, append-nil}
use native.Mathlib.Nat.{mod-eq_of_lt, add-zero}
use liblink.Ar.Stdio.{File, fread}
use liblink.Ar.{
  Object, State, arch_magic, end_at_blank, text_of, leading_number, strtol, starts, member_name,
  drop_slash, is_object_name, read_object, read_named, read_fields, read_step, read_loop,
  read_archive,
}
use liblink.Ar.Header.{
  Fields, IsHeader, member_magic, header, length-header, read_member-header, read_step-header,
}
use liblink.Ar.Names.{
  blanks, AllPlain, AllDigits, object_name, slashed, text_of_field, not_symbol_table,
  not_name_table, not_gnu, not_bsd, drop_slash-slashed, is_object_name-object_name, strtol_size,
}

-- A member "<stem>.o": its name ends in a slash, and its size is written in decimal; both fields are
-- filled up with blanks. `middle` are the four fields that are not read.
pub record Member : Type 0 where
  pub stem : List ℕ
  pub name_blanks : ℕ
  pub middle : List ℕ
  pub digits : List ℕ
  pub size_blanks : ℕ
  pub image : List ℕ

abbrev pub fields : Member → Fields
fields m = record {
  name = slashed m.stem ++ blanks m.name_blanks;
  middle = m.middle;
  size = m.digits ++ blanks m.size_blanks;
}

pub record IsMember (bits : ℕ) (m : Member) : Type 0 where
  pub plain : AllPlain m.stem
  pub framed : IsHeader (fields m)
  pub decimal : AllDigits m.digits
  pub size : leading_number m.digits 0 ≡ length m.image
  pub long : length m.image < 2 ^ (bits - 1)
  pub unsigned : length m.image < 2 ^ 32

-- No member has an odd size.
abbrev pub AllMembers : ℕ → List Member → Type 0
AllMembers bits [] = Unit {0}
AllMembers bits (m ∷ ms) = IsMember bits m × (length m.image % 2 ≡ 0) × AllMembers bits ms

-- The format of archives has a line feed behind a member of odd size.
abbrev pub padding : List ℕ → List ℕ
padding image = if length image % 2 == 0 then [] else 0x0a ∷ []

-- The members as they stand in the file, and as they are read.
abbrev pub written : List Member → List ℕ
written [] = []
written (m ∷ ms) = header (fields m) ++ (m.image ++ (padding m.image ++ written ms))

abbrev pub object_of : Member → Object
object_of m = record { name = object_name m.stem; image = m.image; size = length m.image }

abbrev pub objects_of : List Member → List Object
objects_of [] = []
objects_of (m ∷ ms) = object_of m ∷ objects_of ms

short_stem :
    (m : Member) → length (slashed m.stem ++ blanks m.name_blanks) ≡ 16 → length m.stem ≤ 13
short_stem m e = omega (
  arith,
  e,
  length-append (slashed m.stem) (blanks m.name_blanks),
  length-append m.stem (b'.' ∷ b'o' ∷ b'/' ∷ []),
)

pub read_fields-plain :
    (bits : ℕ) (name rest : List ℕ) (size : ℕ) (st : State)
    → starts (b'/' ∷ 0 ∷ []) name ≡ false
    → starts (b'/' ∷ b'/' ∷ 0 ∷ []) name ≡ false
    → starts (b'/' ∷ []) name ≡ false
    → starts (b'#' ∷ b'1' ∷ b'/' ∷ []) name ≡ false
    → read_fields bits name rest size member_magic st
      ≡ read_named bits (record { text = text_of name; member_size = size; file = st.file }) st
unfolding read_fields member_name
read_fields-plain bits name rest size st table names gnu bsd = rw (table, names, gnu, bsd) refl

read_named-object :
    (bits size : ℕ) (text name : List ℕ) (file : File) (st : State)
    → drop_slash text ≡ ok name
    → is_object_name name ≡ ok true
    → read_named bits (record { text = text; member_size = size; file = file }) st
      ≡ read_object name size file st
unfolding read_named
read_named-object bits size text name file st trimmed object = rw (trimmed, object) refl

read_object-image :
    (name image before after : List ℕ) (file : File) (st : State)
    → file.contents ≡ before ++ (image ++ after)
    → file.pos ≡ length before
    → file.at_end ≡ false
    → length image < 2 ^ 32
    → read_object name (length image) file st
      ≡ ok (record st {
        file = record { contents = file.contents; pos = file.pos + length image; at_end = false };
        objects = st.objects ++ record { name = name; image = image; size = length image } ∷ [];
      })
unfolding read_object fread
read_object-image name image before after file st shape at going small =
    let bytes : take (length image) (drop file.pos file.contents) ≡ image =
      ap (λ (c : List ℕ). take (length image) (drop file.pos c)) shape
      ∙ ap (take (length image)) (drop_at file.pos before (image ++ after) (sym at))
      ∙ take_at (length image) image after refl in
    let fits : length image % 2 ^ 32 ≡ length image = mod-eq_of_lt small in
    let same = ==_refl (length image) in
    let whole : ltb (length image) (length image) ≡ false = ground arith in
    rw (bytes, fits, going, same, whole) refl

-- What a round does with a member.
unfoldable pub after_member : Member → State → State
after_member m st = record st {
  file = record {
    contents = st.file.contents;
    pos = st.file.pos + 60 + length m.image;
    at_end = false;
  };
  objects = st.objects ++ object_of m ∷ [];
}

module _ (bits : ℕ) (m : Member) (is : IsMember bits m) where
  pub read_step-member :
      (st : State) (before after : List ℕ)
      → st.file.contents ≡ before ++ (header (fields m) ++ (m.image ++ after))
      → st.file.pos ≡ length before
      → st.file.at_end ≡ false
      → read_step bits st ≡ ok (after_member m st)
  unfolding after_member
  read_step-member st before after shape at going =
      let f = fields m in
      let name = end_at_blank f.name in
      let rest = f.middle ++ (f.size ++ member_magic) in
      let file : File = record {
        contents = st.file.contents;
        pos = st.file.pos + 60;
        at_end = false;
      } in
      let st1 : State = record st { file = record st.file { pos = st.file.pos + 60 } } in
      let size : strtol bits (end_at_blank f.size ++ member_magic) ≡ length m.image =
        strtol_size bits m.digits m.size_blanks is.decimal (omega (arith, is.size, is.long))
        ∙ is.size in
      let behind : st.file.contents ≡ (before ++ header f) ++ (m.image ++ after) =
        shape ∙ sym (append_assoc before (header f) (m.image ++ after)) in
      let there : st.file.pos + 60 ≡ length (before ++ header f) =
        omega (arith, at, length-append before (header f), length-header f is.framed) in
      read_step-header bits f st before (m.image ++ after) is.framed shape at going
      ∙ read_member-header f is.framed bits st1
      ∙ ap (λ n. read_fields bits name rest n member_magic st1) size
      ∙ read_fields-plain bits name rest (length m.image) st1
          (not_symbol_table m.name_blanks m.stem is.plain)
          (not_name_table m.name_blanks m.stem is.plain) (not_gnu m.name_blanks m.stem is.plain)
          (not_bsd m.name_blanks m.stem is.plain)
      ∙ read_named-object bits (length m.image) (text_of name) (object_name m.stem) st1.file st1
          (ap drop_slash (text_of_field m.stem m.name_blanks is.plain) ∙ drop_slash-slashed m.stem)
          (is_object_name-object_name m.stem (short_stem m is.framed.name_16))
      ∙ read_object-image (object_name m.stem) m.image (before ++ header f) after st1.file st1
          behind there going is.unsigned

-- At the end of the file a round meets it, and does nothing else.
read_step-end :
    (bits : ℕ) (st : State) (before : List ℕ)
    → st.file.contents ≡ before
    → st.file.pos ≡ length before
    → st.file.at_end ≡ false
    → read_step bits st ≡ ok (record st { file = record st.file { at_end = true } })
unfolding read_step fread
read_step-end bits st before shape at going =
    let bytes : take 60 (drop st.file.pos st.file.contents) ≡ [] =
      ap (λ (c : List ℕ). take 60 (drop st.file.pos c)) (shape ∙ sym (append-nil before))
      ∙ ap (take 60) (drop_at st.file.pos before [] (sym at)) in
    rw (bytes, add-zero, going) refl

pub regroup :
    (before h image rest : List ℕ)
    → before ++ (h ++ (image ++ rest)) ≡ (before ++ (h ++ image)) ++ rest
regroup before h image rest =
    sym (append_assoc before (h ++ image) rest ∙ ap (λ l. before ++ l) (append_assoc h image rest))

read_loop-written :
    (bits fuel : ℕ) (ms : List Member) (st : State) (before : List ℕ)
    → AllMembers bits ms
    → st.file.contents ≡ before ++ written ms
    → st.file.pos ≡ length before
    → st.file.at_end ≡ false
    → length ms + 2 ≤ fuel
    → read_loop bits fuel st ≡ some (ok (st.objects ++ objects_of ms))
unfolding read_loop
read_loop-written bits zero ms st before all shape at going enough = absurd (omega arith)
read_loop-written bits (suc zero) ms st before all shape at going enough = absurd (omega arith)
read_loop-written bits (suc (suc fuel)) [] st before all shape at going enough =
    rw (going, read_step-end bits st before (shape ∙ append-nil before) at going, read_loop)
      (ap (λ l. some (ok l)) (sym (append-nil st.objects)))
read_loop-written bits (suc fuel) (m ∷ ms) st before all shape at going enough =
    let st' = after_member m st in
    let passed = before ++ (header (fields m) ++ m.image) in
    let unpadded : padding m.image ≡ [] = rw all.1 refl in
    let shape' : st.file.contents ≡ before ++ (header (fields m) ++ (m.image ++ written ms)) =
      shape ∙ ap (λ l. before ++ (header (fields m) ++ (m.image ++ (l ++ written ms)))) unpadded in
    let stepped = read_step-member bits m all.0 st before (written ms) shape' at going in
    let ends =
      read_loop-written bits fuel ms st' passed all.2
        (unfold after_member in shape' ∙ regroup before (header (fields m)) m.image (written ms))
        (unfold after_member in
          omega (
            arith,
            at,
            length-append before (header (fields m) ++ m.image),
            length-append (header (fields m)) m.image,
            length-header (fields m) all.0.framed,
          ))
        (unfold after_member in refl) (omega arith) in
    rw (going, stepped, read_loop)
      (ends
        ∙ ap (λ l. some (ok l))
            (unfold after_member in append_assoc st.objects (object_of m ∷ []) (objects_of ms)))

-- The objects are read back in their order, from an archive of object files with short names
-- (`IsMember`), with two rounds of fuel more than there are members: each with its name, without the
-- slash, and its bytes.
-- The size of every member is even, and fits a `long` and an `unsigned`.
pub read_archive-written :
    (bits fuel : ℕ) (ms : List Member)
    → AllMembers bits ms
    → length ms + 2 ≤ fuel
    → read_archive bits fuel (arch_magic ++ written ms) ≡ some (ok (objects_of ms))
unfolding read_archive fread
read_archive-written bits fuel ms all enough =
    read_loop-written bits fuel ms
      (record {
        file = record { contents = arch_magic ++ written ms; pos = 8; at_end = false };
        objects = [];
        sym_tab = none;
        name_tab = none;
      })
      arch_magic all refl refl refl enough
