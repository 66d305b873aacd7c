-- ===== src/Ar/Endless.antt =====
-- Members with a negative size (Ar.c).
use liblink.Base.{
  ℕ, zero, suc, ◌+◌, ◌-◌, ◌^◌, ◌%◌, ◌≤◌, ◌≡◌, refl, sym, ap, ◌∙◌, true, false, List, [], ◌∷◌, ◌++◌,
  none, length, ltb, leb, arith, ok,
}
use native.Mathlib.Nat.{mod-eq_of_lt, pow-le-pow_right}
use liblink.Ar.Stdio.{File, fread, fseek}
use liblink.Ar.{
  State, arch_magic, end_at_blank, text_of, strtol, starts, at_most, read_named, read_fields,
  read_step, read_loop, read_archive,
}
use liblink.Ar.Header.{Fields, IsHeader, member_magic, header, read_member-header, read_step-header}
use liblink.Ar.Progress.{double}
use liblink.Ar.Names.{blanks}
use liblink.Ar.RoundTrip.{read_fields-plain}

-- "README".
abbrev readme : List ℕ
readme = b'R' ∷ b'E' ∷ b'A' ∷ b'D' ∷ b'M' ∷ b'E' ∷ []

-- A member "README" of size "-60": the loop goes back over its header.
abbrev pub backwards : List ℕ → Fields
backwards middle = record {
  name = readme ++ blanks 10;
  middle = middle;
  size = b'-' ∷ b'6' ∷ b'0' ∷ blanks 7;
}

backwards-IsHeader : (middle : List ℕ) → length middle ≡ 32 → IsHeader (backwards middle)
backwards-IsHeader middle e = record { name_16 = refl; middle_32 = e; size_10 = refl }

half-le : (bits : ℕ) → 7 ≤ bits → 64 ≤ 2 ^ (bits - 1)
half-le bits h = pow-le-pow_right {n = 2} (omega arith) {i = 6} {j = bits - 1} (omega arith)

size_back :
    (bits : ℕ)
    → 7 ≤ bits
    → strtol bits (end_at_blank (b'-' ∷ b'6' ∷ b'0' ∷ blanks 7) ++ member_magic) ≡ 2 ^ bits - 60
unfolding strtol end_at_blank
size_back bits h =
    let half = half-le bits h in
    let full = double bits (omega arith) in
    let sixty : at_most (2 ^ (bits - 1)) 60 ≡ 60 = ground arith in
    ap (λ x. (2 ^ bits - x) % 2 ^ bits) sixty
    ∙ mod-eq_of_lt {n = 2 ^ bits - 60} {m = 2 ^ bits} (omega arith)

fseek_back :
    (bits : ℕ) (f : File)
    → 7 ≤ bits
    → f.at_end ≡ false
    → fseek bits (2 ^ bits - 60) (record f { pos = f.pos + 60 }) ≡ f
unfolding fseek
fseek_back bits f h going =
    let half = half-le bits h in
    let full = double bits (omega arith) in
    let negative : ltb (2 ^ bits - 60) (2 ^ (bits - 1)) ≡ false = ground arith in
    let back : 2 ^ bits - (2 ^ bits - 60) ≡ 60 = omega arith in
    let inside : leb 60 (f.pos + 60) ≡ true = ground arith in
    let same : f.pos + 60 - 60 ≡ f.pos = omega arith in
    rw (negative, back, inside, same) (ap (λ b. record f { at_end = b }) (sym going))

readme_text : text_of (end_at_blank (readme ++ blanks 10)) ≡ readme
unfolding text_of end_at_blank
readme_text = refl

read_named-skip :
    (bits size : ℕ) (file : File) (st : State)
    → read_named bits (record { text = readme; member_size = size; file = file }) st
      ≡ ok (record st { file = fseek bits size file })
unfolding read_named
read_named-skip bits size file st = refl

read_step-backwards :
    (bits : ℕ) (middle before after : List ℕ) (st : State)
    → 7 ≤ bits
    → length middle ≡ 32
    → st.file.contents ≡ before ++ (header (backwards middle) ++ after)
    → st.file.pos ≡ length before
    → st.file.at_end ≡ false
    → read_step bits st ≡ ok st
read_step-backwards bits middle before after st lo framed shape at going =
    let f = backwards middle in
    let is = backwards-IsHeader middle framed in
    let name = end_at_blank f.name in
    let rest = f.middle ++ (f.size ++ member_magic) in
    let st1 : State = record st { file = record st.file { pos = st.file.pos + 60 } } in
    read_step-header bits f st before after is shape at going
    ∙ read_member-header f is bits st1
    ∙ ap (λ n. read_fields bits name rest n member_magic st1) (size_back bits lo)
    ∙ read_fields-plain bits name rest (2 ^ bits - 60) st1 (unfold starts end_at_blank in refl)
        (unfold starts end_at_blank in refl) (unfold starts end_at_blank in refl)
        (unfold starts end_at_blank in refl)
    ∙ ap
        (λ t.
          read_named bits (record { text = t; member_size = 2 ^ bits - 60; file = st1.file }) st1)
        readme_text
    ∙ read_named-skip bits (2 ^ bits - 60) st1.file st1
    ∙ ap (λ (file : File). ok (record st { file = file })) (fseek_back bits st.file lo going)

read_loop-stays :
    (bits fuel : ℕ) (st : State)
    → st.file.at_end ≡ false
    → read_step bits st ≡ ok st
    → read_loop bits fuel st ≡ none
unfolding read_loop
read_loop-stays bits zero st going same = refl
read_loop-stays bits (suc fuel) st going same =
    rw (going, same, read_loop) (read_loop-stays bits fuel st going same)

-- An archive whose first member is "README" with the size "-60" is read for ever, for a `long` of at
-- least 7 bits, and whatever stands in the other fields and behind the header: no fuel is enough.
pub read_archive_endless :
    (bits fuel : ℕ) (middle after : List ℕ)
    → 7 ≤ bits
    → length middle ≡ 32
    → read_archive bits fuel (arch_magic ++ (header (backwards middle) ++ after)) ≡ none
unfolding read_archive fread
read_archive_endless bits fuel middle after lo framed =
    let st : State = record {
      file = record {
        contents = arch_magic ++ (header (backwards middle) ++ after);
        pos = 8;
        at_end = false;
      };
      objects = [];
      sym_tab = none;
      name_tab = none;
    } in
    read_loop-stays bits fuel st refl
      (read_step-backwards bits middle arch_magic after st lo framed refl refl refl)
