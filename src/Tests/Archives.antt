-- ===== src/Tests/Archives.antt =====
-- Archives with one member "a.o", and one with a negative size.
use liblink.Base.{
  ℕ, ◌≡◌, refl, Bool, true, not, ◌&&◌, ◌==◌, List, [], ◌∷◌, ◌++◌, none, some, arith, Outcome, ok,
}
use liblink.Ar.Progress.{NoMinus}
use liblink.Ar.{is_digit, leading_number, Object, arch_magic, read_archive}
use liblink.Ar.Names.{blanks}
use liblink.Ar.Header.{Fields, header}
use liblink.Ar.RoundTrip.{Member, IsMember, fields, written, read_archive-written}
use liblink.Ar.Ends.{read_archive_ends}
use liblink.Ar.Endless.{backwards, read_archive_endless}

-- A member of one byte.
abbrev member : Member
member = record {
  stem = b'a' ∷ [];
  name_blanks = 12;
  middle = blanks 32;
  digits = b'1' ∷ [];
  size_blanks = 9;
  image = 127 ∷ [];
}

member-IsMember : IsMember 64 member
unfolding is_digit leading_number
member-IsMember = record {
  plain = (
    (λ e. absurd (omega (arith, e))),
    (λ e. absurd (omega (arith, e))),
    (λ e. absurd (omega (arith, e))),
    tt,
  );
  framed = record { name_16 = refl; middle_32 = refl; size_10 = refl };
  decimal = (refl, tt);
  size = refl;
  long = omega arith;
  unsigned = omega arith;
}

-- A member of two bytes.
abbrev even_member : Member
even_member = record member { digits = b'2' ∷ []; image = 127 ∷ 69 ∷ [] }

even_member-IsMember : IsMember 64 even_member
unfolding is_digit leading_number
even_member-IsMember = record {
  plain = member-IsMember.plain;
  framed = record { name_16 = refl; middle_32 = refl; size_10 = refl };
  decimal = (refl, tt);
  size = refl;
  long = omega arith;
  unsigned = omega arith;
}

read_archive-written_example :
    read_archive 64 3 (arch_magic ++ written (even_member ∷ []))
    ≡ some (ok (record { name = b'a' ∷ b'.' ∷ b'o' ∷ []; image = 127 ∷ 69 ∷ []; size = 2 } ∷ []))
read_archive-written_example =
    read_archive-written 64 3 (even_member ∷ []) (even_member-IsMember, refl, tt) (omega arith)

has_no_minus : List ℕ → Bool
has_no_minus [] = true
has_no_minus (c ∷ cs) = not (c == b'-') && has_no_minus cs

has_no_minus_lem : (s : List ℕ) → has_no_minus s ≡ true → NoMinus s
unfolding has_no_minus
has_no_minus_lem [] e = tt
has_no_minus_lem (c ∷ cs) e = ground (arith, has_no_minus_lem cs)

archive-NoMinus : NoMinus (arch_magic ++ written (even_member ∷ []))
unfolding has_no_minus header
archive-NoMinus = has_no_minus_lem (arch_magic ++ written (even_member ∷ [])) refl

read_archive_ends_example :
    (r : Outcome (List Object)) × (read_archive 64 72 (arch_magic ++ written (even_member ∷ []))
      ≡ some r)
read_archive_ends_example =
    read_archive_ends 64 72 (arch_magic ++ written (even_member ∷ [])) (omega arith) archive-NoMinus
      (unfold header in omega arith)

read_archive_endless_example :
    read_archive 64 1000 (arch_magic ++ (header (backwards (blanks 32)) ++ [])) ≡ none
read_archive_endless_example = read_archive_endless 64 1000 (blanks 32) [] (omega arith) refl

abbrev next : Fields
next = fields member
