-- ===== src/Ar/Names.antt =====
-- The name and the size of a member, out of the fields of a header.
use liblink.Base.{
  ℕ, zero, suc, ◌+◌, ◌-◌, ◌*◌, ◌^◌, ◌≤◌, ◌<◌, ◌≡◌, ◌≢◌, ◌⊎◌, inl, inr, refl, ap, ◌∙◌, true, false,
  List, [], ◌∷◌, ◌++◌, length, length-append, arith, ok, ◌==◌,
}
use liblink.Ar.{
  end_at_blank, text_of, is_digit, is_space, skip_space, leading_number, signed_number, strtol,
  starts, drop_slash, ends_in_o, is_object_name, at_most,
}
use liblink.Ar.Header.{member_magic}

abbrev pub blanks : ℕ → List ℕ
blanks zero = []
blanks (suc k) = 32 ∷ blanks k

-- A byte of a name: no end, no blank, no slash.
abbrev pub AllPlain : List ℕ → Type 0
AllPlain [] = Unit {0}
AllPlain (c ∷ cs) = (c ≢ 0) × (c ≢ 32) × (c ≢ b'/') × AllPlain cs

abbrev pub AllDigits : List ℕ → Type 0
AllDigits [] = Unit {0}
AllDigits (c ∷ cs) = (is_digit c ≡ true) × AllDigits cs

-- The name "<stem>.o", and as it stands in the field.
abbrev pub object_name : List ℕ → List ℕ
object_name stem = stem ++ b'.' ∷ b'o' ∷ []

abbrev pub slashed : List ℕ → List ℕ
slashed stem = stem ++ b'.' ∷ b'o' ∷ b'/' ∷ []

text_of-blanks : (k : ℕ) → text_of (end_at_blank (blanks k)) ≡ []
unfolding text_of end_at_blank
text_of-blanks zero = refl
text_of-blanks (suc k) = refl

pub text_of_field :
    (stem : List ℕ) (k : ℕ)
    → AllPlain stem
    → text_of (end_at_blank (slashed stem ++ blanks k)) ≡ slashed stem
unfolding text_of end_at_blank
text_of_field [] k plain = ap (λ s. b'.' ∷ b'o' ∷ b'/' ∷ s) (text_of-blanks k)
text_of_field (c ∷ cs) k plain = ground (arith, text_of_field cs k plain.3)

-- Such a field is none of the special names.
module _ (k : ℕ) where
  pub not_symbol_table :
      (stem : List ℕ)
      → AllPlain stem
      → starts (b'/' ∷ 0 ∷ []) (end_at_blank (slashed stem ++ blanks k)) ≡ false
  unfolding starts end_at_blank
  not_symbol_table [] plain = refl
  not_symbol_table (c ∷ cs) plain = ground arith

  pub not_name_table :
      (stem : List ℕ)
      → AllPlain stem
      → starts (b'/' ∷ b'/' ∷ 0 ∷ []) (end_at_blank (slashed stem ++ blanks k)) ≡ false
  unfolding starts end_at_blank
  not_name_table [] plain = refl
  not_name_table (c ∷ cs) plain = ground arith

  pub not_gnu :
      (stem : List ℕ)
      → AllPlain stem
      → starts (b'/' ∷ []) (end_at_blank (slashed stem ++ blanks k)) ≡ false
  unfolding starts end_at_blank
  not_gnu [] plain = refl
  not_gnu (c ∷ cs) plain = ground arith

  pub not_bsd :
      (stem : List ℕ)
      → AllPlain stem
      → starts (b'#' ∷ b'1' ∷ b'/' ∷ []) (end_at_blank (slashed stem ++ blanks k)) ≡ false
  unfolding starts end_at_blank
  not_bsd [] plain = refl
  not_bsd (c ∷ []) plain = ground arith
  not_bsd (c ∷ d ∷ []) plain = ground arith
  not_bsd (c ∷ d ∷ e ∷ es) plain = ground arith

pub drop_slash-slashed : (stem : List ℕ) → drop_slash (slashed stem) ≡ ok (object_name stem)
unfolding drop_slash
drop_slash-slashed [] = refl
drop_slash-slashed (c ∷ []) = refl
drop_slash-slashed (c ∷ d ∷ ds) = rw (drop_slash-slashed (d ∷ ds)) refl

pub ends_in_o-object_name : (stem : List ℕ) → ends_in_o (object_name stem) ≡ ok true
unfolding ends_in_o
ends_in_o-object_name [] = refl
ends_in_o-object_name (c ∷ []) = refl
ends_in_o-object_name (c ∷ d ∷ []) = refl
ends_in_o-object_name (c ∷ d ∷ e ∷ es) = ends_in_o-object_name (d ∷ e ∷ es)

pub is_object_name-object_name :
    (stem : List ℕ) → length stem ≤ 13 → is_object_name (object_name stem) ≡ ok true
unfolding is_object_name
is_object_name-object_name stem short =
    ground (arith, length-append stem (b'.' ∷ b'o' ∷ []), ends_in_o-object_name stem)

-- The digits of a size, before blanks or the magic.
leading_number_stops :
    (digits t : List ℕ) (c n : ℕ)
    → AllDigits digits
    → is_digit c ≡ false
    → leading_number (digits ++ c ∷ t) n ≡ leading_number digits n
unfolding leading_number
leading_number_stops [] t c n all stop = rw stop
leading_number_stops (d ∷ ds) t c n all stop =
    rw (all.0) (leading_number_stops ds t c (n * 10 + (d - b'0')) all.1 stop)

-- `strtol` of a text whose first byte is neither white space nor a sign.
strtol_plain :
    (bits x : ℕ) (xs : List ℕ)
    → is_space x ≡ false
    → (x == b'-') ≡ false
    → (x == b'+') ≡ false
    → strtol bits (x ∷ xs) ≡ at_most (2 ^ (bits - 1) - 1) (leading_number (x ∷ xs) 0)
unfolding strtol signed_number skip_space
strtol_plain bits x xs space minus plus = rw (space, minus, plus) refl

digit_starts :
    (d : ℕ)
    → is_digit d ≡ true
    → (is_space d ≡ false) × ((d == b'-') ≡ false) × ((d == b'+') ≡ false) × ((d == 32) ≡ false)
unfolding is_digit is_space
digit_starts d h = ground arith

stop_starts :
    (c : ℕ)
    → (c ≡ 0) ⊎ (c ≡ 0x60)
    → (is_space c ≡ false) × ((c == b'-') ≡ false) × ((c == b'+') ≡ false) × (is_digit c ≡ false)
unfolding is_digit is_space
stop_starts c h = ground arith

at_most-fits : (limit n : ℕ) → n < limit → at_most (limit - 1) n ≡ n
at_most-fits limit n h = ground arith

strtol_stops :
    (bits : ℕ) (digits t : List ℕ) (c : ℕ)
    → AllDigits digits
    → (c ≡ 0) ⊎ (c ≡ 0x60)
    → leading_number digits 0 < 2 ^ (bits - 1)
    → strtol bits (digits ++ c ∷ t) ≡ leading_number digits 0
strtol_stops bits [] t c all stop fits =
    let (space, minus, plus, no_digit) = stop_starts c stop in
    strtol_plain bits c t space minus plus
    ∙ ap (at_most (2 ^ (bits - 1) - 1)) (leading_number_stops [] t c 0 all no_digit)
    ∙ at_most-fits (2 ^ (bits - 1)) (leading_number [] 0) fits
strtol_stops bits (d ∷ ds) t c all stop fits =
    let (space, minus, plus, blank) = digit_starts d all.0 in
    strtol_plain bits d (ds ++ c ∷ t) space minus plus
    ∙ ap (at_most (2 ^ (bits - 1) - 1))
        (leading_number_stops (d ∷ ds) t c 0 all (stop_starts c stop).3)
    ∙ at_most-fits (2 ^ (bits - 1)) (leading_number (d ∷ ds) 0) fits

end_at_blank-digits :
    (digits : List ℕ) (k : ℕ)
    → AllDigits digits
    → (t : List ℕ) × (c : ℕ) × ((c ≡ 0) ⊎ (c ≡ 0x60))
      × (end_at_blank (digits ++ blanks k) ++ member_magic ≡ digits ++ c ∷ t)
unfolding end_at_blank
end_at_blank-digits [] zero all = (0x0a ∷ [], 0x60, inr refl, refl)
end_at_blank-digits [] (suc k) all = (blanks k ++ member_magic, 0, inl refl, refl)
end_at_blank-digits (d ∷ ds) k all =
    let (t, c, stop, e) = end_at_blank-digits ds k all.1 in
    (t, c, stop, rw ((digit_starts d all.0).3) (ap (λ l. d ∷ l) e))

-- The size field reads as the number that its digits spell.
pub strtol_size :
    (bits : ℕ) (digits : List ℕ) (k : ℕ)
    → AllDigits digits
    → leading_number digits 0 < 2 ^ (bits - 1)
    → strtol bits (end_at_blank (digits ++ blanks k) ++ member_magic) ≡ leading_number digits 0
strtol_size bits digits k all fits =
    let (t, c, stop, e) = end_at_blank-digits digits k all in
    ap (strtol bits) e ∙ strtol_stops bits digits t c all stop fits
