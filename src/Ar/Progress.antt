-- ===== src/Ar/Progress.antt =====
-- How far a round of the loop of `read_archive` (Ar.c) moves in the file.
use liblink.Base.{
  ℕ, zero, suc, ◌+◌, ◌-◌, ◌^◌, ◌%◌, ◌≤◌, ◌<◌, ◌≡◌, ◌≢◌, refl, sym, ap, ◌∙◌, ◌⊎◌, inl, inr, Bool,
  true, false, Bool-cases, List, [], ◌∷◌, ◌++◌, Option-cases, ◌==◌, ==_iff, ◌||◌, length, take,
  drop, length-take-le, length-take-le-length, length-drop, arith, ok, >>=-eq-ok, ok-injective,
  assert->>-eq-ok, ltb,
}
use mathlib.Core.Path.{subst}
use native.Mathlib.Nat.{one-le-pow, mod-eq_of_lt, mod-eq-sub-mod}
use liblink.Ar.Stdio.{File, fread, fseek}
use liblink.Ar.{
  State, Name, end_at_blank, skip_space, signed_number, strtol, read_all, read_sym_tab,
  read_name_tab, member_name, read_object, read_named, read_member, read_fields, read_step, starts,
  copy_name, text_of, is_null, drop_slash, is_object_name,
}

-- No byte is a minus sign.
abbrev pub NoMinus : List ℕ → Type 0
NoMinus [] = Unit {0}
NoMinus (c ∷ cs) = (c ≢ b'-') × NoMinus cs

take-NoMinus : (n : ℕ) (s : List ℕ) → NoMinus s → NoMinus (take n s)
take-NoMinus zero s h = tt
take-NoMinus (suc n) [] h = tt
take-NoMinus (suc n) (c ∷ cs) h = (h.0, take-NoMinus n cs h.1)

drop-NoMinus : (n : ℕ) (s : List ℕ) → NoMinus s → NoMinus (drop n s)
drop-NoMinus zero s h = h
drop-NoMinus (suc n) [] h = tt
drop-NoMinus (suc n) (c ∷ cs) h = drop-NoMinus n cs h.1

append-NoMinus : (s r : List ℕ) → NoMinus s → NoMinus r → NoMinus (s ++ r)
append-NoMinus [] r h k = k
append-NoMinus (c ∷ cs) r h k = (h.0, append-NoMinus cs r h.1 k)

end_at_blank-NoMinus : (s : List ℕ) → NoMinus s → NoMinus (end_at_blank s)
unfolding end_at_blank
end_at_blank-NoMinus [] h = tt
end_at_blank-NoMinus (c ∷ cs) h = ground (arith, end_at_blank-NoMinus cs h.1)

skip_space-NoMinus : (s : List ℕ) → NoMinus s → NoMinus (skip_space s)
unfolding skip_space
skip_space-NoMinus [] h = tt
skip_space-NoMinus (c ∷ cs) h = ground (arith, skip_space-NoMinus cs h.1)

-- Without a sign the result of `strtol` is not negative.
signed_number-lt : (bits : ℕ) (s : List ℕ) → NoMinus s → signed_number bits s < 2 ^ (bits - 1)
unfolding signed_number
signed_number-lt bits [] h = omega (arith, one-le-pow (bits - 1) 2)
signed_number-lt bits (c ∷ cs) h = ground (arith, one-le-pow (bits - 1) 2)

strtol-lt : (bits : ℕ) (s : List ℕ) → NoMinus s → strtol bits s < 2 ^ (bits - 1)
unfolding strtol
strtol-lt bits s h = signed_number-lt bits (skip_space s) (skip_space-NoMinus s h)

-- The file is the same, at a position from `base` on.
pub record Later (f : File) (base : ℕ) (g : File) : Type 0 where
  pub same : g.contents ≡ f.contents
  pub behind : base ≤ g.pos

fread-Later : (n base : ℕ) (f : File) → base ≤ f.pos → Later f base (fread n f).1
unfolding fread
fread-Later n base f h = record { same = refl; behind = omega arith }

read_all-inv :
    (n : ℕ) (f g : File) (bytes : List ℕ)
    → read_all n f ≡ ok (bytes, g)
    → (g.contents ≡ f.contents) × (g.pos ≡ f.pos + n)
unfolding read_all fread
read_all-inv n f g bytes e = ground arith

pub double : (bits : ℕ) → 1 ≤ bits → 2 ^ bits ≡ 2 ^ (bits - 1) + 2 ^ (bits - 1)
double zero h = elim h [ ]
double (suc bits) h = grind arith

-- Where the member behind a name ends: not before `base`, also if it is skipped.
record Forward (bits base : ℕ) (f : File) (n : Name) : Type 0 where
  same : n.file.contents ≡ f.contents
  behind : base ≤ n.file.pos
  size : (n.member_size < 2 ^ (bits - 1)) ⊎ (base + (2 ^ bits - n.member_size) ≤ n.file.pos)

fseek-Later :
    (bits base : ℕ) (f : File) (n : Name)
    → Forward bits base f n
    → Later f base (fseek bits n.member_size n.file)
unfolding fseek
fseek-Later bits base f n h = ground arith

read_object-Later :
    (name : List ℕ) (bits base : ℕ) (f : File) (n : Name) (st st' : State)
    → Forward bits base f n
    → read_object name n.member_size n.file st ≡ ok st'
    → Later f base st'.file
unfolding read_object fread
read_object-Later name bits base f n st st' h e = ground arith

read_named-Later :
    (bits base : ℕ) (f : File) (n : Name) (st st' : State)
    → Forward bits base f n
    → read_named bits n st ≡ ok st'
    → Later f base st'.file
unfolding read_named
read_named-Later bits base f n st st' h e =
    let (name, trimmed, rest) = >>=-eq-ok (drop_slash n.text) _ e in
    let (is_object, tested, last) = >>=-eq-ok (is_object_name name) _ rest in
    elim (Bool-cases is_object) [
      | inl yes_object ↦ read_object-Later name bits base f n st st' h (rw yes_object at last)
      | inr not_object ↦
          subst (λ (x : State). Later f base x.file) (ok-injective (rw not_object at last))
            (fseek-Later bits base f n h)
    ]

-- Subtraction modulo `m`.
sub_mod_above : (size k m : ℕ) → k ≤ size → size < m → (size + m - k) % m ≡ size - k
sub_mod_above size k m le lt =
    mod-eq-sub-mod {n = size + m - k} {m = m} (omega arith)
    ∙ ap (λ x. x % m) (omega arith)
    ∙ mod-eq_of_lt {n = size - k} {m = m} (omega arith)

sub_mod_below : (size k m : ℕ) → size < k → k < m → (size + m - k) % m ≡ size + m - k
sub_mod_below size k m lt small = mod-eq_of_lt {n = size + m - k} {m = m} (omega arith)

-- A name in the file is read from it, and its size is taken off that of the member.
shifted-Forward :
    (bits size k : ℕ) (f g : File) (text : List ℕ)
    → 1 ≤ bits
    → size < 2 ^ (bits - 1)
    → k < 2 ^ (bits - 1)
    → g.contents ≡ f.contents
    → g.pos ≡ f.pos + k
    → Forward bits f.pos f
        (record { text = text; member_size = (size + 2 ^ bits - k) % 2 ^ bits; file = g })
shifted-Forward bits size k f g text lo hs hk same at = record {
  same = same;
  behind = omega (arith, at);
  size = elim (Bool-cases (ltb size k)) [
    | inl less ↦ inr (ground (arith, at, double bits lo, sub_mod_below size k (2 ^ bits)))
    | inr more ↦ inl (ground (arith, at, double bits lo, sub_mod_above size k (2 ^ bits)))
  ];
}

member_name-Forward :
    (bits size : ℕ) (name rest : List ℕ) (st : State) (n : Name)
    → 1 ≤ bits
    → size < 2 ^ (bits - 1)
    → NoMinus name
    → NoMinus rest
    → member_name bits name rest size st ≡ ok n
    → Forward bits st.file.pos st.file n
unfolding member_name
member_name-Forward bits size name rest st n lo hs hn hr e =
    elim (Bool-cases (starts (b'/' ∷ []) name)) [
      | inl gnu ↦ elim (Option-cases st.name_tab) [
        | inl missing ↦ absurd (cc (rw (gnu, missing) at e))
        | inr (tab, there) ↦
            let (text, copied, last) =
              >>=-eq-ok (copy_name 64 (drop (strtol bits (drop 1 name ++ rest)) tab)) _
                (rw (gnu, there) at e) in
            elim (Bool-cases (length text == 64)) [
              | inl full ↦ absurd (cc (rw full at last))
              | inr fits ↦
                  subst (λ (x : Name). Forward bits st.file.pos st.file x)
                    (ok-injective (rw fits at last))
                    (record { same = refl; behind = omega arith; size = inl hs })
            ]
      ]
      | inr other ↦ elim (Bool-cases (starts (b'#' ∷ b'1' ∷ b'/' ∷ []) name)) [
        | inl bsd ↦
            let k = strtol bits (drop 3 name ++ rest) in
            let hk : k < 2 ^ (bits - 1) =
              strtol-lt bits (drop 3 name ++ rest)
                (append-NoMinus (drop 3 name) rest (drop-NoMinus 3 name hn) hr) in
            let bytes = (fread k st.file).0 in
            let g = (fread k st.file).1 in
            elim (Bool-cases (ltb 64 (length bytes))) [
              | inl long ↦ absurd (cc (rw (other, bsd, long) at e))
              | inr short ↦ elim (Bool-cases (length bytes == k)) [
                | inr cut ↦ absurd (cc (rw (other, bsd, short, cut) at e))
                | inl whole ↦
                    let (same, at) =
                      read_all-inv k st.file g bytes (unfold read_all in rw whole refl) in
                    subst (λ (x : Name). Forward bits st.file.pos st.file x)
                      (ok-injective (rw (other, bsd, short, whole) at e))
                      (shifted-Forward bits size k st.file g (text_of bytes) lo hs hk same at)
              ]
            ]
        | inr plain ↦
            subst (λ (x : Name). Forward bits st.file.pos st.file x)
              (ok-injective (rw (other, plain) at e))
              (record { same = refl; behind = omega arith; size = inl hs })
      ]
    ]

read_sym_tab-Later :
    (size : ℕ) (st st' : State) → read_sym_tab size st ≡ ok st' → Later st.file st.file.pos st'.file
unfolding read_sym_tab
read_sym_tab-Later size st st' e =
    let ((bytes, g), done, last) =
      >>=-eq-ok (read_all size st.file) _ (assert->>-eq-ok (is_null st.sym_tab) _ e) in
    let (same, at) = read_all-inv size st.file g bytes done in
    subst (λ (x : State). Later st.file st.file.pos x.file) (ok-injective last)
      (record { same = same; behind = omega (arith, at) })

read_name_tab-Later :
    (size : ℕ) (st st' : State)
    → read_name_tab size st ≡ ok st'
    → Later st.file st.file.pos st'.file
unfolding read_name_tab
read_name_tab-Later size st st' e =
    let ((bytes, g), done, last) =
      >>=-eq-ok (read_all size st.file) _ (assert->>-eq-ok (is_null st.name_tab) _ e) in
    let (same, at) = read_all-inv size st.file g bytes done in
    subst (λ (x : State). Later st.file st.file.pos x.file) (ok-injective last)
      (record { same = same; behind = omega (arith, at) })

read_member-Later :
    (bits : ℕ) (h : List ℕ) (st st' : State)
    → 1 ≤ bits
    → NoMinus h
    → read_member bits h st ≡ ok st'
    → Later st.file st.file.pos st'.file
unfolding read_member read_fields
read_member-Later bits h st st' lo clean e =
    let name = end_at_blank (take 16 h) in
    let magic = drop 58 h in
    let field = end_at_blank (take 10 (drop 48 h)) ++ magic in
    let size = strtol bits field in
    let hn = end_at_blank-NoMinus (take 16 h) (take-NoMinus 16 h clean) in
    let hs = strtol-lt bits field (
      append-NoMinus (end_at_blank (take 10 (drop 48 h))) magic
        (end_at_blank-NoMinus (take 10 (drop 48 h))
          (take-NoMinus 10 (drop 48 h) (drop-NoMinus 48 h clean)))
        (drop-NoMinus 58 h clean)) in
    elim (Bool-cases (starts (0x60 ∷ 0x0a ∷ []) magic)) [
      | inr bad ↦ absurd (cc (rw bad at e))
      | inl good ↦ elim (Bool-cases (starts (b'/' ∷ 0 ∷ []) name)) [
        | inl table ↦ read_sym_tab-Later size st st' (rw (good, table) at e)
        | inr member ↦ elim (Bool-cases (starts (b'/' ∷ b'/' ∷ 0 ∷ []) name)) [
          | inl names ↦ read_name_tab-Later size st st' (rw (good, member, names) at e)
          | inr named ↦
              let (n, found, last) =
                >>=-eq-ok (member_name bits name (drop 16 h) size st)
                  (λ (n : Name). read_named bits n st) (rw (good, member, named) at e) in
              read_named-Later bits st.file.pos st.file n st st'
                (member_name-Forward bits size name (drop 16 h) st n lo hs hn
                  (drop-NoMinus 16 h clean) found)
                last
        ]
      ]
    ]

header_fits : (pos : ℕ) (s : List ℕ) → length (take 60 (drop pos s)) ≡ 60 → pos + 60 ≤ length s
header_fits pos s full =
    omega (arith, full, length-drop pos s, length-take-le-length 60 (drop pos s))

header_behind : (pos n x : ℕ) → n ≡ 60 → pos + n ≤ x → pos + 60 ≤ x
header_behind pos n x e h = omega arith

cut_off : (b : Bool) (n : ℕ) → n ≤ 60 → (n == 60) ≡ false → (b || ltb n 60) ≡ true
cut_off b n h ne = ground arith

-- A round meets the end of the file, or it has read a header and goes on behind it.
pub read_step-Later :
    (bits : ℕ) (st st' : State)
    → 1 ≤ bits
    → NoMinus st.file.contents
    → read_step bits st ≡ ok st'
    → (st'.file.contents ≡ st.file.contents)
      × ((st'.file.at_end ≡ true)
          ⊎ ((st.file.pos + 60 ≤ length st.file.contents) × (st.file.pos + 60 ≤ st'.file.pos)))
unfolding read_step fread
read_step-Later bits st st' lo clean e =
    let tail = drop st.file.pos st.file.contents in
    let h = take 60 tail in
    let bound = length-take-le 60 tail in
    elim (Bool-cases (length h == 60)) [
      | inl full ↦
          let sixty : length h ≡ 60 = (==_iff (length h) 60).0 full in
          let f : File = record st.file {
            pos = st.file.pos + length h;
            at_end = st.file.at_end || ltb (length h) 60;
          } in
          let later : Later f f.pos st'.file =
            read_member-Later bits h (record st { file = f }) st' lo
              (take-NoMinus 60 tail (drop-NoMinus st.file.pos st.file.contents clean))
              (rw full at e) in
          (
            later.same,
            inr (
              header_fits st.file.pos st.file.contents sixty,
              header_behind st.file.pos (length h) st'.file.pos sixty later.behind,
            ),
          )
      | inr cut ↦
          let same = ok-injective (rw cut at e) in
          (
            sym (ap (λ (x : State). x.file.contents) same),
            inl (
                sym (ap (λ (x : State). x.file.at_end) same)
                ∙ cut_off st.file.at_end (length h) bound cut),
          )
    ]
