-- ===== src/Ar.antt =====
-- Ar.c: the members of an archive. A `char` is a byte. `long` and `size_t` have `bits` bits, and a value
-- of either is its bit pattern.
pub mod Stdio
pub mod Progress
pub mod Ends
pub mod Header
pub mod Names
pub mod RoundTrip
pub mod Endless
pub mod Odd
use liblink.Base.{
  ℕ, zero, suc, ◌+◌, ◌-◌, ◌*◌, ◌^◌, ◌%◌, Bool, true, false, not, ◌&&◌, ◌||◌, List, [], ◌∷◌, ◌++◌,
  Option, none, some, ◌==◌, leb, ltb, u32, length, take, drop, map, if◌then◌else◌, Outcome, ok,
  fail, Fault, ◌>>=◌, ◌>>◌, assert,
}
use liblink.Ar.Stdio.{File, fread, fseek}

-- A member that is an object file.
pub record Object : Type 0 where
  pub name : List ℕ
  pub image : List ℕ
  pub size : ℕ

-- The first blank of a field becomes its end.
unfoldable pub end_at_blank : List ℕ → List ℕ
end_at_blank [] = []
end_at_blank (c ∷ cs) = if c == 32 then 0 ∷ cs else c ∷ end_at_blank cs

-- The text in a buffer, up to its first zero or the end of the buffer.
unfoldable pub text_of : List ℕ → List ℕ
text_of [] = []
text_of (c ∷ cs) = if c == 0 then [] else c ∷ text_of cs

unfoldable pub is_space : ℕ → Bool
is_space c = c == 32 || (leb 9 c && leb c 13)

unfoldable pub skip_space : List ℕ → List ℕ
unfolding is_space
skip_space [] = []
skip_space (c ∷ cs) = if is_space c then skip_space cs else c ∷ cs

unfoldable pub is_digit : ℕ → Bool
is_digit c = leb b'0' c && leb c b'9'

-- The number that the leading digits spell behind `n`.
unfoldable pub leading_number : List ℕ → ℕ → ℕ
unfolding is_digit
leading_number [] n = n
leading_number (c ∷ cs) n = if is_digit c then leading_number cs (n * 10 + (c - b'0')) else n

abbrev pub at_most : ℕ → ℕ → ℕ
at_most limit n = if leb n limit then n else limit

-- `strtol` to the base 10, of the sign and the digits behind the white space.
unfoldable pub signed_number : ℕ → List ℕ → ℕ
unfolding leading_number
signed_number bits [] = 0
signed_number bits (c ∷ cs) =
    if c == b'-'
    then (2 ^ bits - at_most (2 ^ (bits - 1)) (leading_number cs 0)) % 2 ^ bits
    else at_most (2 ^ (bits - 1) - 1) (leading_number (if c == b'+' then cs else c ∷ cs) 0)

unfoldable pub strtol : ℕ → List ℕ → ℕ
unfolding signed_number skip_space
strtol bits s = signed_number bits (skip_space s)

-- `strncmp(s, prefix, n) == 0` for the `n` bytes of `prefix`.
unfoldable pub starts : List ℕ → List ℕ → Bool
starts [] s = true
starts (c ∷ cs) [] = false
starts (c ∷ cs) (d ∷ ds) = if c == d then starts cs ds else false

-- `strncpy` of at most `n` bytes of text out of a table, which is not left.
unfoldable pub copy_name : ℕ → List ℕ → Outcome (List ℕ)
copy_name zero s = ok []
copy_name (suc n) [] = fail Fault.undefined
copy_name (suc n) (c ∷ cs) = elim (c == 0) [
  | true ↦ ok []
  | false ↦ copy_name n cs >>= λ rest. ok (c ∷ rest)
]

-- The file, the objects that were read, and the two tables.
pub record State : Type 0 where
  pub file : File
  pub objects : List Object
  pub sym_tab : Option (List ℕ)
  pub name_tab : Option (List ℕ)

-- `fread` of `n` bytes, which aborts if there are fewer.
unfoldable pub read_all : ℕ → File → Outcome (List ℕ × File)
read_all n file =
    let (bytes, file') = fread n file in
    if length bytes == n then ok (bytes, file') else fail Fault.aborted

unfoldable pub is_null : Option (List ℕ) → Bool
is_null none = true
is_null (some x) = false

unfoldable pub read_sym_tab : ℕ → State → Outcome State
unfolding read_all is_null
read_sym_tab member_size st = do
  assert (is_null st.sym_tab)
  (bytes, file) ← read_all member_size st.file
  ok (record st { file = file; sym_tab = some bytes })

unfoldable pub read_name_tab : ℕ → State → Outcome State
unfolding read_all is_null
read_name_tab member_size st = do
  assert (is_null st.name_tab)
  (bytes, file) ← read_all member_size st.file
  ok (record st { file = file; name_tab = some (map (λ c. if c == 10 then 0 else c) bytes) })

-- A name with the size that is left for the member, and the file behind the name.
pub record Name : Type 0 where
  pub text : List ℕ
  pub member_size : ℕ
  pub file : File

-- `fileName`, a buffer of 64 bytes. `name` is the field, `rest` what stands behind it.
unfoldable pub member_name : ℕ → List ℕ → List ℕ → ℕ → State → Outcome Name
unfolding text_of strtol starts copy_name read_all
member_name bits name rest member_size st =
    if starts (b'/' ∷ []) name
    then elim st.name_tab [
      | none ↦ fail Fault.undefined
      | some tab ↦ do
        text ← copy_name 64 (drop (strtol bits (drop 1 name ++ rest)) tab)
        if length text == 64
            then fail Fault.undefined
            else ok (record { text = text; member_size = member_size; file = st.file })
    ]
    else if starts (b'#' ∷ b'1' ∷ b'/' ∷ []) name
    then (let file_name_size = strtol bits (drop 3 name ++ rest) in
        let (bytes, file) = fread file_name_size st.file in
        if ltb 64 (length bytes)
        then fail Fault.undefined
        else if length bytes == file_name_size
        then ok (record {
          text = text_of bytes;
          member_size = (member_size + 2 ^ bits - file_name_size) % 2 ^ bits;
          file = file;
        })
        else fail Fault.aborted)
    else ok (record { text = text_of name; member_size = member_size; file = st.file })

-- The name without a trailing '/'. An empty one is read before its start.
unfoldable pub drop_slash : List ℕ → Outcome (List ℕ)
drop_slash [] = fail Fault.undefined
drop_slash (c ∷ []) = if c == b'/' then ok [] else ok (c ∷ [])
drop_slash (c ∷ d ∷ ds) = do rest ← drop_slash (d ∷ ds); ok (c ∷ rest)

-- Whether the last two bytes are ".o" or "_o". A shorter name is read before its start, and one that
-- fills the buffer behind its end.
unfoldable pub ends_in_o : List ℕ → Outcome Bool
ends_in_o [] = fail Fault.undefined
ends_in_o (c ∷ []) = fail Fault.undefined
ends_in_o (c ∷ d ∷ []) = ok ((c == b'.' || c == b'_') && (d == b'o'))
ends_in_o (c ∷ d ∷ e ∷ es) = ends_in_o (d ∷ e ∷ es)

unfoldable pub is_object_name : List ℕ → Outcome Bool
unfolding ends_in_o
is_object_name name = if length name == 64 then fail Fault.undefined else ends_in_o name

-- `o->size` is an `unsigned`.
unfoldable pub read_object : List ℕ → ℕ → File → State → Outcome State
read_object name member_size file st =
    let (bytes, file') = fread member_size file in
    if u32 (length bytes) == member_size
    then ok (record st {
      file = file';
      objects = st.objects ++ record { name = name; image = bytes; size = u32 (length bytes) } ∷ [];
    })
    else fail Fault.aborted

-- The rest of the round for a member with a name of its own.
unfoldable pub read_named : ℕ → Name → State → Outcome State
unfolding drop_slash is_object_name read_object
read_named bits n st = do
  name ← drop_slash n.text
  is_object ← is_object_name name
  if is_object
      then read_object name n.member_size n.file st
      else ok (record st { file = fseek bits n.member_size n.file })

-- The round behind a header: its name, what stands behind the name, its size and its magic.
unfoldable pub read_fields : ℕ → List ℕ → List ℕ → ℕ → List ℕ → State → Outcome State
unfolding starts
read_fields bits name rest member_size magic st =
    if not (starts (0x60 ∷ 0x0a ∷ []) magic)
    then fail Fault.aborted
    else if starts (b'/' ∷ 0 ∷ []) name
    then read_sym_tab member_size st
    else if starts (b'/' ∷ b'/' ∷ 0 ∷ []) name
    then read_name_tab member_size st
    else (do n ← member_name bits name rest member_size st; read_named bits n st)

-- The header `h` of 60 bytes: name(16) time(12) own(6) grp(6) mode(8) size(10) magic(2).
unfoldable pub read_member : ℕ → List ℕ → State → Outcome State
read_member bits h st =
    read_fields bits (end_at_blank (take 16 h)) (drop 16 h)
      (strtol bits (end_at_blank (take 10 (drop 48 h)) ++ drop 58 h)) (drop 58 h) st

-- One round of the loop. A header that is cut off ends the loop, as the end of the file was met.
unfoldable pub read_step : ℕ → State → Outcome State
read_step bits st =
    let (h, file) = fread 60 st.file in
    if length h == 60
    then read_member bits h (record st { file = file })
    else ok (record st { file = file })

-- The loop; `none` means that the fuel ran out.
unfoldable pub read_loop : ℕ → ℕ → State → Option (Outcome (List Object))
read_loop bits zero st = none
read_loop bits (suc fuel) st = elim st.file.at_end [
  | true ↦ some (ok st.objects)
  | false ↦ elim (read_step bits st) [
    | fail why ↦ some (fail why)
    | ok st' ↦ read_loop bits fuel st'
  ]
]

-- "!<arch>\n"
abbrev pub arch_magic : List ℕ
arch_magic = b'!' ∷ b'<' ∷ b'a' ∷ b'r' ∷ b'c' ∷ b'h' ∷ b'>' ∷ 10 ∷ []

-- `read_archive` on a file of the given contents.
unfoldable pub read_archive : ℕ → ℕ → List ℕ → Option (Outcome (List Object))
unfolding starts
read_archive bits fuel contents =
    let (tmp, file) = fread 8 (record { contents = contents; pos = 0; at_end = false }) in
    if starts arch_magic tmp
    then read_loop bits fuel (record { file = file; objects = []; sym_tab = none; name_tab = none })
    else some (fail Fault.aborted)
