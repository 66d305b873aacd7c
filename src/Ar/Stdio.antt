-- ===== src/Ar/Stdio.antt =====
-- A file that is open for reading, as <stdio.h> describes it.
use liblink.Base.{
  ℕ, ◌+◌, ◌-◌, ◌^◌, Bool, false, ◌||◌, List, leb, ltb, length, take, drop, if◌then◌else◌,
}

pub record File : Type 0 where
  pub contents : List ℕ
  pub pos : ℕ
  pub at_end : Bool

-- The bytes that were read. Fewer than `n` set the end-of-file indicator.
unfoldable pub fread : ℕ → File → List ℕ × File
fread n f =
    let bytes = take n (drop f.pos f.contents) in
    (bytes, record f { pos = f.pos + length bytes; at_end = f.at_end || ltb (length bytes) n })

-- `fseek(f, offset, SEEK_CUR)`, for a signed pattern. It clears the indicator, but not if it fails,
-- as it does in front of the start.
unfoldable pub fseek : ℕ → ℕ → File → File
fseek bits offset f =
    if ltb offset (2 ^ (bits - 1))
    then record f { pos = f.pos + offset; at_end = false }
    else (if leb (2 ^ bits - offset) f.pos
        then record f { pos = f.pos - (2 ^ bits - offset); at_end = false }
        else f)
