-- ===== src/Hash.antt =====
-- Hash.c. A key is the list of its bytes; plain `char` is unsigned on the supported targets.
pub mod Distinct
use liblink.Base.{ℕ, ◌+◌, ◌*◌, ◌%◌, ◌^◌, bit_xor, List, [], ◌∷◌, u32, u64, ◌<<<◌, ◌>>>◌}

jenkins_loop : List ℕ → ℕ → ℕ
jenkins_loop [] h = h
jenkins_loop (c ∷ cs) h =
    let h1 = u32 (h + c) in
    let h2 = u32 (h1 + u32 (h1 <<< 10)) in let h3 = bit_xor h2 (h2 >>> 6) in jenkins_loop cs h3

unfoldable pub jenkins_one_at_a_time_hash : List ℕ → ℕ
unfolding jenkins_loop
jenkins_one_at_a_time_hash key =
    let h = jenkins_loop key 0 in
    let h1 = u32 (h + u32 (h <<< 3)) in
    let h2 = bit_xor h1 (h1 >>> 11) in u32 (h2 + u32 (h2 <<< 15))

-- A round of the loop of `knuth_hash`.
unfoldable pub knuth_round : ℕ → ℕ → ℕ
knuth_round h c = u64 (u64 (h + c % 2 ^ 8) * 3074457345618258799)

unfoldable pub knuth_loop : List ℕ → ℕ → ℕ
knuth_loop [] h = h
knuth_loop (c ∷ cs) h = knuth_loop cs (knuth_round h c)

unfoldable pub knuth_hash : List ℕ → ℕ
knuth_hash key = knuth_loop key 3074457345618258791

-- The build defines `KNUTH` and not `JENKINS`.
unfoldable pub hash : List ℕ → ℕ
hash key = knuth_hash key
