-- ===== src/Hash/Distinct.antt =====
-- Keys of one length that differ in one byte never collide under `hash`.
use liblink.Base.{ℕ, ◌+◌, ◌*◌, ◌%◌, ◌^◌, ◌<◌, ◌≡◌, ◌≢◌, List, [], ◌∷◌, ◌++◌, arith, u64}
use liblink.Hash.{knuth_round, knuth_loop, knuth_hash, hash}

-- The multiplier is odd: this is its inverse modulo 2 ^ 64.
unmultiply :
    (x : ℕ) → x < 2 ^ 64 → x * 3074457345618258799 % 2 ^ 64 * 11948103334669259663 % 2 ^ 64 ≡ x
unmultiply x h = omega arith

knuth_round-lt : (h c : ℕ) → knuth_round h c < 2 ^ 64
unfolding knuth_round
knuth_round-lt h c = omega arith

knuth_round_injective_state :
    (g h c : ℕ) → g < 2 ^ 64 → h < 2 ^ 64 → knuth_round g c ≡ knuth_round h c → g ≡ h
unfolding knuth_round
knuth_round_injective_state g h c sg sh e =
    omega (arith, unmultiply (u64 (g + c % 2 ^ 8)), unmultiply (u64 (h + c % 2 ^ 8)))

knuth_round_injective_byte :
    (h c d : ℕ) → h < 2 ^ 64 → c < 2 ^ 8 → d < 2 ^ 8 → knuth_round h c ≡ knuth_round h d → c ≡ d
unfolding knuth_round
knuth_round_injective_byte h c d sh sc sd e =
    omega (arith, unmultiply (u64 (h + c % 2 ^ 8)), unmultiply (u64 (h + d % 2 ^ 8)))

knuth_loop_injective_state :
    (cs : List ℕ) (g h : ℕ) → g < 2 ^ 64 → h < 2 ^ 64 → knuth_loop cs g ≡ knuth_loop cs h → g ≡ h
unfolding knuth_loop
knuth_loop_injective_state [] g h sg sh e = e
knuth_loop_injective_state (c ∷ cs) g h sg sh e = knuth_round_injective_state g h c sg sh (
    knuth_loop_injective_state cs (knuth_round g c) (knuth_round h c) (knuth_round-lt g c)
      (knuth_round-lt h c) e)

knuth_loop_differs :
    (pre post : List ℕ) (c d h : ℕ)
    → h < 2 ^ 64
    → c < 2 ^ 8
    → d < 2 ^ 8
    → knuth_loop (pre ++ c ∷ post) h ≡ knuth_loop (pre ++ d ∷ post) h
    → c ≡ d
unfolding knuth_loop
knuth_loop_differs [] post c d h sh sc sd e = knuth_round_injective_byte h c d sh sc sd (
    knuth_loop_injective_state post (knuth_round h c) (knuth_round h d) (knuth_round-lt h c)
      (knuth_round-lt h d) e)
knuth_loop_differs (x ∷ pre) post c d h sh sc sd e =
    knuth_loop_differs pre post c d (knuth_round h x) (knuth_round-lt h x) sc sd e

-- Two keys of bytes that differ in exactly one place have different hashes.
pub hash_distinct :
    (pre post : List ℕ) (c d : ℕ)
    → c < 2 ^ 8
    → d < 2 ^ 8
    → c ≢ d
    → hash (pre ++ c ∷ post) ≢ hash (pre ++ d ∷ post)
unfolding hash knuth_hash
hash_distinct pre post c d sc sd ne e =
    ne (knuth_loop_differs pre post c d 3074457345618258791 (omega arith) sc sd e)
