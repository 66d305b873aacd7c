-- ===== src/Ar/Ends.antt =====
-- The rounds of `read_archive` (Ar.c), counted against the bytes of the file.
use liblink.Base.{
  ℕ, zero, suc, ◌+◌, ◌≤◌, ◌≡◌, ◌⊎◌, refl, sym, ap, inl, inr, true, false, Bool-cases, List, [],
  none, some, length, arith, Outcome, ok, fail, Fault,
}
use mathlib.Core.Path.{subst}
use liblink.Ar.Stdio.{fread}
use liblink.Ar.{Object, State, arch_magic, starts, read_step, read_loop, read_archive}
use liblink.Ar.Progress.{NoMinus, read_step-Later}

Outcome-cases :
    (x : Outcome State) → ((why : Fault) × (x ≡ fail why)) ⊎ ((st : State) × (x ≡ ok st))
Outcome-cases (ok st) = inr (st, refl)
Outcome-cases (fail why) = inl (why, refl)

read_loop_ends :
    (bits fuel : ℕ) (st : State)
    → 1 ≤ bits
    → NoMinus st.file.contents
    → (st.file.at_end ≡ true) × (1 ≤ fuel)
      ⊎ ((2 ≤ fuel) × (length st.file.contents + 2 ≤ fuel + st.file.pos))
    → (r : Outcome (List Object)) × (read_loop bits fuel st ≡ some r)
unfolding read_loop
read_loop_ends bits zero st lo clean enough = absurd (omega arith)
read_loop_ends bits (suc fuel) st lo clean enough = elim (Bool-cases st.file.at_end) [
  | inl done ↦ (ok st.objects, rw done refl)
  | inr going ↦ elim (Outcome-cases (read_step bits st)) [
    | inl (why, stopped) ↦ (fail why, rw (going, stopped, read_loop) refl)
    | inr (st', stepped) ↦
        let (same, moved) = read_step-Later bits st st' lo clean stepped in
        let (r, ends) =
          read_loop_ends bits fuel st' lo (subst NoMinus (sym same) clean)
            (ground (arith, ap length same)) in
        (r, rw (going, stepped, read_loop) ends)
  ]
]

-- A file in which no byte is a minus sign is read to an end, with two rounds of fuel more than it has bytes: the
-- result is a list of objects or a fault.
pub read_archive_ends :
    (bits fuel : ℕ) (contents : List ℕ)
    → 1 ≤ bits
    → NoMinus contents
    → length contents + 2 ≤ fuel
    → (r : Outcome (List Object)) × (read_archive bits fuel contents ≡ some r)
unfolding read_archive fread
read_archive_ends bits fuel contents lo clean enough =
    let tmp = (fread 8 (record { contents = contents; pos = 0; at_end = false })).0 in
    elim (Bool-cases (starts arch_magic tmp)) [
      | inr bad ↦ (fail Fault.aborted, rw bad refl)
      | inl good ↦
          let (r, ends) =
            read_loop_ends bits fuel
              (record {
                file = (fread 8 (record { contents = contents; pos = 0; at_end = false })).1;
                objects = [];
                sym_tab = none;
                name_tab = none;
              })
              lo clean (inr (omega arith, omega arith)) in
          (r, rw good ends)
    ]
