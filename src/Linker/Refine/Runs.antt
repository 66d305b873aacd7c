-- ===== src/Linker/Refine/Runs.antt =====
-- Sequences of insertions and searches, by the linker and by the map.
use liblink.Base.{Each, zip-Each, Distinct, ℕ, ◌≡◌, refl, ◌∙◌, inl, inr, List, [], ◌∷◌, arith}
use liblink.Types.{SymbolStore}
use liblink.Hash.{hash}
use liblink.Linker.{Linker, lookup_global_symbol_, lookup_symbol_, lookup_system_symbols}
use liblink.Linker.Refine.{
  SymbolMap, Operation, insert, find, spec_find, spec_run, run, inserted, Represents, IsUnshared,
}
use liblink.Linker.Refine.Step.{insert_global_symbol-Agree}

module _ (dlsym : List ℕ → ℕ) where
  find-spec_find :
      (l : Linker) (syms : SymbolStore) (a : SymbolMap) (name : List ℕ)
      → Represents l syms a
      → lookup_symbol_ dlsym l syms name ≡ spec_find dlsym a name
  unfolding lookup_symbol_ lookup_global_symbol_ lookup_system_symbols spec_find
  find-spec_find l syms a name rep = ground (arith, rep (hash name))

  -- A linker answers a sequence of insertions and searches as a map from hashes to addresses does, of
  -- which it is the representation: with the same addresses, or with the same fault. The operations
  -- insert different symbols, to which no entry of the table points.
  pub run-spec_run :
      (ops : List Operation) (l : Linker) (syms base : SymbolStore) (a : SymbolMap)
      → Represents l syms a
      → Each (IsUnshared l) (inserted ops)
      → Distinct (inserted ops)
      → Each (λ p. syms p ≡ base p) (inserted ops)
      → run dlsym l syms ops ≡ spec_run dlsym base a ops
  unfolding run spec_run inserted
  run-spec_run [] l syms base a rep unshared distinct same = refl
  run-spec_run (find name ∷ ops) l syms base a rep unshared distinct same =
      rw
        (
          run-spec_run ops l syms base a rep unshared distinct same,
          find-spec_find l syms a name rep,
        )
        refl
  run-spec_run (insert g ∷ ops) l syms base a rep unshared distinct same =
      elim (insert_global_symbol-Agree dlsym l syms a g rep unshared.0) [
        | inl (why, stopped, spec_stopped) ↦ rw (stopped, ← same.0, spec_stopped) refl
        | inr (r, a', went, spec_went, next) ↦
            rw (went, ← same.0, spec_went)
              (run-spec_run ops r.linker r.symbols base a' next.represents
                (zip-Each (inserted ops) (λ q ne old. next.unshared q ne old) distinct.0 unshared.1)
                distinct.1
                (zip-Each (inserted ops) (λ q ne old. next.others q ne ∙ old) distinct.0 same.1))
      ]
