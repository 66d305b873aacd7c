-- ===== src/Linker/Refine/Step.antt =====
-- One insertion, by the linker and by the map.
use liblink.Base.{
  ℕ, ◌≡◌, ◌≢◌, ◌⊎◌, refl, ap, sym, ◌∙◌, inl, inr, true, false, Bool-cases, List, none, some,
  Option-cases, ◌==◌, ==_refl, if◌then◌else◌, arith, Outcome, ok, fail, Fault,
}
use mathlib.Core.Path.{subst}
use liblink.Types.{ObjectCode, ElfSymbol, SymbolStore}
use liblink.BinaryTree.{Tree, binary_tree_lookup}
use liblink.BinaryTree.Lookup.{lookup-insert}
use liblink.BinaryTree.Placed.{insert_duplicate}
use liblink.Linker.{
  GlobalSymbol, Linker, Inserted, write_symbol, insert_strong, insert_global_symbol,
  lookup_global_symbol,
}
use liblink.Linker.Refine.{SymbolMap, spec_enter, spec_insert, inserted, Represents, IsUnshared}

read_none :
    (t : Tree GlobalSymbol) (syms : SymbolStore) (h : ℕ)
    → binary_tree_lookup t h ≡ none
    → lookup_global_symbol t syms h ≡ none
unfolding lookup_global_symbol
read_none t syms h missing = rw (missing, lookup_global_symbol) refl

read_some :
    (t : Tree GlobalSymbol) (syms : SymbolStore) (h : ℕ) (s : GlobalSymbol)
    → binary_tree_lookup t h ≡ some s
    → lookup_global_symbol t syms h ≡ some (syms s.symbol).addr
unfolding lookup_global_symbol
read_some t syms h s found = rw (found, lookup_global_symbol) refl

module _ (t t' : Tree GlobalSymbol) (syms syms' : SymbolStore) (k v : ℕ) (g : GlobalSymbol)
    (reads : (h : ℕ)
      → binary_tree_lookup t' h ≡ (if h == k then some g else binary_tree_lookup t h))
    (others : (q : ℕ) → q ≢ g.symbol → syms' q ≡ syms q)
    (addressed : (syms' g.symbol).addr ≡ v) where
  lookup_entered :
      ((h : ℕ) (s : GlobalSymbol) → binary_tree_lookup t h ≡ some s → s.symbol ≢ g.symbol)
      → (h : ℕ)
      → lookup_global_symbol t' syms' h ≡ (if h == k then some v else lookup_global_symbol t syms h)
  lookup_entered unshared h = elim (Bool-cases (h == k)) [
    | inl same ↦ rw same (read_some t' syms' h g (reads h ∙ rw same refl) ∙ ap some addressed)
    | inr other ↦ elim (Option-cases (binary_tree_lookup t h)) [
      | inl missing ↦
          rw other
            (read_none t' syms' h (reads h ∙ rw other missing) ∙ sym (read_none t syms h missing))
      | inr (s, found) ↦ rw other (
          read_some t' syms' h s (reads h ∙ rw other found)
          ∙ ap (λ (x : ElfSymbol). some x.addr) (others s.symbol (unshared h s found))
          ∙ sym (read_some t syms h s found))
    ]
  ]

  -- Later symbols stay unshared.
  IsUnshared-entered :
      (objects : List ObjectCode) (q : ℕ)
      → q ≢ g.symbol
      → IsUnshared (record { gsyms = t; objects = objects }) q
      → IsUnshared (record { gsyms = t'; objects = objects }) q
  IsUnshared-entered objects q ne unshared h s found = elim (Bool-cases (h == k)) [
    | inl same ↦
        let entry : some g ≡ some s = sym (reads h ∙ rw same refl) ∙ found in
        λ e. ne (cc (e, entry))
    | inr other ↦ unshared h s (sym (reads h ∙ rw other refl) ∙ found)
  ]

-- What an insertion leaves, by the linker and by the map.
pub record Entered (l : Linker) (syms : SymbolStore) (p : ℕ) (r : Inserted) (a : SymbolMap)
    : Type 0 where
  pub represents : Represents r.linker r.symbols a
  pub others : (q : ℕ) → q ≢ p → r.symbols q ≡ syms q
  pub unshared : (q : ℕ) → q ≢ p → IsUnshared l q → IsUnshared r.linker q

-- Both stop with the same fault, or both go on.
abbrev pub Agree : Linker → SymbolStore → ℕ → Outcome Inserted → Outcome SymbolMap → Type 0
Agree l syms p x y =
    ((why : Fault) × (x ≡ fail why) × (y ≡ fail why))
    ⊎ ((r : Inserted) × (a : SymbolMap) × (x ≡ ok r) × (y ≡ ok a) × Entered l syms p r a)

insert_strong-Agree :
    (l : Linker) (syms syms' : SymbolStore) (a : SymbolMap) (g : GlobalSymbol) (v : ℕ)
    → g.is_weak ≡ false
    → ((q : ℕ) → q ≢ g.symbol → syms' q ≡ syms q)
    → (syms' g.symbol).addr ≡ v
    → Represents l syms a
    → IsUnshared l g.symbol
    → Agree l syms g.symbol (insert_strong l g syms') (spec_enter a (syms' g.symbol).hash v)
unfolding insert_strong spec_enter
insert_strong-Agree l syms syms' a g v strong others addressed rep unshared =
    let k = (syms' g.symbol).hash in
    elim (Option-cases (binary_tree_lookup l.gsyms k)) [
      | inr (other, found) ↦
          let known : a k ≡ some (syms other.symbol).addr =
            sym (rep k) ∙ read_some l.gsyms syms k other found in
          inl (
            Fault.aborted,
            rw (insert_duplicate l.gsyms k g other found, strong) refl,
            rw (known, spec_enter) refl,
          )
      | inl missing ↦
          let new : a k ≡ none = sym (rep k) ∙ read_none l.gsyms syms k missing in
          let (t', inserted, reads) = lookup-insert l.gsyms k g missing in
          inr (
            record { linker = record l { gsyms = t' }; symbols = syms'; result = true },
            (λ h. if h == k then some v else a h),
            rw (inserted, strong) refl,
            rw (new, spec_enter) refl,
            record {
              represents = λ h.
                  lookup_entered l.gsyms t' syms syms' k v g reads others addressed unshared h
                  ∙ ap (λ o. if h == k then some v else o) (rep h);
              others = others;
              unshared = λ q ne old.
                  IsUnshared-entered l.gsyms t' syms syms' k v g reads others addressed l.objects q
                    ne old;
            },
          )
    ]

module _ (dlsym : List ℕ → ℕ) where
  pub insert_global_symbol-Agree :
      (l : Linker) (syms : SymbolStore) (a : SymbolMap) (g : GlobalSymbol)
      → Represents l syms a
      → IsUnshared l g.symbol
      → Agree l syms g.symbol
          (insert_global_symbol dlsym l g syms)
          (spec_insert dlsym a (syms g.symbol) g.is_weak)
  unfolding insert_global_symbol spec_insert
  insert_global_symbol-Agree l syms a g rep unshared =
      let p = g.symbol in
      let v = dlsym (syms p).name in
      let syms' = write_symbol syms p (record (syms p) { addr = v }) in
      let here : syms' p ≡ record (syms p) { addr = v } = rw (==_refl p) refl in
      let strong =
        insert_strong-Agree l syms syms a (record g { is_weak = false }) (syms p).addr refl
          (λ q ne. refl) refl rep unshared in
      let weak =
        insert_strong-Agree l syms syms' a (record g { is_weak = false }) v refl
          (λ q ne. ground arith) (ap (λ (s : ElfSymbol). s.addr) here) rep unshared in
      elim (Bool-cases g.is_weak) [
        | inr plain ↦ rw plain strong
        | inl is_weak ↦ elim (Bool-cases ((syms p).addr == 0)) [
          | inl unset ↦ inl (Fault.assertion, rw (is_weak, unset) refl, rw (is_weak, unset) refl)
          | inr set ↦ elim (Bool-cases (v == 0)) [
            | inl unknown ↦ inl (
              Fault.assertion,
              rw (is_weak, set, unknown, unknown) refl,
              rw (is_weak, set, unknown) refl,
            )
            | inr known ↦
                rw (is_weak, set, known, known)
                  (subst
                    (λ (s : ElfSymbol).
                      Agree l syms p (insert_strong l (record g { is_weak = false }) syms')
                        (spec_enter a s.hash v))
                    here weak)
          ]
        ]
      ]
