-- ===== src/Got/Cells/Filling.antt =====
-- The contents of the slots behind `fill_got` (elf/got.c).
use liblink.Base.{
  Each, map-Each, Distinct, ℕ, ◌≡◌, ◌⊎◌, refl, ap, ◌∙◌, sym, true, false, Bool-cases, inl, inr,
  List, [], ◌∷◌, arith, exit_success,
}
use mathlib.Core.Path.{subst}
use liblink.Memory.{Memory}
use liblink.Memory.Words.{Words}
use liblink.Types.{ElfSymbol, SymbolStore}
use liblink.Linker.{Linker}
use liblink.Got.{Filled, need_got_slot, fill_symbol}
use liblink.Got.Fill.{fill_symbol_lem}
use liblink.Got.Cells.{fill_list}
use liblink.Got.Cells.Spaced.{IsFree, Spaced, HasNeeded}
use liblink.Got.Cells.Kept.{
  IsCanonical, AllCanonical, SameSlots, fill_symbol-SameSlots, fill_symbol-AllCanonical,
  fill_list_others,
}

-- The slot of `q`, if it has one, holds the address of `q`.
abbrev pub IsFilled : (Memory → ℕ → ℕ) → Memory → SymbolStore → ℕ → Type 0
IsFilled load m syms q = ((syms q).got_addr ≡ 0) ⊎ (load m (syms q).got_addr ≡ (syms q).addr)

IsFree-same :
    (w : ℕ) (syms base : SymbolStore) (a : ℕ)
    → SameSlots syms base
    → (q : ℕ) → IsFree w base a q
    → IsFree w syms a q
IsFree-same w syms base a same q free = ground (arith, (same q).0)

Spaced-same :
    (w : ℕ) (syms base : SymbolStore) (ps : List ℕ)
    → SameSlots syms base
    → Spaced w base ps
    → Spaced w syms ps
Spaced-same w syms base [] same h = tt
Spaced-same w syms base (p ∷ ps) same h = (
  elim h.0 [
    | inl zero_slot ↦ inl ((same p).0 ∙ zero_slot)
    | inr apart ↦ inr (
        map-Each ps
          (λ q free.
            subst (λ a. IsFree w syms a q) (sym (same p).0)
              (IsFree-same w syms base (base p).got_addr same q free))
          apart)
  ],
  Spaced-same w syms base ps same h.1,
)

HasNeeded-same :
    (syms base : SymbolStore) → SameSlots syms base → (q : ℕ) → HasNeeded base q → HasNeeded syms q
HasNeeded-same syms base same q needed = elim needed [
  | inl need ↦ inl (ap need_got_slot (same q).1 ∙ need)
  | inr zero_slot ↦ inr ((same q).0 ∙ zero_slot)
]

module _ (w bits : ℕ) (load : Memory → ℕ → ℕ) (store : Memory → ℕ → ℕ → Memory)
    (words : Words w bits load store) (dlsym : List ℕ → ℕ)
    (known : (name : List ℕ) → IsCanonical bits (dlsym name)) (l : Linker) where
  fill_symbol_skips :
      (syms : SymbolStore) (p : ℕ) (m : Memory)
      → need_got_slot (syms p).elf_sym ≡ false
      → (fill_symbol dlsym store l syms p m).memory ≡ m
  unfolding fill_symbol
  fill_symbol_skips syms p m skip = rw skip refl

  fill_symbol_load :
      (syms : SymbolStore) (p : ℕ) (m : Memory) (a : ℕ)
      → (fill_symbol dlsym store l syms p m).status ≡ exit_success
      → IsFree w syms a p
      → load (fill_symbol dlsym store l syms p m).memory a ≡ load m a
  fill_symbol_load syms p m a done free = elim (Bool-cases (need_got_slot (syms p).elf_sym)) [
    | inl need ↦
        let (written, slot, addressed, own, rest) =
          fill_symbol_lem dlsym store l syms p m need done in
        let f = fill_symbol dlsym store l syms p m in
        ap (λ g. load g a) written
        ∙ words.load-store_ne m (syms p).got_addr (f.symbols p).addr a
            (elim free [ inl zero_slot ↦ absurd (slot zero_slot) | inr apart ↦ apart ])
    | inr skip ↦ ap (λ g. load g a) (fill_symbol_skips syms p m skip)
  ]

  fill_symbol-IsFilled :
      (syms : SymbolStore) (p : ℕ) (m : Memory)
      → (fill_symbol dlsym store l syms p m).status ≡ exit_success
      → HasNeeded syms p
      → AllCanonical bits syms
      → IsFilled load
          (fill_symbol dlsym store l syms p m).memory
          (fill_symbol dlsym store l syms p m).symbols
          p
  fill_symbol-IsFilled syms p m done needed all =
      let f = fill_symbol dlsym store l syms p m in
      let slot_same = (fill_symbol-SameSlots dlsym store l syms p m p).0 in
      elim needed [
        | inl need ↦
            let (written, slot, addressed, own, rest) =
              fill_symbol_lem dlsym store l syms p m need done in
            inr (
              ap (load f.memory) slot_same
              ∙ ap (λ g. load g (syms p).got_addr) written
              ∙ words.load-store m (syms p).got_addr (f.symbols p).addr
                  (fill_symbol-AllCanonical dlsym store l bits known syms p m all p).0)
        | inr zero_slot ↦ inl (slot_same ∙ zero_slot)
      ]

  fill_list_first :
      (syms : SymbolStore) (p : ℕ) (ps : List ℕ) (m : Memory)
      → (fill_list dlsym store l syms (p ∷ ps) m).status ≡ exit_success
      → ((fill_symbol dlsym store l syms p m).status ≡ exit_success)
        × (fill_list dlsym store l syms (p ∷ ps) m
            ≡ fill_list dlsym store l
                (fill_symbol dlsym store l syms p m).symbols
                ps
                (fill_symbol dlsym store l syms p m).memory)
  unfolding fill_list
  fill_list_first syms p ps m done =
      let f = fill_symbol dlsym store l syms p m in
      elim (Bool-cases f.status) [
        | inl failed ↦
            let stopped : (fill_list dlsym store l syms (p ∷ ps) m).status ≡ true =
              rw failed refl in
            cc
        | inr fine ↦ (fine, rw fine refl)
      ]

  fill_list_load :
      (syms : SymbolStore) (ps : List ℕ) (m : Memory) (a : ℕ)
      → (fill_list dlsym store l syms ps m).status ≡ exit_success
      → Each (IsFree w syms a) ps
      → load (fill_list dlsym store l syms ps m).memory a ≡ load m a
  unfolding fill_list
  fill_list_load syms [] m a done free = refl
  fill_list_load syms (p ∷ ps) m a done free =
      let f = fill_symbol dlsym store l syms p m in
      ground (
        arith,
        fill_symbol_load syms p m a,
        fill_list_load f.symbols ps f.memory a,
        map-Each ps (IsFree-same w f.symbols syms a (fill_symbol-SameSlots dlsym store l syms p m))
            free.1,
      )

  pub fill_list-IsFilled :
      (syms : SymbolStore) (ps : List ℕ) (m : Memory)
      → (fill_list dlsym store l syms ps m).status ≡ exit_success
      → Distinct ps
      → Spaced w syms ps
      → Each (HasNeeded syms) ps
      → AllCanonical bits syms
      → Each
          (IsFilled load
            (fill_list dlsym store l syms ps m).memory
            (fill_list dlsym store l syms ps m).symbols)
          ps
  fill_list-IsFilled syms [] m done distinct spaced needed all = tt
  fill_list-IsFilled syms (p ∷ ps) m done distinct spaced needed all =
      let f = fill_symbol dlsym store l syms p m in
      let (first, step) = fill_list_first syms p ps m done in
      let same = fill_symbol-SameSlots dlsym store l syms p m in
      let last = fill_list dlsym store l f.symbols ps f.memory in
      let finished : last.status ≡ exit_success = ap (λ (x : Filled). x.status) (sym step) ∙ done in
      let rest =
        fill_list-IsFilled f.symbols ps f.memory finished distinct.1
          (Spaced-same w f.symbols syms ps same spaced.1)
          (map-Each ps (HasNeeded-same f.symbols syms same) needed.1)
          (fill_symbol-AllCanonical dlsym store l bits known syms p m all) in
      let own : last.symbols p ≡ f.symbols p =
        fill_list_others dlsym store l f.symbols ps f.memory p distinct.0 in
      let slots = Spaced-same w f.symbols syms (p ∷ ps) same spaced in
      let head : IsFilled load last.memory last.symbols p =
        subst (λ (s : ElfSymbol). (s.got_addr ≡ 0) ⊎ (load last.memory s.got_addr ≡ s.addr))
          (sym own)
          (elim (fill_symbol-IsFilled syms p m first needed.0 all) [
            | inl zero_slot ↦ inl zero_slot
            | inr filled ↦ elim slots.0 [
              | inl zero_slot ↦ inl zero_slot
              | inr free ↦ inr (
                  fill_list_load f.symbols ps f.memory (f.symbols p).got_addr finished free
                  ∙ filled)
            ]
          ]) in
      subst (λ (x : Filled). Each (IsFilled load x.memory x.symbols) (p ∷ ps)) (sym step)
        (head, rest)
