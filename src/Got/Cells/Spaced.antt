-- ===== src/Got/Cells/Spaced.antt =====
-- The distances of the slots that `make_got` (elf/got.c) gives.
use liblink.Base.{
  Each, map-Each, zip-Each, Distinct, ℕ, ◌+◌, ◌*◌, ◌≡◌, ◌≢◌, ◌≤◌, ◌⊎◌, refl, ap, ◌∙◌, sym, true,
  false, Bool-cases, inl, inr, List, [], ◌∷◌, arith,
}
use mathlib.Core.Path.{subst}
use liblink.Types.{ElfSymbol, SymbolStore}
use liblink.Linker.{write_symbol}
use liblink.Got.{need_got_slot}
use liblink.Got.Cells.{assign_list}

abbrev pub Apart : ℕ → ℕ → ℕ → Type 0
Apart w a b = (a + w ≤ b) ⊎ (b + w ≤ a)

-- The word at `a` overlaps no slot of the symbol `q`.
abbrev pub IsFree : ℕ → SymbolStore → ℕ → ℕ → Type 0
IsFree w syms a q = ((syms q).got_addr ≡ 0) ⊎ Apart w a (syms q).got_addr

abbrev pub Spaced : ℕ → SymbolStore → List ℕ → Type 0
Spaced w syms [] = Unit {0}
Spaced w syms (p ∷ ps) =
    (((syms p).got_addr ≡ 0) ⊎ Each (λ q. IsFree w syms (syms p).got_addr q) ps) × Spaced w syms ps

-- A symbol with a slot needs one.
abbrev pub HasNeeded : SymbolStore → ℕ → Type 0
HasNeeded syms q = (need_got_slot (syms q).elf_sym ≡ true) ⊎ ((syms q).got_addr ≡ 0)

module _ (w start : ℕ) where
  assign_list_frame :
      (syms : SymbolStore) (ps : List ℕ) (slot q : ℕ)
      → Each (λ p. p ≢ q) ps
      → assign_list w start syms ps slot q ≡ syms q
  unfolding assign_list
  assign_list_frame syms [] slot q other = refl
  assign_list_frame syms (p ∷ ps) slot q other = ground (
    arith,
    assign_list_frame syms ps slot q other.1,
    assign_list_frame (write_symbol syms p (record (syms p) { got_addr = start + slot * w })) ps
        (slot + 1) q other.1,
  )

  -- The slots of a list that had none start at number `slot`.
  abbrev pub IsSlot : SymbolStore → ℕ → ℕ → Type 0
  IsSlot syms slot q =
      HasNeeded syms q × (((syms q).got_addr ≡ 0) ⊎ (start + slot * w ≤ (syms q).got_addr))

  pub assign_list-Spaced :
      (syms : SymbolStore) (ps : List ℕ) (slot : ℕ)
      → Distinct ps
      → Each (λ p. (syms p).got_addr ≡ 0) ps
      → Spaced w (assign_list w start syms ps slot) ps
        × Each (IsSlot (assign_list w start syms ps slot) slot) ps
  unfolding assign_list
  assign_list-Spaced syms [] slot distinct none = (tt, tt)
  assign_list-Spaced syms (p ∷ ps) slot distinct none =
      let step_need : need_got_slot (syms p).elf_sym ≡ true
          → assign_list w start syms (p ∷ ps) slot
            ≡ assign_list w start
                (write_symbol syms p (record (syms p) { got_addr = start + slot * w })) ps
                (slot + 1) =
        λ e. rw e refl in
      let step_skip : need_got_slot (syms p).elf_sym ≡ false
          → assign_list w start syms (p ∷ ps) slot ≡ assign_list w start syms ps slot =
        λ e. rw e refl in
      elim (Bool-cases (need_got_slot (syms p).elf_sym)) [
        | inl need ↦
            let syms1 = write_symbol syms p (record (syms p) { got_addr = start + slot * w }) in
            let out = assign_list w start syms1 ps (slot + 1) in
            let (spaced, slots) =
              assign_list-Spaced syms1 ps (slot + 1) distinct.1
                (zip-Each ps (λ q ne zero_slot. ground arith) distinct.0 none.1) in
            let here : out p ≡ record (syms p) { got_addr = start + slot * w } =
              assign_list_frame syms1 ps (slot + 1) p distinct.0 ∙ ground arith in
            let slot_here : (out p).got_addr ≡ start + slot * w =
              ap (λ (s : ElfSymbol). s.got_addr) here in
            let needed : need_got_slot (out p).elf_sym ≡ true =
              ap (λ (s : ElfSymbol). need_got_slot s.elf_sym) here ∙ need in
            let apart =
              map-Each {P = IsSlot out (slot + 1)} {Q = IsFree w out (out p).got_addr} ps
                (λ q is. elim is.1 [
                  | inl zero_slot ↦ inl zero_slot
                  | inr above ↦ inr (inl (grind (arith, slot_here)))
                ])
                slots in
            let lower =
              map-Each {P = IsSlot out (slot + 1)} {Q = IsSlot out slot} ps
                (λ q is. (
                  is.0,
                  elim is.1 [ inl zero_slot ↦ inl zero_slot | inr above ↦ inr (grind arith) ],
                ))
                slots in
            subst (λ f. Spaced w f (p ∷ ps) × Each (IsSlot f slot) (p ∷ ps)) (sym (step_need need))
              ((inr apart, spaced), ((inl needed, inr (omega (arith, slot_here))), lower))
        | inr skip ↦
            let (spaced, slots) = assign_list-Spaced syms ps slot distinct.1 none.1 in
            let here : assign_list w start syms ps slot p ≡ syms p =
              assign_list_frame syms ps slot p distinct.0 in
            let zero_here = ap (λ (s : ElfSymbol). s.got_addr) here ∙ none.0 in
            subst (λ f. Spaced w f (p ∷ ps) × Each (IsSlot f slot) (p ∷ ps)) (sym (step_skip skip))
              ((inl zero_here, spaced), ((inr zero_here, inl zero_here), slots))
      ]

  pub assign_list_addr :
      (syms : SymbolStore) (ps : List ℕ) (slot q : ℕ)
      → (assign_list w start syms ps slot q).addr ≡ (syms q).addr
  unfolding assign_list
  assign_list_addr syms [] slot q = refl
  assign_list_addr syms (p ∷ ps) slot q = ground (
    arith,
    assign_list_addr syms ps slot q,
    assign_list_addr (write_symbol syms p (record (syms p) { got_addr = start + slot * w })) ps
        (slot + 1) q,
  )

pub Spaced-unslotted :
    (w : ℕ) (syms : SymbolStore) (ps : List ℕ)
    → Each (λ p. (syms p).got_addr ≡ 0) ps
    → Spaced w syms ps
Spaced-unslotted w syms [] none = tt
Spaced-unslotted w syms (p ∷ ps) none = (inl none.0, Spaced-unslotted w syms ps none.1)
