-- ===== src/Got/Slots.antt =====
-- The slots that the symbols of a table get.
use liblink.Base.{ℕ, zero, suc, ◌+◌, ◌*◌, ◌≡◌, ◌<◌, refl, if◌then◌else◌, arith}
use liblink.Types.{ElfSymbol, SymbolStore}
use liblink.Linker.{write_symbol}
use liblink.Got.{need_got_slot, assign_symbols}

-- How many of the `n` symbols from `p` on need a slot.
pub slots_in : SymbolStore → ℕ → ℕ → ℕ
slots_in syms p zero = 0
slots_in syms p (suc n) =
    (if need_got_slot (syms p).elf_sym then 1 else 0) + slots_in syms (p + 1) n

-- Symbols below `p` are left alone.
assign_symbols_below :
    (w start : ℕ) (syms : SymbolStore) (p n slot q : ℕ)
    → q < p
    → (assign_symbols w start syms p n slot).0 q ≡ syms q
unfolding assign_symbols
assign_symbols_below w start syms p zero slot q lt = refl
assign_symbols_below w start syms p (suc n) slot q lt = ground (
  arith,
  assign_symbols_below w start syms (p + 1) n slot q,
  assign_symbols_below w start
      (write_symbol syms p (record (syms p) { got_addr = start + slot * w })) (p + 1) n (slot + 1)
      q,
)

slots_in-write :
    (n q p : ℕ) (syms : SymbolStore) (s : ElfSymbol)
    → q < p
    → slots_in (write_symbol syms q s) p n ≡ slots_in syms p n
unfolding slots_in
slots_in-write zero q p syms s lt = refl
slots_in-write (suc n) q p syms s lt = ground (arith, slots_in-write n q (p + 1) syms s)

assign_symbols_next :
    (w start : ℕ) (syms : SymbolStore) (p n slot : ℕ)
    → (assign_symbols w start syms p n slot).1 ≡ slot + slots_in syms p n
unfolding assign_symbols slots_in
assign_symbols_next w start syms p zero slot = omega arith
assign_symbols_next w start syms p (suc n) slot =
    let s = record (syms p) { got_addr = start + slot * w } in
    ground (
      arith,
      assign_symbols_next w start syms (p + 1) n slot,
      assign_symbols_next w start (write_symbol syms p s) (p + 1) n (slot + 1),
      slots_in-write n p (p + 1) syms s,
    )

-- The symbol at `q`, with its slot if it needs one.
abbrev slotted : ℕ → ℕ → SymbolStore → ℕ → ℕ → ElfSymbol
slotted w start syms q slot =
    if need_got_slot (syms q).elf_sym
    then record (syms q) { got_addr = start + slot * w }
    else syms q

assign_symbols_each :
    (w start : ℕ) (syms : SymbolStore) (p n slot i : ℕ)
    → i < n
    → (assign_symbols w start syms p n slot).0 (p + i)
      ≡ slotted w start syms (p + i) (slot + slots_in syms p i)
unfolding assign_symbols slots_in
assign_symbols_each w start syms p zero slot i lt = absurd (omega arith)
assign_symbols_each w start syms p (suc n) slot zero lt =
    let s = record (syms p) { got_addr = start + slot * w } in
    ground (
      arith,
      assign_symbols_below w start syms (p + 1) n slot p,
      assign_symbols_below w start (write_symbol syms p s) (p + 1) n (slot + 1) p,
    )
assign_symbols_each w start syms p (suc n) slot (suc i) lt =
    let s = record (syms p) { got_addr = start + slot * w } in
    let same : p + suc i ≡ p + 1 + i = omega arith in
    ground (
      arith,
      same,
      assign_symbols_each w start syms (p + 1) n slot i,
      assign_symbols_each w start (write_symbol syms p s) (p + 1) n (slot + 1) i,
      slots_in-write i p (p + 1) syms s,
    )

-- The loop of `make_got` over the symbols of a table gives those that need one consecutive slots, in
-- their order and from `slot` on; it changes no other symbol of the table, and it returns the next
-- slot that is free.
pub assign_symbols_lem :
    (w start : ℕ) (syms : SymbolStore) (p n slot : ℕ)
    → ((i : ℕ)
        → i < n
        → (assign_symbols w start syms p n slot).0 (p + i) ≡ (
            if need_got_slot (syms (p + i)).elf_sym
            then record (syms (p + i)) { got_addr = start + (slot + slots_in syms p i) * w }
            else syms (p + i)))
      × ((assign_symbols w start syms p n slot).1 ≡ slot + slots_in syms p n)
assign_symbols_lem w start syms p n slot = (
  (λ i lt. assign_symbols_each w start syms p n slot i lt),
  assign_symbols_next w start syms p n slot,
)
