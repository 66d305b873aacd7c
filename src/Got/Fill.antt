-- ===== src/Got/Fill.antt =====
-- What `fill_got` does to one symbol.
use liblink.Base.{ℕ, ◌≡◌, ◌≢◌, List, true, arith, exit_success, ◌==◌, if◌then◌else◌}
use liblink.Memory.{Memory}
use liblink.Types.{SymbolStore}
use liblink.Linker.{Linker, lookup_symbol_}
use liblink.Got.{need_got_slot, fill_slot, fill_symbol}

-- Where the body of the loop of `fill_got` succeeds on a symbol that needs a slot, the symbol has an
-- address and a slot, and the address is stored in the slot. A symbol that had an address keeps it, and
-- one that had none has got that of the symbol table or of the process. No other symbol changes.
pub fill_symbol_lem :
    (dlsym : List ℕ → ℕ) (store : Memory → ℕ → ℕ → Memory) (l : Linker) (syms : SymbolStore) (p : ℕ)
    (m : Memory)
    → need_got_slot (syms p).elf_sym ≡ true
    → (fill_symbol dlsym store l syms p m).status ≡ exit_success
    → ((fill_symbol dlsym store l syms p m).memory
        ≡ store m (syms p).got_addr ((fill_symbol dlsym store l syms p m).symbols p).addr)
      × ((syms p).got_addr ≢ 0)
      × (((fill_symbol dlsym store l syms p m).symbols p).addr ≢ 0)
      × ((fill_symbol dlsym store l syms p m).symbols p ≡ record (syms p) {
        addr =
            if (syms p).addr == 0 then lookup_symbol_ dlsym l syms (syms p).name else (syms p).addr;
      })
      × ((q : ℕ) → q ≢ p → (fill_symbol dlsym store l syms p m).symbols q ≡ syms q)
unfolding fill_symbol fill_slot
fill_symbol_lem dlsym store l syms p m need done = ground arith
