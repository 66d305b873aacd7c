-- ===== src/Target.antt =====
-- elf/target.h: what `ADD_SUFFIX` selects. The build is for one architecture, whose names carry its
-- suffix; code that goes by such a name takes this record.
use liblink.Base.{ℕ, Bool}
use liblink.Memory.{Memory}
use liblink.Types.{ElfRel, ElfRela, Stub}

pub record Target : Type 0 where
  -- The width of `addr_t` and `size_t`.
  pub addr_bits : ℕ
  pub stub_size : ℕ
  pub need_stub_for_rel : ElfRel → Bool
  pub need_stub_for_rela : ElfRela → Bool
  pub make_stub : Stub → Memory → Memory × Bool
