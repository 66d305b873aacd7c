-- ===== src/Base/Bits.antt =====
-- `&` and `|` at variables, as arithmetic: both act on the two parts of a split word, and a mask of
-- low bits is a remainder.
mod Step
mod Split
pub use Step.{bit_and-zero, bit_or-zero}
pub use Split.*
