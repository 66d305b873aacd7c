-- ===== src/Plt/Chain.antt =====
-- The chain of stubs of a section (elf/plt.c): where each stub stands and what its code does, kept
-- by `make_stub`, and read by `find_stub`.
pub mod Place
pub mod Lookup
pub mod Sequence
pub mod Free
pub mod Count
