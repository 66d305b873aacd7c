-- ===== src/Machine.antt =====
-- What the instructions mean that the linker writes or patches, from the encodings of the
-- architecture manuals (which the comments of the C code quote), in plain arithmetic: an independent
-- account against which the bit operations of the code are proved.
pub mod Arm64
pub mod Arm
