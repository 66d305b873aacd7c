-- ===== src/Reloc.antt =====
-- elf/reloc.c and elf/reloc/: applying the relocations of an object, per architecture.
-- `relocate_object_code` is `ADD_SUFFIX(relocate_object_code)`: that of the module of the target.
pub mod Util
pub mod Arm64
pub mod Arm
