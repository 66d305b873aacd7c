-- ===== src/Elf.antt =====
-- Elf.c: from the image of an object to relocated sections.
pub mod Format
pub mod Init
pub mod Sections
pub mod Symbols
pub mod Protect
pub mod Platform
pub mod Process
