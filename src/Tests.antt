-- ===== src/Tests.antt =====
-- Concrete inputs, at which the theorems are applied.
pub mod Data
pub mod Stubs
pub mod Branches
pub mod Instructions
pub mod Tables
pub mod Objects
pub mod Slots
pub mod Archives
pub mod Loading
pub mod Names
