-- ===== src/Transfers/Laws.antt =====
-- The laws of the commands on imports.
mod Effects
mod Principle
pub mod Final
mod Birth
pub mod Sealed
pub mod Progress
pub mod Race
pub mod Bounds
