-- ===== src/Coreutils.antt =====
-- The package `coreutils`: text utilities over data that is already in memory.
pub mod Lines
pub mod Text
pub mod Runes
pub mod Sorting
pub mod Search
pub mod Command
pub mod Names
