-- ===== src/Types.antt =====
-- types/.
pub mod Conversions
pub mod Info
pub mod Symbols
pub mod Reachability
pub mod Folding
mod Tests
