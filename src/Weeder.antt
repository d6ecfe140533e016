-- ===== src/Weeder.antt =====
-- weeder/.
pub mod Modifiers
pub mod IntRange
mod Tests
