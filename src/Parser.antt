-- ===== src/Parser.antt =====
-- parser/.
pub mod Precedence
mod Tests
