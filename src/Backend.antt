-- ===== src/Backend.antt =====
-- backend/.
pub mod Offsets
pub mod Asm
pub mod Writer
mod Tests
