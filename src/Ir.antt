-- ===== src/Ir.antt =====
-- ir/.
pub mod Size
pub mod Stream
pub mod Builder
pub mod Script
mod Tests
