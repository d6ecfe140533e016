-- ===== src/Lexer.antt =====
-- lexer/.
pub mod TokenType
pub mod Chars
pub mod State
pub mod Step
pub mod Literals
pub mod Run
pub mod Lexeme
pub mod Loops
pub mod Scan
pub mod Comments
pub mod Quoted
pub mod Starting
pub mod Sound
pub mod Symbols
pub mod Tables
pub mod Escapes
pub mod Converted
pub mod Operators
pub mod Passes
mod Tests
