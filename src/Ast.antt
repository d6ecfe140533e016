-- ===== src/Ast.antt =====
-- ast/: what the later passes share of the syntax tree.
pub mod Ids
pub mod Tree
pub mod Modifiers
