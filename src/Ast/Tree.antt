-- ===== src/Ast/Tree.antt =====
-- ast/ast.h: expressions and statements, as the passes behind the type checker meet them. Tokens are
-- kept where a pass reads their type. `name` stands for a local variable. An `i32` is its 32-bit
-- pattern.
use joosc.Ast.Ids.{TypeId, simple, null_base, bool_base, char_base}
use joosc.Common.{ℕ, Bool, Option, List}
use joosc.Lexer.TokenType.{TokenType}

pub data Expr : Type 0 where
  null_lit : Expr
  bool_lit : Bool → Expr
  int_lit : ℕ → TypeId → Expr
  char_lit : ℕ → Expr
  string_lit : List ℕ → TypeId → Expr
  name : ℕ → TypeId → Expr
  bin : Expr → TokenType → Expr → TypeId → Expr
  unary : TokenType → Expr → TypeId → Expr
  cast : Expr → TypeId → Expr
  const : Expr → Expr → Expr

-- `GetTypeId`.
unfoldable pub type_of : Expr → TypeId
type_of null_lit = simple null_base
type_of (bool_lit b) = simple bool_base
type_of (int_lit n t) = t
type_of (char_lit c) = simple char_base
type_of (string_lit s t) = t
type_of (name v t) = t
type_of (bin l op r t) = t
type_of (unary op r t) = t
type_of (cast e t) = t
type_of (const constant original) = type_of constant

-- A condition or an update that may be left out, and the value of a `return`.
mutual
  pub data Stmt : Type 0 where
    empty : Stmt
    local_decl : ℕ → Expr → Stmt
    return : Option Expr → Stmt
    expression : Expr → Stmt
    block : Stmts → Stmt
    if_else : Expr → Stmt → Stmt → Stmt
    for_loop : Stmt → Option Expr → Option Expr → Stmt → Stmt
    while_loop : Expr → Stmt → Stmt

  pub data Stmts : Type 0 where
    nil : Stmts
    cons : Stmt → Stmts → Stmts
