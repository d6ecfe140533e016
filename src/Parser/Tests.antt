-- ===== src/Parser/Tests.antt =====
-- `FixPrecedence` on a few operators.
use joosc.Common.{ℕ, ◌≡◌, refl, List, [], ◌∷◌, ok, thrown, Exn}
use joosc.Lexer.State.{Token}
use joosc.Lexer.TokenType.{TokenType, from_token_type}
use joosc.Parser.Precedence.{Expr, has_type, fix_precedence}
use joosc.Parser.Precedence.Ordered.{said, woven, Nested}
use joosc.Parser.Precedence.Sound.{fix_precedence-Nested}
use joosc.Parser.Precedence.Total.{fix_precedence_total}

abbrev token : TokenType → Token
token type = record { type = type; pos = record { fileid = 0; begin = 0; end = 1 } }

abbrev Tree : Type 0
Tree = Expr ℕ ℕ

-- a = b + c * d - e
abbrev operands : List Tree
operands = Expr.other 0 ∷ Expr.other 1 ∷ Expr.other 2 ∷ Expr.other 3 ∷ Expr.other 4 ∷ []

abbrev operators : List Token
operators =
    token TokenType.assg ∷ token TokenType.add ∷ token TokenType.mul ∷ token TokenType.sub ∷ []

abbrev tree : Tree
tree = Expr.bin (Expr.other 0) (token TokenType.assg) (
    Expr.bin
      (Expr.bin (Expr.other 1) (token TokenType.add)
        (Expr.bin (Expr.other 2) (token TokenType.mul) (Expr.other 3)))
      (token TokenType.sub) (Expr.other 4))

operands-tree : fix_precedence operands operators ≡ ok tree
unfolding fix_precedence
operands-tree = refl

fix_precedence-Nested_example : (said tree ≡ woven operands operators) × Nested tree
fix_precedence-Nested_example =
    fix_precedence-Nested operands operators tree (tt, (tt, (tt, (tt, (tt, tt))))) operands-tree

fix_precedence_total_example : (e : Tree) × (fix_precedence operands operators ≡ ok e)
unfolding from_token_type has_type
fix_precedence_total_example =
    fix_precedence_total operands operators (tt, (tt, (tt, (tt, (tt, tt)))))
      (
        (_, (refl, (refl, refl))),
        ((_, (refl, (refl, refl))), ((_, (refl, (refl, refl))), ((_, (refl, (refl, refl))), tt))),
      )
      refl

-- a instanceof T + b
type_operator :
    fix_precedence {A = ℕ} {T = ℕ}
      (Expr.other 0 ∷ Expr.pending_instance_of (token TokenType.k_instanceof) 7 ∷ Expr.other 1 ∷ [])
      (token TokenType.k_instanceof ∷ token TokenType.add ∷ [])
    ≡ thrown Exn.check_failed
unfolding fix_precedence
type_operator = refl
