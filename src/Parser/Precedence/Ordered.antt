-- ===== src/Parser/Precedence/Ordered.antt =====
-- What a tree of binary operators says in the order of the source, and when its operators stand as their
-- precedences demand.
use joosc.Common.{
  ℕ, ◌≤◌, ◌<◌, ◌≡◌, Bool, true, false, Option, none, some, List, [], ◌∷◌, ◌++◌, ok, ok_injective,
  >>=-eq-ok, ltb, leb, ltb→lt, leb→le, if◌then◌else◌, arith,
}
use joosc.Lexer.State.{Token}
use joosc.Lexer.TokenType.{TokenType}
use joosc.Parser.Precedence.{Expr, binds, has_type, precedence}

-- An operand, the type behind an `instanceof`, or an operator.
pub data Item (A T : Type 0) : Type 0 where
  operand : A → Item A T
  tested : T → Item A T
  operator : Token → Item A T

module _ {A T : Type 0} where
  -- The operands, types and operators of a tree from left to right.
  unfoldable pub said : Expr A T → List (Item A T)
  said (Expr.other a) = Item.operand a ∷ []
  said (Expr.bin l op r) = said l ++ Item.operator op ∷ said r
  said (Expr.pending_instance_of op t) = Item.tested t ∷ []
  said (Expr.instance_of l op t) = said l ++ Item.operator op ∷ Item.tested t ∷ []

  -- The input in its order, from an operator on and from an operand on.
  unfoldable pub woven_after : List (Expr A T) → List Token → List (Item A T)
  unfolding said
  woven_after exprs [] = []
  woven_after [] (op ∷ ops) = Item.operator op ∷ []
  woven_after (e ∷ exprs) (op ∷ ops) = Item.operator op ∷ said e ++ woven_after exprs ops

  unfoldable pub woven : List (Expr A T) → List Token → List (Item A T)
  unfolding said woven_after
  woven [] ops = []
  woven (e ∷ exprs) ops = said e ++ woven_after exprs ops

  -- What the parser makes of a unary expression, or of the type behind an `instanceof`.
  abbrev pub IsOperand : Expr A T → Type 0
  IsOperand (Expr.other a) = Unit
  IsOperand (Expr.pending_instance_of op t) = Unit
  IsOperand _ = ⊥

  unfoldable pub root : Expr A T → Option Token
  root (Expr.other a) = none
  root (Expr.bin l op r) = some op
  root (Expr.pending_instance_of op t) = none
  root (Expr.instance_of l op t) = some op

  -- `e` may stand left of `op`: its operator binds at least as tight, for an assignment tighter.
  abbrev pub LeftOk : Token → Expr A T → Type 0
  LeftOk op e = (p : Token) → root e ≡ some p → binds op p ≡ ok false

  -- `e` may stand right of `op`: its operator binds tighter, for an assignment at least as tight.
  abbrev pub RightOk : Token → Expr A T → Type 0
  RightOk op e = (p : Token) → root e ≡ some p → binds p op ≡ ok true

  -- Every operator of the tree has sides that may stand there.
  unfoldable pub Ordered : Expr A T → Type 0
  unfolding has_type
  Ordered (Expr.other a) = Unit
  Ordered (Expr.pending_instance_of op t) = Unit
  Ordered (Expr.bin l op r) = (LeftOk op l × RightOk op r) × (Ordered l × Ordered r)
  Ordered (Expr.instance_of l op t) =
      (LeftOk op l × (has_type op TokenType.k_instanceof ≡ true)) × Ordered l

-- `p` may stand right of `q`: it binds tighter, or it is an assignment and binds as tight.
abbrev pub IsAbove : Bool → ℕ → ℕ → Type 0
IsAbove true n m = m ≤ n
IsAbove false n m = m < n

pub record Above (p q : Token) : Type 0 where
  pub prec : ℕ
  pub below_prec : ℕ
  pub known : precedence p ≡ ok prec
  pub below_known : precedence q ≡ ok below_prec
  pub above : IsAbove (has_type p TokenType.assg) prec below_prec

-- `q` may stand left of `p`: it binds as tight or tighter, for an assignment `p` tighter.
abbrev pub IsNotAbove : Bool → ℕ → ℕ → Type 0
IsNotAbove true n m = n < m
IsNotAbove false n m = n ≤ m

pub record NotAbove (p q : Token) : Type 0 where
  pub prec : ℕ
  pub below_prec : ℕ
  pub known : precedence p ≡ ok prec
  pub below_known : precedence q ≡ ok below_prec
  pub not_above : IsNotAbove (has_type p TokenType.assg) prec below_prec

above_or_not :
    (b : Bool) (n m : ℕ) (r : Bool)
    → (if b then leb m n else ltb m n) ≡ r
    → elim r as (λ _. Type 0) [ true ↦ IsAbove b n m | false ↦ IsNotAbove b n m ]
above_or_not true n m true h = leb→le m n h
above_or_not true n m false h = ground arith
above_or_not false n m true h = ltb→lt m n h
above_or_not false n m false h = ground arith

binds-Above : (p q : Token) → binds p q ≡ ok true → Above p q
unfolding binds
binds-Above p q h =
    let (n, known, rest) = >>=-eq-ok (precedence p) _ h in
    let (m, below_known, last) = >>=-eq-ok (precedence q) _ rest in
    record {
      prec = n;
      below_prec = m;
      known = known;
      below_known = below_known;
      above = above_or_not (has_type p TokenType.assg) n m true (ok_injective last);
    }

binds-NotAbove : (p q : Token) → binds p q ≡ ok false → NotAbove p q
unfolding binds
binds-NotAbove p q h =
    let (n, known, rest) = >>=-eq-ok (precedence p) _ h in
    let (m, below_known, last) = >>=-eq-ok (precedence q) _ rest in
    record {
      prec = n;
      below_prec = m;
      known = known;
      below_known = below_known;
      not_above = above_or_not (has_type p TokenType.assg) n m false (ok_injective last);
    }

module _ {A T : Type 0} where
  -- Every operator of the tree may have the operators at the roots of its sides.
  unfoldable pub Nested : Expr A T → Type 0
  Nested (Expr.other a) = Unit
  Nested (Expr.pending_instance_of op t) = Unit
  Nested (Expr.bin l op r) =
      (((p : Token) → root l ≡ some p → NotAbove op p)
        × ((p : Token) → root r ≡ some p → Above p op))
      × (Nested l × Nested r)
  Nested (Expr.instance_of l op t) = ((p : Token) → root l ≡ some p → NotAbove op p) × Nested l

  pub Ordered-Nested : (e : Expr A T) → Ordered e → Nested e
  unfolding Ordered Nested
  Ordered-Nested (Expr.other a) h = tt
  Ordered-Nested (Expr.pending_instance_of op t) h = tt
  Ordered-Nested (Expr.bin l op r) ((left, right), (l_ordered, r_ordered)) = (
    ((λ p is. binds-NotAbove op p (left p is)), (λ p is. binds-Above p op (right p is))),
    (Ordered-Nested l l_ordered, Ordered-Nested r r_ordered),
  )
  Ordered-Nested (Expr.instance_of l op t) ((left, _), l_ordered) =
      ((λ p is. binds-NotAbove op p (left p is)), Ordered-Nested l l_ordered)
