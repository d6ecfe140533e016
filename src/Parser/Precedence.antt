-- ===== src/Parser/Precedence.antt =====
-- parser/parser.cpp, `FixPrecedence`: operands and binary operators in the order of the source become a
-- tree. Vectors used as stacks are lists, their backs the heads. An operand that is no expression of
-- the loop's own making is any `A`, a type any `T`.
pub mod Ordered
mod Stack
mod Phases
pub mod Sound
pub mod Total
use joosc.Common.{
  ℕ, zero, suc, ◌+◌, ◌*◌, ◌/◌, ◌%◌, Bool, true, false, not, ◌&&◌, ◌||◌, Option, none, some, List,
  [], ◌∷◌, ltb, leb, ◌==◌, if◌then◌else◌, length, get_elem?, Outcome, ok, thrown, Exn, check, ◌>>=◌,
  ◌>>◌,
}
use joosc.Lexer.State.{Token}
use joosc.Lexer.TokenType.{TokenType, index, from_token_type, bin_op_prec}

unfoldable pub has_type : Token → TokenType → Bool
unfolding index
has_type t type = index t.type == index type

-- `TypeInfo().BinOpPrec()`, one more than it is.
abbrev pub from_minus_one : Option ℕ → ℕ
from_minus_one none = 0
from_minus_one (some prec) = suc prec

unfoldable pub precedence : Token → Outcome ℕ
unfolding from_token_type bin_op_prec
precedence t = do info ← from_token_type t.type; prec ← bin_op_prec info; ok (from_minus_one prec)

-- The test whether `op` goes on the stack above `top`.
unfoldable pub binds : Token → Token → Outcome Bool
unfolding has_type precedence
binds op top = do
  prec ← precedence op
  top_prec ← precedence top
  ok (if has_type op TokenType.assg then leb top_prec prec else ltb top_prec prec)

unfoldable pub at_index : {B : Type 0} → List B → ℕ → Outcome B
at_index xs i = elim (get_elem? xs i) [ some x ↦ ok x | none ↦ thrown Exn.out_of_range ]

-- Whether `op` goes on the stack.
unfoldable pub goes_on : Token → List Token → Outcome Bool
unfolding binds
goes_on op [] = ok true
goes_on op (top ∷ ops) = binds op top

abbrev pub no_ops : List Token → Bool
no_ops [] = true
no_ops (op ∷ ops) = false

-- `InstanceOfExpr` without its left side is what the parser leaves for the type.
pub data Expr (A T : Type 0) : Type 0 where
  other : A → Expr A T
  bin : Expr A T → Token → Expr A T → Expr A T
  pending_instance_of : Token → T → Expr A T
  instance_of : Expr A T → Token → T → Expr A T

-- `i`, `outstack` and `opstack`.
pub record Yard (A T : Type 0) : Type 0 where
  pub i : ℕ
  pub outstack : List (Expr A T)
  pub opstack : List Token

module _ {A T : Type 0} where
  -- `dynamic_cast<const InstanceOfExpr*>` and `GetTypePtr`.
  unfoldable pub tested_type : Expr A T → Option T
  tested_type (other a) = none
  tested_type (bin l op r) = none
  tested_type (pending_instance_of op t) = some t
  tested_type (instance_of l op t) = some t

  abbrev pub test_of : Expr A T → Token → Option T → Outcome (Expr A T)
  test_of lhs op (some t) = ok (instance_of lhs op t)
  test_of lhs op none = thrown Exn.check_failed

  unfoldable pub combine : Expr A T → Token → Expr A T → Outcome (Expr A T)
  unfolding has_type tested_type
  combine lhs op rhs =
      if has_type op TokenType.k_instanceof
      then test_of lhs op (tested_type rhs)
      else ok (bin lhs op rhs)

  -- The end of the loop's body; the back of an empty vector is undefined.
  unfoldable pub reduce : Yard A T → Outcome (Yard A T)
  unfolding combine
  reduce s = elim s.outstack [
    | [] ↦ thrown Exn.check_failed
    | rhs ∷ [] ↦ thrown Exn.check_failed
    | rhs ∷ lhs ∷ out ↦ elim s.opstack [
      | [] ↦ thrown Exn.undefined
      | nextop ∷ ops ↦ do
        e ← combine lhs nextop rhs
        ok (record s { outstack = e ∷ out; opstack = ops })
    ]
  ]

  -- Operator off input.
  unfoldable pub take_operator : List Token → Yard A T → Outcome (Yard A T)
  unfolding reduce at_index goes_on
  take_operator ops s = do
    op ← at_index ops (s.i / 2)
    on ← goes_on op s.opstack
    if on then ok (record s { opstack = op ∷ s.opstack; i = suc s.i }) else reduce s

  -- Expression off input.
  unfoldable pub take_operand : List (Expr A T) → Yard A T → Outcome (Yard A T)
  unfolding at_index
  take_operand exprs s = do
    e ← at_index exprs (s.i / 2)
    ok (record s { outstack = e ∷ s.outstack; i = suc s.i })

  -- The loop's body.
  unfoldable pub fix_step : List (Expr A T) → List Token → Yard A T → Outcome (Yard A T)
  unfolding take_operand take_operator reduce
  fix_step exprs ops s =
      if ltb s.i (length exprs + length ops)
      then if s.i % 2 == 0 then take_operand exprs s else take_operator ops s
      else reduce s

  -- The loop's condition, and what stands behind the loop.
  unfoldable pub unfinished : List (Expr A T) → List Token → Yard A T → Bool
  unfinished exprs ops s = ltb s.i (length exprs + length ops) || not (no_ops s.opstack)

  unfoldable pub finish : Yard A T → Outcome (Expr A T)
  finish s = elim s.outstack [
    | e ∷ [] ↦ do check (no_ops s.opstack); ok e
    | _ ↦ thrown Exn.check_failed
  ]

  -- The loop, on fuel.
  unfoldable pub fix_loop : ℕ → List (Expr A T) → List Token → Yard A T → Outcome (Expr A T)
  unfolding fix_step unfinished finish
  fix_loop zero exprs ops s = thrown Exn.out_of_fuel
  fix_loop (suc fuel) exprs ops s = elim (unfinished exprs ops s) [
    | true ↦ fix_step exprs ops s >>= fix_loop fuel exprs ops
    | false ↦ finish s
  ]

  -- Each round takes an operand, takes an operator, or pops one that was taken.
  abbrev pub rounds : List (Expr A T) → List Token → ℕ
  rounds exprs ops = suc (2 * (length exprs + length ops))

  unfoldable pub fix_precedence : List (Expr A T) → List Token → Outcome (Expr A T)
  unfolding fix_loop
  fix_precedence exprs ops = do
    check (length exprs == suc (length ops))
    fix_loop (rounds exprs ops) exprs ops (record { i = 0; outstack = []; opstack = [] })
