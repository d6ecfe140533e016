-- ===== src/Parser/Precedence/Sound.antt =====
-- parser/parser.cpp, `FixPrecedence`: its result.
use joosc.Common.{
  ℕ, zero, suc, ◌+◌, ◌≤◌, ◌≡◌, refl, sym, ◌∙◌, subst, Bool, true, false, List, [], ◌∷◌, ◌++◌,
  append-nil, ok, Outcome, ◌>>=◌, >>=-eq-ok, ok_injective, check, ltb, ◌==◌, lt→ltb, arith, length,
  drop, All, not,
}
use joosc.Lexer.State.{Token}
use joosc.Parser.Precedence.{
  Expr, Yard, fix_step, fix_loop, unfinished, finish, no_ops, rounds, fix_precedence,
}
use joosc.Parser.Precedence.Ordered.{
  said, woven, woven_after, Ordered, Nested, Ordered-Nested, IsOperand,
}
use joosc.Parser.Precedence.Phases.{Phase, fix_step-Phase, both_false, ltb_no, check_lengths}

module _ {A T : Type 0} (exprs : List (Expr A T)) (ops : List Token) where
  module _ (lengths : length exprs ≡ suc (length ops)) (operands : All IsOperand exprs) where
    drop_all : {B : Type 0} (xs : List B) (n : ℕ) → length xs ≤ n → drop n xs ≡ []
    drop_all [] zero h = refl
    drop_all [] (suc n) h = refl
    drop_all (x ∷ xs) zero h = absurd (omega arith)
    drop_all (x ∷ xs) (suc n) h = drop_all xs n (omega arith)

    finish-Ordered :
        (s : Yard A T) (e : Expr A T)
        → Phase exprs ops s
        → unfinished exprs ops s ≡ false
        → finish s ≡ ok e
        → (said e ≡ woven exprs ops) × Ordered e
    unfolding finish unfinished woven_after
    finish-Ordered s e (Phase.expecting k i outs opst even bound stack items) over h =
        let more = lt→ltb i (length exprs + length ops) (omega arith) in
        let done = (both_false (ltb i (length exprs + length ops)) (not (no_ops opst)) over).0 in cc
    finish-Ordered s e (Phase.behind k i top [] [] odd bound stack left items) over h =
        let enough = ltb_no i (length exprs + length ops) (both_false _ _ over).0 in
        let all_taken : drop k ops ≡ [] = drop_all ops k (omega arith) in
        subst (λ t. (said t ≡ woven exprs ops) × Ordered t) (ok_injective h)
          (
            sym (append-nil (said top))
                ∙ subst (λ os. said top ++ woven_after (drop (suc k) exprs) os ≡ woven exprs ops)
                    all_taken items,
            stack.0.0,
          )
    finish-Ordered s e (Phase.behind k i top (l ∷ outs) [] odd bound stack left items) over h =
        absurd stack.1
    finish-Ordered s e (Phase.behind k i top outs (p ∷ opst) odd bound stack left items) over h =
        let empty = (both_false (ltb i (length exprs + length ops)) true over).1 in cc

    decided :
        (fuel : ℕ) (s : Yard A T) (e : Expr A T) (b : Bool)
        → Phase exprs ops s
        → ((s1 : Yard A T)
            → Phase exprs ops s1
            → fix_loop fuel exprs ops s1 ≡ ok e
            → (said e ≡ woven exprs ops) × Ordered e)
        → unfinished exprs ops s ≡ b
        → elim b as (λ _. Outcome (Expr A T)) [
          | true ↦ fix_step exprs ops s >>= fix_loop fuel exprs ops
          | false ↦ finish s
        ]
          ≡ ok e
        → (said e ≡ woven exprs ops) × Ordered e
    decided fuel s e true phase again is h =
        let (s1, stepped, rest) = >>=-eq-ok (fix_step exprs ops s) (fix_loop fuel exprs ops) h in
        again s1 (fix_step-Phase exprs ops lengths operands s s1 phase stepped) rest
    decided fuel s e false phase again is h = finish-Ordered s e phase is h

    pub fix_loop-Ordered :
        (fuel : ℕ) (s : Yard A T) (e : Expr A T)
        → Phase exprs ops s
        → fix_loop fuel exprs ops s ≡ ok e
        → (said e ≡ woven exprs ops) × Ordered e
    unfolding fix_loop
    fix_loop-Ordered zero s e phase h = cc
    fix_loop-Ordered (suc fuel) s e phase h =
        decided fuel s e (unfinished exprs ops s) phase (λ s1. fix_loop-Ordered fuel s1 e) refl h

  pub start-Phase : Phase exprs ops (record { i = 0; outstack = []; opstack = [] })
  start-Phase = Phase.expecting 0 0 [] [] refl (omega arith) tt refl

-- The tree that `FixPrecedence` gives says the operands and operators in the order of the input. An operator
-- at the root of the right side of another binds tighter than it, or is an assignment and binds as
-- tight; one at the root of the left side of another binds as tight or tighter, and tighter if the
-- other is an assignment. The operands are what the parser makes of a unary expression or of the type
-- behind an `instanceof`.
pub fix_precedence-Nested :
    {A T : Type 0} (exprs : List (Expr A T)) (ops : List Token) (e : Expr A T)
    → All IsOperand exprs
    → fix_precedence exprs ops ≡ ok e
    → (said e ≡ woven exprs ops) × Nested e
unfolding fix_precedence
fix_precedence-Nested exprs ops e operands h =
    let (u, lengths, ran) = >>=-eq-ok (check (length exprs == suc (length ops))) _ h in
    let (items, ordered) =
      fix_loop-Ordered exprs ops (check_lengths _ _ lengths) operands (rounds exprs ops) _ e
        (start-Phase exprs ops) ran in
    (items, Ordered-Nested e ordered)
