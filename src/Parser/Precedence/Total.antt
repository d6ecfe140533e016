-- ===== src/Parser/Precedence/Total.antt =====
-- parser/parser.cpp, `FixPrecedence`: its loop ends, and without `instanceof` it gives a tree.
use joosc.Common.{
  ℕ, zero, suc, ◌+◌, ◌-◌, ◌*◌, ◌/◌, ◌<◌, ◌≡◌, refl, sym, ap, ◌∙◌, subst, inl, inr, Bool, true,
  false, some, List, [], ◌∷◌, ok, Outcome, ◌>>=◌, ◌>>◌, check, Bool-cases, ltb, ==_iff, ltb→lt,
  lt→ltb, arith, if◌then◌else◌, length, get_elem?, get_elem?_total, All, not, ◌||◌, leb,
}
use joosc.Lexer.State.{Token}
use joosc.Lexer.TokenType.{TokenType, TokenTypeInfo, from_token_type, is_bin_op, bin_op_prec}
use joosc.Parser.Precedence.{
  Expr, Yard, binds, combine, goes_on, at_index, take_operand, take_operator, reduce, fix_step,
  fix_loop, unfinished, finish, no_ops, rounds, fix_precedence, has_type, precedence,
  from_minus_one,
}
use joosc.Parser.Precedence.Ordered.{IsOperand}
use joosc.Parser.Precedence.Phases.{
  Phase, fix_step-Phase, both_false, round-operand, round-operator, round-reduce, even_half,
  odd_half, All-get,
}
use joosc.Parser.Precedence.Sound.{start-Phase}
use joosc.Parser.Precedence.Stack.{Expecting}

-- What the parser's loop takes for an operator, but `instanceof`.
abbrev pub IsPlainBinOp : Token → Type 0
IsPlainBinOp op =
    (info : TokenTypeInfo) × ((from_token_type op.type ≡ ok info)
      × ((is_bin_op info ≡ true) × (has_type op TokenType.k_instanceof ≡ false)))

check-true : {b : Bool} → b ≡ true → check b ≡ ok tt
check-true h = rw h refl

precedence_total : (op : Token) → IsPlainBinOp op → (n : ℕ) × (precedence op ≡ ok n)
unfolding precedence bin_op_prec
precedence_total op (info, (known, (binary, _))) = (
  from_minus_one info.precedence,
  ap (λ o. o >>= λ i. (check (is_bin_op i) >> ok i.precedence) >>= λ prec. ok (from_minus_one prec))
        known
      ∙ ap (λ o. (o >> ok info.precedence) >>= λ prec. ok (from_minus_one prec))
          (check-true binary),
)

binds_total :
    (op top : Token) → IsPlainBinOp op → IsPlainBinOp top → (b : Bool) × (binds op top ≡ ok b)
unfolding binds
binds_total op top op_plain top_plain =
    let (n, en) = precedence_total op op_plain in
    let (m, em) = precedence_total top top_plain in
    (
      if has_type op TokenType.assg then leb m n else ltb m n,
      ap
            (λ o. o >>= λ prec. precedence top >>= λ top_prec.
              ok (if has_type op TokenType.assg then leb top_prec prec else ltb top_prec prec))
            en
          ∙ ap
              (λ o. o >>= λ top_prec.
                ok (if has_type op TokenType.assg then leb top_prec n else ltb top_prec n))
              em,
    )

goes_on_total :
    (op : Token) (opst : List Token)
    → IsPlainBinOp op
    → All IsPlainBinOp opst
    → (b : Bool) × (goes_on op opst ≡ ok b)
unfolding goes_on
goes_on_total op [] plain h = (true, refl)
goes_on_total op (top ∷ opst) plain h = binds_total op top plain h.0

at_index_total :
    {B : Type 0} (xs : List B) (i : ℕ) {x : B} → get_elem? xs i ≡ some x → at_index xs i ≡ ok x
unfolding at_index
at_index_total xs i h = rw (h, at_index) refl

module _ {A T : Type 0} (exprs : List (Expr A T)) (ops : List Token) where
  abbrev measure : Yard A T → ℕ
  measure s = 2 * (length exprs + length ops - s.i) + length s.opstack

  -- A round gives a state with less to do.
  abbrev Advances : Yard A T → Outcome (Yard A T) → Type 0
  Advances s o =
      (s' : Yard A T) × ((o ≡ ok s') × (All IsPlainBinOp s'.opstack × (measure s' < measure s)))

  reduce_total :
      (i : ℕ) (e l : Expr A T) (outs : List (Expr A T)) (p : Token) (opst : List Token)
      → All IsPlainBinOp (p ∷ opst)
      → Advances
          (record { i = i; outstack = e ∷ l ∷ outs; opstack = p ∷ opst })
          (reduce (record { i = i; outstack = e ∷ l ∷ outs; opstack = p ∷ opst }))
  unfolding reduce combine
  reduce_total i e l outs p opst ((info, (known, (binary, plain))), others) = (
    record { i = i; outstack = Expr.bin l p e ∷ outs; opstack = opst },
    (rw plain refl, (others, omega arith)),
  )

  operand_total :
      (k i : ℕ) (outs : List (Expr A T)) (opst : List Token)
      → i ≡ k + k
      → k < length exprs
      → i < length exprs + length ops
      → All IsPlainBinOp opst
      → Advances
          (record { i = i; outstack = outs; opstack = opst })
          (take_operand exprs (record { i = i; outstack = outs; opstack = opst }))
  unfolding take_operand
  operand_total k i outs opst even bound more plain =
      let (e, is) = get_elem?_total exprs k bound in
      let found : at_index exprs (i / 2) ≡ ok e =
        at_index_total exprs (i / 2)
          (subst (λ j. get_elem? exprs j ≡ some e) (sym (even_half i k even)) is) in
      (
        record { i = suc i; outstack = e ∷ outs; opstack = opst },
        (
          ap (λ o. o >>= λ e'. ok (record { i = suc i; outstack = e' ∷ outs; opstack = opst }))
              found,
          (plain, omega arith),
        ),
      )

  chosen_total :
      (i : ℕ) (e : Expr A T) (outs : List (Expr A T)) (opst : List Token) (op : Token) (on : Bool)
      → i < length exprs + length ops
      → Expecting outs opst
      → goes_on op opst ≡ ok on
      → All IsPlainBinOp (op ∷ opst)
      → Advances
          (record { i = i; outstack = e ∷ outs; opstack = opst })
          (if on
            then ok (record { i = suc i; outstack = e ∷ outs; opstack = op ∷ opst })
            else reduce (record { i = i; outstack = e ∷ outs; opstack = opst }))
  unfolding goes_on
  chosen_total i e outs opst op true more stack goes plain =
      (record { i = suc i; outstack = e ∷ outs; opstack = op ∷ opst }, (refl, (plain, omega arith)))
  chosen_total i e outs [] op false more stack goes plain = cc
  chosen_total i e [] (p ∷ opst) op false more stack goes plain = absurd stack
  chosen_total i e (l ∷ outs) (p ∷ opst) op false more stack goes plain =
      reduce_total i e l outs p opst plain.1

  operator_total :
      (k i : ℕ) (e : Expr A T) (outs : List (Expr A T)) (opst : List Token)
      → i ≡ suc (k + k)
      → k < length ops
      → i < length exprs + length ops
      → Expecting outs opst
      → All IsPlainBinOp ops
      → All IsPlainBinOp opst
      → Advances
          (record { i = i; outstack = e ∷ outs; opstack = opst })
          (take_operator ops (record { i = i; outstack = e ∷ outs; opstack = opst }))
  unfolding take_operator
  operator_total k i e outs opst odd bound more stack all_plain plain =
      let (op, is) = get_elem?_total ops k bound in
      let found : at_index ops (i / 2) ≡ ok op =
        at_index_total ops (i / 2)
          (subst (λ j. get_elem? ops j ≡ some op) (sym (odd_half i k odd)) is) in
      let op_plain = All-get IsPlainBinOp ops k all_plain is in
      let (on, goes) = goes_on_total op opst op_plain plain in
      let after : Bool → Outcome (Yard A T) = λ b.
        if b
        then ok (record { i = suc i; outstack = e ∷ outs; opstack = op ∷ opst })
        else reduce (record { i = i; outstack = e ∷ outs; opstack = opst }) in
      let (s', (same, rest)) = chosen_total i e outs opst op on more stack goes (op_plain, plain) in
      (
        s',
        (
          ap
                (λ o. o >>= λ op'. goes_on op' opst >>= λ b.
                  if b
                  then ok (record { i = suc i; outstack = e ∷ outs; opstack = op' ∷ opst })
                  else reduce (record { i = i; outstack = e ∷ outs; opstack = opst }))
                found
              ∙ ap (λ o. o >>= after) goes
              ∙ same,
          rest,
        ),
      )

  at_step :
      (s : Yard A T) (o : Outcome (Yard A T))
      → fix_step exprs ops s ≡ o
      → Advances s o
      → Advances s (fix_step exprs ops s)
  at_step s o same (s', (is, rest)) = (s', (same ∙ is, rest))

  module _ (lengths : length exprs ≡ suc (length ops)) (all_plain : All IsPlainBinOp ops) where
    fix_step_total :
        (s : Yard A T)
        → Phase exprs ops s
        → All IsPlainBinOp s.opstack
        → unfinished exprs ops s ≡ true
        → Advances s (fix_step exprs ops s)
    unfolding unfinished
    fix_step_total s (Phase.expecting k i outs opst even bound stack items) plain more =
        at_step s _ (round-operand exprs ops s k even (omega arith))
          (operand_total k i outs opst even (omega arith) (omega arith) plain)
    fix_step_total s (Phase.behind k i e outs opst odd bound stack left items) plain more =
        elim (Bool-cases (ltb i (length exprs + length ops))) [
          | inl before ↦
              let less = ltb→lt i (length exprs + length ops) before in
              at_step s _ (round-operator exprs ops s k odd less)
                (operator_total k i e outs opst odd (omega arith) less stack.1 all_plain plain)
          | inr done ↦
              at_step s _ (round-reduce exprs ops s done)
                (last i e outs opst done stack.1 plain more)
        ]
      where
        last :
            (i : ℕ) (e : Expr A T) (outs : List (Expr A T)) (opst : List Token)
            → ltb i (length exprs + length ops) ≡ false
            → Expecting outs opst
            → All IsPlainBinOp opst
            → (ltb i (length exprs + length ops) || not (no_ops opst)) ≡ true
            → Advances
                (record { i = i; outstack = e ∷ outs; opstack = opst })
                (reduce (record { i = i; outstack = e ∷ outs; opstack = opst }))
        last i e outs [] done stack plain more = cc
        last i e [] (p ∷ opst) done stack plain more = absurd stack
        last i e (l ∷ outs) (p ∷ opst) done stack plain more = reduce_total i e l outs p opst plain

    finish_total :
        (s : Yard A T)
        → Phase exprs ops s
        → unfinished exprs ops s ≡ false
        → (e : Expr A T) × (finish s ≡ ok e)
    unfolding finish unfinished
    finish_total s (Phase.expecting k i outs opst even bound stack items) over =
        let more = lt→ltb i (length exprs + length ops) (omega arith) in
        let done = (both_false (ltb i (length exprs + length ops)) (not (no_ops opst)) over).0 in cc
    finish_total s (Phase.behind k i e [] [] odd bound stack left items) over = (e, refl)
    finish_total s (Phase.behind k i e (l ∷ outs) [] odd bound stack left items) over =
        absurd stack.1
    finish_total s (Phase.behind k i e outs (p ∷ opst) odd bound stack left items) over =
        let empty = (both_false (ltb i (length exprs + length ops)) true over).1 in cc

    module _ (operands : All IsOperand exprs) where
      decided :
          (fuel : ℕ) (s : Yard A T) (b : Bool)
          → Phase exprs ops s
          → All IsPlainBinOp s.opstack
          → measure s < suc fuel
          → ((s1 : Yard A T)
              → Phase exprs ops s1
              → All IsPlainBinOp s1.opstack
              → measure s1 < fuel
              → (e : Expr A T) × (fix_loop fuel exprs ops s1 ≡ ok e))
          → unfinished exprs ops s ≡ b
          → (e : Expr A T) × (elim b as (λ _. Outcome (Expr A T)) [
            | true ↦ fix_step exprs ops s >>= fix_loop fuel exprs ops
            | false ↦ finish s
          ]
              ≡ ok e)
      decided fuel s true phase plain enough again is =
          let (s1, (stepped, (plain1, less))) = fix_step_total s phase plain is in
          let (e, ran) =
            again s1 (fix_step-Phase exprs ops lengths operands s s1 phase stepped) plain1
              (omega (arith, less, enough)) in
          (e, ap (λ o. o >>= fix_loop fuel exprs ops) stepped ∙ ran)
      decided fuel s false phase plain enough again is = finish_total s phase is

      pub fix_loop_total :
          (fuel : ℕ) (s : Yard A T)
          → Phase exprs ops s
          → All IsPlainBinOp s.opstack
          → measure s < fuel
          → (e : Expr A T) × (fix_loop fuel exprs ops s ≡ ok e)
      unfolding fix_loop
      fix_loop_total zero s phase plain enough = absurd (omega arith)
      fix_loop_total (suc fuel) s phase plain enough =
          decided fuel s (unfinished exprs ops s) phase plain enough (λ s1. fix_loop_total fuel s1)
            refl

-- With one operand more than operators, where every token between the operands is a binary operator other
-- than `instanceof`, `FixPrecedence` ends within the rounds that the fuel allows and gives a tree. The
-- operands are what the parser makes of a unary expression.
pub fix_precedence_total :
    {A T : Type 0} (exprs : List (Expr A T)) (ops : List Token)
    → All IsOperand exprs
    → All IsPlainBinOp ops
    → length exprs ≡ suc (length ops)
    → (e : Expr A T) × (fix_precedence exprs ops ≡ ok e)
unfolding fix_precedence
fix_precedence_total exprs ops operands plain lengths =
    let (e, ran) =
      fix_loop_total exprs ops lengths plain operands (rounds exprs ops) _ (start-Phase exprs ops)
        tt (omega arith) in
    (
      e,
      ap
            (λ o.
              o
              >> fix_loop (rounds exprs ops) exprs ops
                  (record { i = 0; outstack = []; opstack = [] }))
            (check-true ((==_iff _ _).1 lengths))
          ∙ ran,
    )
