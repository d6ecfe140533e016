-- ===== src/Parser/Precedence/Stack.antt =====
-- parser/parser.cpp, `FixPrecedence`: the two stacks while an operand is expected, and behind it.
use joosc.Common.{
  ℕ, ◌≡◌, refl, sym, ap, ◌∙◌, subst, Bool, true, false, none, some, List, [], ◌∷◌, get_elem?, ◌++◌,
  append_assoc, ok, thrown, Exn, ◌>>=◌, >>=-eq-ok, ok_injective, ltb, leb, ==_iff, ltb→lt, arith,
  if◌then◌else◌,
}
use joosc.Lexer.State.{Token}
use joosc.Lexer.TokenType.{TokenType, index, from_token_type, bin_op_prec, k_entries}
use joosc.Parser.Precedence.{
  Expr, binds, has_type, precedence, from_minus_one, combine, tested_type, test_of,
}
use joosc.Parser.Precedence.Ordered.{Item, said, root, LeftOk, RightOk, Ordered}

-- Two `instanceof` bind alike.
same_precedence :
    (p q : Token)
    → has_type p TokenType.k_instanceof ≡ true
    → has_type q TokenType.k_instanceof ≡ true
    → precedence p ≡ precedence q
unfolding has_type precedence from_token_type
same_precedence p q hp hq =
    let p_index = (==_iff (index p.type) (index TokenType.k_instanceof)).0 hp in
    let q_index = (==_iff (index q.type) (index TokenType.k_instanceof)).0 hq in
    ap
      (λ i.
        elim (get_elem? k_entries i) [ some info ↦ ok info | none ↦ thrown Exn.check_failed ]
        >>= λ info. bin_op_prec info >>= λ prec. ok (from_minus_one prec))
      (p_index ∙ sym q_index)

no_assignment :
    (p : Token) → has_type p TokenType.k_instanceof ≡ true → has_type p TokenType.assg ≡ false
unfolding has_type index
no_assignment p h = rw ((==_iff (index p.type) (index TokenType.k_instanceof)).0 h) refl

tie :
    (p : Token) (n m : ℕ)
    → n ≡ m
    → has_type p TokenType.assg ≡ false
    → (if has_type p TokenType.assg then leb m n else ltb m n) ≡ true
    → ⊥
tie p n m same none_assigned h =
    let less = ltb→lt m n (ap (λ b. if b then leb m n else ltb m n) (sym none_assigned) ∙ h) in
    omega (arith, less, same)

instanceof_not_right :
    (p q : Token)
    → has_type p TokenType.k_instanceof ≡ true
    → has_type q TokenType.k_instanceof ≡ true
    → binds p q ≡ ok true
    → ⊥
unfolding binds
instanceof_not_right p q hp hq h =
    let (n, en, rest) = >>=-eq-ok (precedence p) _ h in
    let (m, em, last) = >>=-eq-ok (precedence q) _ rest in
    let same : n ≡ m = ok_injective (sym en ∙ same_precedence p q hp hq ∙ em) in
    tie p n m same (no_assignment p hp) (ok_injective last)

abbrev pub Chain : Token → List Token → Type 0
Chain p [] = Unit
Chain p (q ∷ ops) = binds p q ≡ ok true

pub some_injective : {B : Type 0} {a b : B} → some a ≡ some b → a ≡ b
some_injective h = cc

module _ {A T : Type 0} where
  combined :
      (l r e : Expr A T) (op : Token) (b : Bool)
      → has_type op TokenType.k_instanceof ≡ b
      → (if b then test_of l op (tested_type r) else ok (Expr.bin l op r)) ≡ ok e
      → LeftOk op l × RightOk op r
      → Ordered l × Ordered r
      → Ordered e × (root e ≡ some op) × (said e ≡ said l ++ Item.operator op ∷ said r)
  unfolding tested_type Ordered root said
  combined l r e op false hb h sides ordered =
      subst
        (λ e'. Ordered e' × (root e' ≡ some op) × (said e' ≡ said l ++ Item.operator op ∷ said r))
        (ok_injective h) ((sides, ordered), refl, refl)
  combined l (Expr.other a) e op true hb h sides ordered = cc
  combined l (Expr.bin x o y) e op true hb h sides ordered = cc
  combined l (Expr.pending_instance_of o t) e op true hb h sides ordered =
      subst
        (λ e'.
          Ordered e'
          × (root e' ≡ some op)
          × (said e' ≡ said l ++ Item.operator op ∷ Item.tested t ∷ []))
        (ok_injective h) (((sides.0, hb), ordered.0), refl, refl)
  combined l (Expr.instance_of x o t) e op true hb h sides ordered =
      absurd (instanceof_not_right o op ordered.1.0.1 hb (sides.1 o refl))

  pub combine-eq-ok :
      (l r e : Expr A T) (op : Token)
      → combine l op r ≡ ok e
      → LeftOk op l × RightOk op r
      → Ordered l × Ordered r
      → Ordered e × (root e ≡ some op) × (said e ≡ said l ++ Item.operator op ∷ said r)
  unfolding combine has_type tested_type Ordered root said
  combine-eq-ok l r e op h ok_sides ordered =
      combined l r e op (has_type op TokenType.k_instanceof) refl h ok_sides ordered

  abbrev pub RightOkTop : List Token → Expr A T → Type 0
  RightOkTop [] e = Unit
  RightOkTop (p ∷ ops) e = RightOk p e

  -- Every operator on the stack has its left side, which may stand there, and binds tighter than the one
  -- below it.
  abbrev pub Expecting : List (Expr A T) → List Token → Type 0
  Expecting [] [] = Unit
  Expecting (e ∷ outs) (p ∷ ops) =
      ((LeftOk p e × Chain p ops) × (Ordered e × RightOkTop ops e)) × Expecting outs ops
  Expecting _ _ = ⊥

  abbrev pub Stacked : Expr A T → List (Expr A T) → List Token → Type 0
  Stacked e outs ops = (Ordered e × RightOkTop ops e) × Expecting outs ops

  -- What the stacks stand for.
  abbrev pub spelled : List (Expr A T) → List Token → List (Item A T)
  spelled [] ops = []
  spelled (e ∷ outs) [] = []
  spelled (e ∷ outs) (p ∷ ops) = spelled outs ops ++ (said e ++ Item.operator p ∷ [])

  right-top :
      (e : Expr A T) (p : Token) (ops : List Token)
      → root e ≡ some p
      → Chain p ops
      → RightOkTop ops e
  right-top e p [] h chain = tt
  right-top e p (q ∷ ops) h chain =
      λ p' h'. subst (λ o. binds o q ≡ ok true) (some_injective (sym h ∙ h')) chain

  pub combine-Stacked :
      (r l e : Expr A T) (outs : List (Expr A T)) (p : Token) (ops : List Token)
      → combine l p r ≡ ok e
      → Stacked r (l ∷ outs) (p ∷ ops)
      → Stacked e outs ops
        × (root e ≡ some p)
        × (spelled outs ops ++ said e ≡ spelled (l ∷ outs) (p ∷ ops) ++ said r)
  combine-Stacked r l e outs p ops h
        (((r_ordered, r_right), (((l_left, chain), (l_ordered, l_right)), rest))) =
      let (ordered, top, same) = combine-eq-ok l r e p h (l_left, r_right) (l_ordered, r_ordered) in
      (
        ((ordered, right-top e p ops top chain), rest),
        top,
        ap (λ items. spelled outs ops ++ items)
              (same ∙ sym (append_assoc (said l) (Item.operator p ∷ []) (said r)))
            ∙ sym (append_assoc (spelled outs ops) (said l ++ Item.operator p ∷ []) (said r)),
      )
