-- ===== src/Parser/Precedence/Phases.antt =====
-- parser/parser.cpp, `FixPrecedence`: what holds before each round of its loop.
use joosc.Common.{
  ℕ, zero, suc, ◌+◌, ◌/◌, ◌%◌, ◌<◌, ◌≤◌, ◌≡◌, refl, sym, ap, ◌∙◌, subst, inl, inr, Bool, true,
  false, Option, none, some, List, [], ◌∷◌, ◌++◌, append_assoc, ok, thrown, Exn, Outcome, >>=-eq-ok,
  ok_injective, check, Bool-cases, ltb, ◌==◌, ==_iff, ltb→lt, lt→ltb, arith, if◌then◌else◌, length,
  get_elem?, drop, All, ◌||◌,
}
use joosc.Lexer.State.{Token}
use joosc.Parser.Precedence.{
  Expr, Yard, binds, combine, goes_on, at_index, take_operand, take_operator, reduce, fix_step,
}
use joosc.Parser.Precedence.Ordered.{
  Item, said, woven, woven_after, root, LeftOk, Ordered, IsOperand,
}
use joosc.Parser.Precedence.Stack.{
  Expecting, Stacked, Chain, spelled, combine-Stacked, some_injective,
}

pub if-yes {ℓ} : {A : Type ℓ} {b : Bool} {x : A} (y : A) → b ≡ true → (if b then x else y) ≡ x
if-yes y h = rw h refl

pub if-no {ℓ} : {A : Type ℓ} {b : Bool} (x : A) {y : A} → b ≡ false → (if b then x else y) ≡ y
if-no x h = rw h refl

pub both_false : (b c : Bool) → (b || c) ≡ false → (b ≡ false) × (c ≡ false)
both_false false c h = (refl, h)
both_false true c h = cc

pub ltb_no : (a b : ℕ) → ltb a b ≡ false → b ≤ a
ltb_no a b h = ground arith

pub checked_same : (b : Bool) → check b ≡ ok tt → b ≡ true
checked_same true h = refl
checked_same false h = cc

pub check_lengths : (m n : ℕ) → check (m == n) ≡ ok tt → m ≡ n
check_lengths m n h = (==_iff m n).0 (checked_same _ h)

even_rest : (i k : ℕ) → i ≡ k + k → (i % 2 == 0) ≡ true
even_rest i k h = ground arith

odd_rest : (i k : ℕ) → i ≡ suc (k + k) → (i % 2 == 0) ≡ false
odd_rest i k h = ground arith

pub even_half : (i k : ℕ) → i ≡ k + k → i / 2 ≡ k
even_half i k h = omega (arith, h)

pub odd_half : (i k : ℕ) → i ≡ suc (k + k) → i / 2 ≡ k
odd_half i k h = omega (arith, h)

found-eq-ok :
    {B : Type 0} (o : Option B) {x : B}
    → elim o as (λ _. Outcome B) [ some y ↦ ok y | none ↦ thrown Exn.out_of_range ] ≡ ok x
    → o ≡ some x
found-eq-ok (some y) h = ap some (ok_injective h)
found-eq-ok none h = cc

at_index-eq-ok :
    {B : Type 0} (xs : List B) (i : ℕ) {x : B} → at_index xs i ≡ ok x → get_elem? xs i ≡ some x
unfolding at_index
at_index-eq-ok xs i h = found-eq-ok (get_elem? xs i) h

drop-get :
    {B : Type 0} (xs : List B) (i : ℕ) {x : B}
    → get_elem? xs i ≡ some x
    → drop i xs ≡ x ∷ drop (suc i) xs
drop-get [] i h = cc
drop-get (y ∷ xs) zero h = ap (λ z. z ∷ xs) (some_injective h)
drop-get (y ∷ xs) (suc i) h = drop-get xs i h

pub All-get {ℓ} :
    {B : Type 0} (P : B → Type ℓ) (xs : List B) (i : ℕ) {x : B}
    → All P xs
    → get_elem? xs i ≡ some x
    → P x
All-get P [] i h is = cc
All-get P (y ∷ xs) zero h is = subst P (some_injective is) h.0
All-get P (y ∷ xs) (suc i) h is = All-get P xs i h.1 is

pub get-lt : {B : Type 0} (xs : List B) (i : ℕ) {x : B} → get_elem? xs i ≡ some x → i < length xs
get-lt [] i h = cc
get-lt (y ∷ xs) zero h = omega arith
get-lt (y ∷ xs) (suc i) h = omega (arith, get-lt xs i h)

module _ {A T : Type 0} (exprs : List (Expr A T)) (ops : List Token) where
  -- The loop expects an operand, or stands behind one.
  pub data Phase : Yard A T → Type 0 where
    expecting :
        (k i : ℕ) (outs : List (Expr A T)) (opst : List Token)
        → i ≡ k + k
        → k ≤ length ops
        → Expecting outs opst
        → spelled outs opst ++ woven (drop k exprs) (drop k ops) ≡ woven exprs ops
        → Phase (record { i = i; outstack = outs; opstack = opst })
    behind :
        (k i : ℕ) (e : Expr A T) (outs : List (Expr A T)) (opst : List Token)
        → i ≡ suc (k + k)
        → k ≤ length ops
        → Stacked e outs opst
        → ((q : Token) → get_elem? ops k ≡ some q → LeftOk q e)
        → (spelled outs opst ++ said e) ++ woven_after (drop (suc k) exprs) (drop k ops)
          ≡ woven exprs ops
        → Phase (record { i = i; outstack = e ∷ outs; opstack = opst })

  operand-Ordered : (e : Expr A T) → IsOperand e → Ordered e × (root e ≡ none)
  unfolding Ordered root
  operand-Ordered (Expr.other a) h = (tt, refl)
  operand-Ordered (Expr.pending_instance_of op t) h = (tt, refl)
  operand-Ordered (Expr.bin l op r) h = absurd h
  operand-Ordered (Expr.instance_of l op t) h = absurd h

  operand-LeftOk : (e : Expr A T) (op : Token) → IsOperand e → LeftOk op e
  operand-LeftOk e op h p is = let none_there = (operand-Ordered e h).1 in cc

  operand-Stacked :
      (e : Expr A T) (outs : List (Expr A T)) (opst : List Token)
      → IsOperand e
      → Expecting outs opst
      → Stacked e outs opst
  operand-Stacked e outs [] h stack = (((operand-Ordered e h).0, tt), stack)
  operand-Stacked e outs (p ∷ opst) h stack =
      (((operand-Ordered e h).0, λ p' is. let none_there = (operand-Ordered e h).1 in cc), stack)

  woven_after-cons :
      (es : List (Expr A T)) (op : Token) (os : List Token)
      → woven_after es (op ∷ os) ≡ Item.operator op ∷ woven es os
  unfolding woven_after woven
  woven_after-cons [] op os = refl
  woven_after-cons (e ∷ es) op os = refl

  take_operand-Phase :
      (k i : ℕ) (outs : List (Expr A T)) (opst : List Token) (s' : Yard A T)
      → All IsOperand exprs
      → i ≡ k + k
      → k ≤ length ops
      → Expecting outs opst
      → spelled outs opst ++ woven (drop k exprs) (drop k ops) ≡ woven exprs ops
      → take_operand exprs (record { i = i; outstack = outs; opstack = opst }) ≡ ok s'
      → Phase s'
  unfolding take_operand woven
  take_operand-Phase k i outs opst s' operands even bound stack items h =
      let (e, found, rest) = >>=-eq-ok (at_index exprs (i / 2)) _ h in
      let is : get_elem? exprs k ≡ some e =
        at_index-eq-ok exprs k (subst (λ j. at_index exprs j ≡ ok e) (even_half i k even) found) in
      let operand = All-get IsOperand exprs k operands is in
      subst Phase (ok_injective rest) (
        Phase.behind k (suc i) e outs opst (ap suc even) bound
          (operand-Stacked e outs opst operand stack) (λ q _. operand-LeftOk e q operand)
          (append_assoc (spelled outs opst) (said e) _
            ∙ subst (λ es. spelled outs opst ++ woven es (drop k ops) ≡ woven exprs ops)
                (drop-get exprs k is) items))

  reduce-Phase :
      (k i : ℕ) (e : Expr A T) (outs : List (Expr A T)) (opst : List Token) (s' : Yard A T)
      → i ≡ suc (k + k)
      → k ≤ length ops
      → Stacked e outs opst
      → ((q p : Token)
          → get_elem? ops k ≡ some q
          → (rest : List Token) → opst ≡ p ∷ rest
          → binds q p ≡ ok false)
      → (spelled outs opst ++ said e) ++ woven_after (drop (suc k) exprs) (drop k ops)
        ≡ woven exprs ops
      → reduce (record { i = i; outstack = e ∷ outs; opstack = opst }) ≡ ok s'
      → Phase s'
  unfolding reduce
  reduce-Phase k i e [] opst s' odd bound stack looser items h = cc
  reduce-Phase k i e (l ∷ outs) [] s' odd bound stack looser items h = cc
  reduce-Phase k i e (l ∷ outs) (p ∷ opst) s' odd bound stack looser items h =
      let (made, combined, rest) = >>=-eq-ok (combine l p e) _ h in
      let (stack', top, same) = combine-Stacked e l made outs p opst combined stack in
      subst Phase (ok_injective rest) (
        Phase.behind k i made outs opst odd bound stack'
          (λ q is p' is'.
            subst (λ o. binds q o ≡ ok false) (some_injective (sym top ∙ is'))
              (looser q p is opst refl))
          (ap (λ xs. xs ++ woven_after (drop (suc k) exprs) (drop k ops)) same ∙ items))

  goes_on-Chain : (op : Token) (opst : List Token) → goes_on op opst ≡ ok true → Chain op opst
  unfolding goes_on
  goes_on-Chain op [] h = tt
  goes_on-Chain op (q ∷ opst) h = h

  goes_on-top :
      (op p : Token) (opst rest : List Token)
      → goes_on op opst ≡ ok false
      → opst ≡ p ∷ rest
      → binds op p ≡ ok false
  unfolding goes_on
  goes_on-top op p opst rest h is = subst (λ os. goes_on op os ≡ ok false) is h

  moved : (s e w : List (Item A T)) (x : Item A T) → (s ++ (e ++ x ∷ [])) ++ w ≡ (s ++ e) ++ x ∷ w
  moved s e w x =
      ap (λ xs. xs ++ w) (sym (append_assoc s e (x ∷ []))) ∙ append_assoc (s ++ e) (x ∷ []) w

  chosen-Phase :
      (k i : ℕ) (e : Expr A T) (outs : List (Expr A T)) (opst : List Token) (s' : Yard A T)
      (op : Token) (on : Bool)
      → i ≡ suc (k + k)
      → k ≤ length ops
      → Stacked e outs opst
      → ((q : Token) → get_elem? ops k ≡ some q → LeftOk q e)
      → (spelled outs opst ++ said e) ++ woven_after (drop (suc k) exprs) (drop k ops)
        ≡ woven exprs ops
      → get_elem? ops k ≡ some op
      → goes_on op opst ≡ ok on
      → (if on
          then ok (record { i = suc i; outstack = e ∷ outs; opstack = op ∷ opst })
          else reduce (record { i = i; outstack = e ∷ outs; opstack = opst }))
        ≡ ok s'
      → Phase s'
  chosen-Phase k i e outs opst s' op true odd bound stack left items is on h =
      subst Phase (ok_injective h) (
        Phase.expecting (suc k) (suc i) (e ∷ outs) (op ∷ opst) (omega (arith, odd))
          (get-lt ops k is) (((left op is, goes_on-Chain op opst on), stack.0), stack.1)
          (moved (spelled outs opst) (said e) _ (Item.operator op)
            ∙ ap (λ xs. (spelled outs opst ++ said e) ++ xs)
                (sym (woven_after-cons (drop (suc k) exprs) op (drop (suc k) ops)))
            ∙ subst
                (λ os.
                  (spelled outs opst ++ said e) ++ woven_after (drop (suc k) exprs) os
                  ≡ woven exprs ops)
                (drop-get ops k is) items))
  chosen-Phase k i e outs opst s' op false odd bound stack left items is on h =
      reduce-Phase k i e outs opst s' odd bound stack
        (λ q p is' rest is_top.
          subst (λ o. binds o p ≡ ok false) (some_injective (sym is ∙ is'))
            (goes_on-top op p opst rest on is_top))
        items h

  take_operator-Phase :
      (k i : ℕ) (e : Expr A T) (outs : List (Expr A T)) (opst : List Token) (s' : Yard A T)
      → i ≡ suc (k + k)
      → k ≤ length ops
      → Stacked e outs opst
      → ((q : Token) → get_elem? ops k ≡ some q → LeftOk q e)
      → (spelled outs opst ++ said e) ++ woven_after (drop (suc k) exprs) (drop k ops)
        ≡ woven exprs ops
      → take_operator ops (record { i = i; outstack = e ∷ outs; opstack = opst }) ≡ ok s'
      → Phase s'
  unfolding take_operator
  take_operator-Phase k i e outs opst s' odd bound stack left items h =
      let (op, found, rest) = >>=-eq-ok (at_index ops (i / 2)) _ h in
      let (on, goes, last) = >>=-eq-ok (goes_on op opst) _ rest in
      let is : get_elem? ops k ≡ some op =
        at_index-eq-ok ops k (subst (λ j. at_index ops j ≡ ok op) (odd_half i k odd) found) in
      chosen-Phase k i e outs opst s' op on odd bound stack left items is goes last

  -- Which part of the body a round takes.
  pub round-operand :
      (s : Yard A T) (k : ℕ)
      → s.i ≡ k + k
      → s.i < length exprs + length ops
      → fix_step exprs ops s ≡ take_operand exprs s
  unfolding fix_step
  round-operand s k even more = if-yes _ (lt→ltb _ _ more) ∙ if-yes _ (even_rest s.i k even)

  pub round-operator :
      (s : Yard A T) (k : ℕ)
      → s.i ≡ suc (k + k)
      → s.i < length exprs + length ops
      → fix_step exprs ops s ≡ take_operator ops s
  unfolding fix_step
  round-operator s k odd more = if-yes _ (lt→ltb _ _ more) ∙ if-no _ (odd_rest s.i k odd)

  pub round-reduce :
      (s : Yard A T) → ltb s.i (length exprs + length ops) ≡ false → fix_step exprs ops s ≡ reduce s
  unfolding fix_step
  round-reduce s done = if-no _ done

  module _ (lengths : length exprs ≡ suc (length ops)) (operands : All IsOperand exprs) where
    pub fix_step-Phase : (s s' : Yard A T) → Phase s → fix_step exprs ops s ≡ ok s' → Phase s'
    fix_step-Phase s s' (Phase.expecting k i outs opst even bound stack items) h =
        take_operand-Phase k i outs opst s' operands even bound stack items
          (sym (round-operand s k even (omega arith)) ∙ h)
    fix_step-Phase s s' (Phase.behind k i e outs opst odd bound stack left items) h =
        elim (Bool-cases (ltb i (length exprs + length ops))) [
          | inl more ↦
              take_operator-Phase k i e outs opst s' odd bound stack left items
                (sym (round-operator s k odd (ltb→lt _ _ more)) ∙ h)
          | inr done ↦
              reduce-Phase k i e outs opst s' odd bound stack
                (λ q p is rest is_top.
                  let more =
                    lt→ltb i (length exprs + length ops) (omega (arith, get-lt ops k is)) in
                  cc)
                items (sym (round-reduce s done) ∙ h)
        ]
