-- ===== src/Types/Reachability/Sound.antt =====
-- types/dataflow_visitor.cpp: `ReachabilityVisitor` beside the language's rules for normal completion.
use joosc.Ast.Tree.{Expr, Stmt, Stmts}
use joosc.Common.{
  ℕ, ◌≡◌, ◌≢◌, ◌↔◌, inl, inr, refl, ◌∙◌, Bool, true, false, ◌||◌, Option, none, some, List, [], ◌∷◌,
  concat, arith, Bool-cases,
}
use joosc.Types.Reachability.{
  LoopKind, FlowError, Flow, is_constant_bool, loop_kind, check_reachable, after_nested, visit_loop,
  visit, visit_all, visit_method, is_empty, method_needs_return,
}

-- The conditions that the language calls constant and true. A folded condition is a constant next to
-- the expression it was made from.
pub data IsTrue : Expr → Type 0 where
  constant : {original : Expr} → IsTrue (Expr.const (Expr.bool_lit true) original)

-- A loop is left by its condition only, for there is no `break`: one with no condition, or with a
-- constant true one, runs forever.
pub data Endless : Option Expr → Type 0 where
  unconditional : Endless none
  always : {cond : Expr} → IsTrue cond → Endless (some cond)

-- The statement can complete normally, by the language's rules.
mutual
  pub data CanComplete : Stmt → Type 0 where
    empty : CanComplete Stmt.empty
    local_decl : {v : ℕ} {e : Expr} → CanComplete (Stmt.local_decl v e)
    expression : {e : Expr} → CanComplete (Stmt.expression e)
    block : {ts : Stmts} → CanCompleteAll ts → CanComplete (Stmt.block ts)
    if_true : {c : Expr} {t f : Stmt} → CanComplete t → CanComplete (Stmt.if_else c t f)
    if_false : {c : Expr} {t f : Stmt} → CanComplete f → CanComplete (Stmt.if_else c t f)
    for_loop :
        {init body : Stmt} {cond update : Option Expr}
        → ¬ (Endless cond)
        → CanComplete (Stmt.for_loop init cond update body)
    while_loop :
        {cond : Expr} {body : Stmt}
        → ¬ (Endless (some cond))
        → CanComplete (Stmt.while_loop cond body)

  pub data CanCompleteAll : Stmts → Type 0 where
    nil : CanCompleteAll Stmts.nil
    cons :
        {t : Stmt} {ts : Stmts}
        → CanComplete t
        → CanCompleteAll ts
        → CanCompleteAll (Stmts.cons t ts)

-- The code's test of a condition agrees with these.
loop_kind-forever : (cond : Option Expr) → ¬ (Endless cond) → loop_kind cond ≢ LoopKind.forever
unfolding loop_kind is_constant_bool
loop_kind-forever none ends h = ends Endless.unconditional
loop_kind-forever (some (Expr.const (Expr.bool_lit true) e)) ends h =
    ends (Endless.always IsTrue.constant)
loop_kind-forever (some (Expr.const (Expr.bool_lit false) e)) ends h = cc
loop_kind-forever (some (Expr.const _ e)) ends h = cc
loop_kind-forever (some _) ends h = cc

Endless-loop_kind : (cond : Option Expr) → Endless cond → loop_kind cond ≡ LoopKind.forever
unfolding loop_kind is_constant_bool
Endless-loop_kind none Endless.unconditional = refl
Endless-loop_kind cond (Endless.always IsTrue.constant) = refl

visit_loop-reachable :
    (k : LoopKind) (body : Stmt) (v nested : Flow)
    → k ≢ LoopKind.forever
    → v.reachable ≡ true
    → (visit_loop k body v nested).reachable ≡ true
unfolding visit_loop
visit_loop-reachable LoopKind.never body v nested h k = refl
visit_loop-reachable LoopKind.forever body v nested h k = absurd (h refl)
visit_loop-reachable LoopKind.maybe body v nested h k = k

check_reachable-reachable : (t : Stmt) (v : Flow) → (check_reachable t v).reachable ≡ v.reachable
unfolding check_reachable
check_reachable-reachable t v = ground arith

or_true : (b : Bool) → (b || true) ≡ true
or_true true = refl
or_true false = refl

mutual
  unfolding visit

  complete_reachable :
      (s : Stmt) → CanComplete s → (v : Flow) → v.reachable ≡ true → (visit s v).reachable ≡ true
  complete_reachable s CanComplete.empty v h = h
  complete_reachable s CanComplete.local_decl v h = h
  complete_reachable s CanComplete.expression v h = h
  complete_reachable s (CanComplete.block {ts} c) v h = complete_reachable_all ts c v h
  complete_reachable s (CanComplete.if_true {t} c) v h = rw (complete_reachable t c v h)
  complete_reachable s (CanComplete.if_false {t} {f} c) v h =
      rw (complete_reachable f c (after_nested v (visit t v)) h) (or_true (visit t v).reachable)
  complete_reachable s (CanComplete.for_loop {body} {cond} k) v h =
      visit_loop-reachable (loop_kind cond) body v (visit body v) (loop_kind-forever cond k) h
  complete_reachable s (CanComplete.while_loop {cond} {body} k) v h =
      visit_loop-reachable (loop_kind (some cond)) body v (visit body v)
        (loop_kind-forever (some cond) k) h

  complete_reachable_all :
      (ts : Stmts)
      → CanCompleteAll ts
      → (v : Flow) → v.reachable ≡ true
      → (visit_all ts v).reachable ≡ true
  complete_reachable_all ts CanCompleteAll.nil v h = h
  complete_reachable_all s (CanCompleteAll.cons {t} {ts} c cs) v h =
      complete_reachable_all ts cs (visit t (check_reachable t v))
        (complete_reachable t c (check_reachable t v) (check_reachable-reachable t v ∙ h))

not_nil : (xs : List FlowError) (x : FlowError) → concat xs x ≢ []
not_nil [] x h = cc
not_nil (y ∷ xs) x h = cc

check_reachable-clean :
    (t : Stmt) (v : Flow)
    → (check_reachable t v).errors ≡ []
    → v.may_emit ≡ true
    → (v.reachable ≡ true) × (check_reachable t v ≡ v)
unfolding check_reachable
check_reachable-clean t v none_new may = elim (Bool-cases v.reachable) [
  | inl yes_reach ↦ (yes_reach, rw yes_reach)
  | inr unreach ↦ absurd (ground (arith, not_nil v.errors (FlowError.unreachable_code t)))
]

check_errors_grow : (t : Stmt) (v : Flow) → (check_reachable t v).errors ≡ [] → v.errors ≡ []
unfolding check_reachable
check_errors_grow t v h = ground (arith, not_nil v.errors (FlowError.unreachable_code t))

loop_errors_grow :
    (k : LoopKind) (body : Stmt) (v nested : Flow)
    → (visit_loop k body v nested).errors ≡ []
    → (nested.errors ≡ [] → v.errors ≡ [])
    → v.errors ≡ []
unfolding visit_loop
loop_errors_grow LoopKind.never body v nested h k =
    check_errors_grow body (record v { reachable = false }) h
loop_errors_grow LoopKind.forever body v nested h k = k h
loop_errors_grow LoopKind.maybe body v nested h k = k h

-- Errors are only ever added.
mutual
  unfolding visit

  errors_grow : (s : Stmt) (v : Flow) → (visit s v).errors ≡ [] → v.errors ≡ []
  errors_grow Stmt.empty v h = h
  errors_grow (Stmt.local_decl x e) v h = h
  errors_grow (Stmt.return e) v h = h
  errors_grow (Stmt.expression e) v h = h
  errors_grow (Stmt.block ts) v h = errors_grow_all ts v h
  errors_grow (Stmt.if_else c t f) v h =
      errors_grow t v (errors_grow f (after_nested v (visit t v)) h)
  errors_grow (Stmt.for_loop init cond update body) v h =
      loop_errors_grow (loop_kind cond) body v (visit body v) h (errors_grow body v)
  errors_grow (Stmt.while_loop cond body) v h =
      loop_errors_grow (loop_kind (some cond)) body v (visit body v) h (errors_grow body v)

  errors_grow_all : (ts : Stmts) (v : Flow) → (visit_all ts v).errors ≡ [] → v.errors ≡ []
  errors_grow_all Stmts.nil v h = h
  errors_grow_all (Stmts.cons t ts) v h =
      check_errors_grow t v
        (errors_grow t (check_reachable t v) (errors_grow_all ts (visit t (check_reachable t v)) h))

loop-may_emit :
    (k : LoopKind) (body : Stmt) (v nested : Flow)
    → (visit_loop k body v nested).may_emit ≡ v.may_emit
unfolding visit_loop
loop-may_emit LoopKind.never body v nested = refl
loop-may_emit _ body v nested = refl

visit-may_emit : (s : Stmt) (v : Flow) → v.may_emit ≡ true → (visit s v).may_emit ≡ true
unfolding visit
visit-may_emit Stmt.empty v h = h
visit-may_emit (Stmt.local_decl x e) v h = h
visit-may_emit (Stmt.return e) v h = h
visit-may_emit (Stmt.expression e) v h = h
visit-may_emit (Stmt.block ts) v h = refl
visit-may_emit (Stmt.if_else c t f) v h = h
visit-may_emit (Stmt.for_loop init cond update body) v h =
    loop-may_emit (loop_kind cond) body v (visit body v) ∙ h
visit-may_emit (Stmt.while_loop cond body) v h =
    loop-may_emit (loop_kind (some cond)) body v (visit body v) ∙ h

-- A loop that is left without an error is no constant one.
loop-left :
    (k : LoopKind) (body : Stmt) (v nested : Flow)
    → (visit_loop k body v nested).errors ≡ []
    → v.may_emit ≡ true
    → (visit_loop k body v nested).reachable ≡ true
    → k ≢ LoopKind.forever
unfolding visit_loop
loop-left LoopKind.never body v nested h may r = λ _.
    let clash : false ≡ true =
      (check_reachable-clean body (record v { reachable = false }) h may).0 in
    cc
loop-left LoopKind.forever body v nested h may r = λ _. cc
loop-left LoopKind.maybe body v nested h may r = λ q. cc

all-reachable :
    (ts : Stmts) (v : Flow)
    → (visit_all ts v).errors ≡ []
    → v.may_emit ≡ true
    → (visit_all ts v).reachable ≡ true
    → v.reachable ≡ true
unfolding visit
all-reachable Stmts.nil v h may r = r
all-reachable (Stmts.cons t ts) v h may r =
    let inner : (check_reachable t v).errors ≡ [] =
      errors_grow t (check_reachable t v) (errors_grow_all ts (visit t (check_reachable t v)) h) in
    (check_reachable-clean t v inner may).0

check_reachable-may_emit :
    (t : Stmt) (v : Flow)
    → v.may_emit ≡ true
    → v.reachable ≡ true
    → (check_reachable t v).may_emit ≡ true
unfolding check_reachable
check_reachable-may_emit t v may r = ground arith

mutual
  unfolding visit

  reachable_complete :
      (s : Stmt) (v : Flow)
      → (visit s v).errors ≡ []
      → v.may_emit ≡ true
      → v.reachable ≡ true
      → (visit s v).reachable ≡ true
      → CanComplete s
  reachable_complete Stmt.empty v h may r q = CanComplete.empty
  reachable_complete (Stmt.local_decl x e) v h may r q = CanComplete.local_decl
  reachable_complete (Stmt.return e) v h may r q = cc
  reachable_complete (Stmt.expression e) v h may r q = CanComplete.expression
  reachable_complete (Stmt.block ts) v h may r q =
      CanComplete.block (reachable_complete_all ts v h may r q)
  reachable_complete (Stmt.if_else c t f) v h may r q = elim (Bool-cases (visit t v).reachable) [
    | inl first ↦
        CanComplete.if_true
          (reachable_complete t v (errors_grow f (after_nested v (visit t v)) h) may r first)
    | inr other ↦
        CanComplete.if_false
          (reachable_complete f (after_nested v (visit t v)) h may r (rw other at q))
  ]
  reachable_complete (Stmt.for_loop init cond update body) v h may r q =
      CanComplete.for_loop (λ endless.
        loop-left (loop_kind cond) body v (visit body v) h may q (Endless-loop_kind cond endless))
  reachable_complete (Stmt.while_loop cond body) v h may r q = CanComplete.while_loop (λ endless.
      loop-left (loop_kind (some cond)) body v (visit body v) h may q
        (Endless-loop_kind (some cond) endless))

  reachable_complete_all :
      (ts : Stmts) (v : Flow)
      → (visit_all ts v).errors ≡ []
      → v.may_emit ≡ true
      → v.reachable ≡ true
      → (visit_all ts v).reachable ≡ true
      → CanCompleteAll ts
  reachable_complete_all Stmts.nil v h may r q = CanCompleteAll.nil
  reachable_complete_all (Stmts.cons t ts) v h may r q =
      let w = check_reachable t v in
      let may' : w.may_emit ≡ true = check_reachable-may_emit t v may r in
      let r' : w.reachable ≡ true = check_reachable-reachable t v ∙ r in
      let later : (visit t w).reachable ≡ true =
        all-reachable ts (visit t w) h (visit-may_emit t w may') q in
      CanCompleteAll.cons (reachable_complete t w (errors_grow_all ts (visit t w) h) may' r' later)
        (reachable_complete_all ts (visit t w) h (visit-may_emit t w may') later q)

-- The state in which a method's body is visited.
abbrev pub entered : List FlowError → Flow
entered errors = record { reachable = true; may_emit = true; errors = errors }

-- Where a body is reported free of errors, the visitor finds its end reachable exactly if it can
-- complete normally by the language's rules, by which a loop with no condition or with a literal,
-- constant true one never does.
pub visit-CanComplete :
    (s : Stmt)
    → (visit s (entered [])).errors ≡ []
    → ((visit s (entered [])).reachable ≡ true) ↔ CanComplete s
visit-CanComplete s h =
    (reachable_complete s (entered []) h refl refl, λ c. complete_reachable s c (entered []) refl)

-- A method that returns a value, has a body, and passes without an error never runs off its end, by the
-- language's rules for normal completion.
pub visit_method-returns :
    (body : Stmt) → is_empty body ≡ false → visit_method false body [] ≡ [] → ¬ (CanComplete body)
unfolding visit_method
visit_method-returns body full h c = ground (
  arith,
  complete_reachable body c (entered []) refl,
  not_nil (visit body (entered [])).errors method_needs_return,
)
