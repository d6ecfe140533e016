-- ===== src/Types/Reachability.antt =====
-- types/dataflow_visitor.cpp: `IsConstantBool` and `ReachabilityVisitor`. The errors, which all nested
-- visitors append to one list, are part of the state.
pub mod Sound
use joosc.Ast.Tree.{
  Expr, bool_lit, const, Stmt, empty, local_decl, return, expression, block, if_else, for_loop,
  while_loop, Stmts, nil, cons,
}
use joosc.Common.{
  Bool, true, false, not, ◌&&◌, ◌||◌, Option, none, some, List, [], concat, if◌then◌else◌,
}

unfoldable pub is_constant_bool : Expr → Bool → Bool
is_constant_bool (const (bool_lit is_true) original) want = if is_true then want else not want
is_constant_bool _ want = false

pub data FlowError : Type 0 where
  unreachable_code : Stmt → FlowError
  method_needs_return : FlowError

pub record Flow : Type 0 where
  pub reachable : Bool
  pub may_emit : Bool
  pub errors : List FlowError

unfoldable pub check_reachable : Stmt → Flow → Flow
check_reachable t v =
    if not v.reachable && v.may_emit
    then record v { may_emit = false; errors = concat v.errors (unreachable_code t) }
    else v

-- A nested visitor ends: its errors stay, its flags go.
abbrev pub after_nested : Flow → Flow → Flow
after_nested v nested = record v { errors = nested.errors }

-- What `VisitLoop` makes of a condition.
pub data LoopKind : Type 0 where
  never forever maybe : LoopKind

unfoldable pub loop_kind : Option Expr → LoopKind
unfolding is_constant_bool
loop_kind none = LoopKind.forever
loop_kind (some cond) =
    if is_constant_bool cond true
    then LoopKind.forever
    else if is_constant_bool cond false
    then LoopKind.never
    else LoopKind.maybe

-- `VisitLoop`, given what the nested visitor of the body gives back.
unfoldable pub visit_loop : LoopKind → Stmt → Flow → Flow → Flow
unfolding check_reachable
visit_loop LoopKind.never body v nested =
    let nested = check_reachable body (record v { reachable = false }) in
    record v { errors = nested.errors; reachable = true }
visit_loop LoopKind.forever body v nested = record v { errors = nested.errors; reachable = false }
visit_loop LoopKind.maybe body v nested = after_nested v nested

unfoldable mutual
  pub visit : Stmt → Flow → Flow
  visit empty v = v
  visit (local_decl vid value) v = v
  visit (return value) v = record v { reachable = false }
  visit (expression e) v = v
  visit (block stmts) v = let w = visit_all stmts v in record w { may_emit = true }
  visit (if_else cond t f) v =
      let true_visitor = visit t v in
      let false_visitor = visit f (after_nested v true_visitor) in
      record v {
        reachable = true_visitor.reachable || false_visitor.reachable;
        errors = false_visitor.errors;
      }
  visit (for_loop init cond update body) v = visit_loop (loop_kind cond) body v (visit body v)
  visit (while_loop cond body) v = visit_loop (loop_kind (some cond)) body v (visit body v)

  -- The loop of a block.
  pub visit_all : Stmts → Flow → Flow
  visit_all nil v = v
  visit_all (cons t ts) v = visit_all ts (visit t (check_reachable t v))

abbrev pub is_empty : Stmt → Bool
is_empty empty = true
is_empty _ = false

-- `MethodDecl`; `is_void` holds for constructors and for the type `void`.
unfoldable pub visit_method : Bool → Stmt → List FlowError → List FlowError
visit_method is_void body errors =
    if is_empty body
    then errors
    else let v = visit body (record { reachable = true; may_emit = true; errors = errors }) in
      if v.reachable && not is_void then concat v.errors method_needs_return else v.errors
