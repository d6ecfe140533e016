-- ===== src/Types/Tests.antt =====
-- The type checker's tests, scopes, reachability and constant folding on small inputs.
use joosc.Ast.Ids.{
  TypeId, simple, same_type, byte_base, int_base, bool_base, null_base, first_ref_type_base,
}
use joosc.Ast.Tree.{Expr, Stmt, Stmts}
use joosc.Base.{PosRange}
use text.Mathlib.TextEquality.{eq_iff}
use joosc.Common.{
  ℕ, ◌^◌, ◌-◌, ◌≡◌, All, String, ◌≢◌, ◌↔◌, refl, Bool, true, false, not, ◌&&◌, none, some, List, [],
  ◌∷◌, ok, codes, arith,
}
use joosc.Lexer.TokenType.{TokenType}
use joosc.Types.Conversions.{
  is_numeric, is_primitive_widening, is_primitive_narrowing, is_castable, is_comparable,
}
use joosc.Types.Conversions.Laws.{
  within, is_primitive_widening-within, is_primitive_narrowing-within, is_castable_comm,
  is_comparable_comm,
}
use joosc.Types.Folding.{JString, stringify, StringMap, no_strings, find, ◌>>=◌, lift, rewrite}
use joosc.Types.Folding.Words.{digits}
use joosc.Types.Folding.Decimal.{read_int, signed, stringify-read_int}
use joosc.Types.Folding.Faults.{sign_extended, rewrite_bitwise, rewrite_byte_cast}
use joosc.Types.Folding.Steady.{Fixed}
use joosc.Types.Folding.Steady.Idempotent.{rewrite_idempotent}
use joosc.Types.Folding.Steady.Collected.{rewrite_each, OneEach, rewrite_each-OneEach}
use joosc.Types.Reachability.{
  loop_kind, is_constant_bool, check_reachable, visit_loop, visit, visit_method,
}
use joosc.Types.Reachability.Sound.{CanComplete, entered, visit-CanComplete, visit_method-returns}
use joosc.Types.Symbols.{
  VariableInfo, SymbolError, SymbolTable, enter_scope, leave_scope, declare_found,
  declare_local_start, declare_local_end, empty_table, symbol_table, add_params, add_param,
}
use joosc.Types.Symbols.Resolving.{
  HasIds, Declared, declare_local_start-Declared, declare_local_start-HasIds, symbol_table-HasIds,
}
use joosc.Types.Symbols.Scoping.{Body, SameScope, leave_scope_restores}

abbrev int_type : TypeId
int_type = simple int_base

abbrev byte_type : TypeId
byte_type = simple byte_base

abbrev bool_type : TypeId
bool_type = simple bool_base

abbrev object_type : TypeId
object_type = simple first_ref_type_base

abbrev string_type : TypeId
string_type = simple 17

-- Every class is below `object_type`.
abbrev below_object : TypeId → TypeId → Bool
below_object child parent = same_type parent object_type

is_primitive_widening-within_example :
    is_primitive_widening int_type byte_type
    ≡ ok (
        is_numeric int_type
        && is_numeric byte_type
        && not (same_type int_type byte_type)
        && within int_type byte_type)
is_primitive_widening-within_example = is_primitive_widening-within int_type byte_type

is_primitive_narrowing-within_example :
    is_primitive_narrowing byte_type int_type
    ≡ ok (
        is_numeric byte_type
        && is_numeric int_type
        && not (same_type byte_type int_type)
        && not (within byte_type int_type))
is_primitive_narrowing-within_example = is_primitive_narrowing-within byte_type int_type

is_castable_comm_example :
    is_castable below_object object_type string_type
    ≡ is_castable below_object string_type object_type
is_castable_comm_example =
    is_castable_comm below_object object_type string_type (λ h. refl) (λ h. refl)

is_comparable_comm_example :
    is_comparable below_object object_type (simple null_base)
    ≡ is_comparable below_object (simple null_base) object_type
is_comparable_comm_example =
    is_comparable_comm below_object object_type (simple null_base) (λ h. refl) (λ h. refl)

abbrev here : PosRange
here = record { fileid = 0; begin = 4; end = 5 }

abbrev with_param : SymbolTable
with_param = (symbol_table (record { tid = int_type; name = "a"; pos = here; vid = 0 } ∷ [])).0

abbrev param : String → VariableInfo
param name = record { tid = int_type; name = name; pos = here; vid = 0 }

a-ne-b : All (λ (p : VariableInfo). p.name ≢ "b") (param "a" ∷ [])
a-ne-b = (λ same. absurd (ground (arith, (eq_iff "a" "b").1 same)), tt)

symbol_table-HasIds_example :
    HasIds (symbol_table (param "a" ∷ param "b" ∷ param "b" ∷ [])).0
    × ((symbol_table (param "a" ∷ param "b" ∷ param "b" ∷ [])).0.cur_symbols "b"
        ≡ some (record (param "b") { vid = 101 }))
symbol_table-HasIds_example =
    symbol_table-HasIds (param "a" ∷ []) (param "b") (param "b" ∷ []) a-ne-b

with_param-free : with_param.currently_declaring ≡ 0
unfolding symbol_table add_params add_param enter_scope
with_param-free = refl

param-HasIds : HasIds with_param
param-HasIds = (symbol_table-HasIds [] (param "a") [] tt).0

declare_local_start-Declared_example :
    (s' : SymbolTable) × (vid : ℕ) × (errors : List SymbolError) × (declare_local_start int_type "b"
        here with_param
      ≡ ok (s', vid, errors))
    × Declared int_type "b" here with_param s' vid errors
declare_local_start-Declared_example =
    declare_local_start-Declared int_type "b" here with_param with_param-free param-HasIds

-- The parameter's name is taken.
again :
    declare_local_start int_type "a" here with_param
    ≡ ok (with_param, 100, SymbolError.duplicate_var_decl "a" here here ∷ [])
unfolding declare_local_start declare_found symbol_table add_params add_param enter_scope
again = refl

declare_local_start-HasIds_example : HasIds with_param
declare_local_start-HasIds_example =
    declare_local_start-HasIds int_type "a" here with_param again param-HasIds

abbrev inner : SymbolTable
inner = (declare_found none int_type "b" here (enter_scope empty_table)).0

inner-declared :
    declare_local_start int_type "b" here (enter_scope empty_table) ≡ ok (inner, 100, [])
unfolding declare_local_start declare_found enter_scope
inner-declared = refl

inner-Body : Body (enter_scope empty_table) (declare_local_end inner)
inner-Body = Body.declare int_type "b" here 100 [] inner-declared Body.done

leave_scope_restores_example :
    (u : SymbolTable) × (leave_scope (declare_local_end inner) ≡ ok u) × SameScope u empty_table
leave_scope_restores_example = leave_scope_restores empty_table (declare_local_end inner) inner-Body

-- `while (c) ;` with a condition that is no constant.
abbrev waiting : Stmt
waiting = Stmt.while_loop (Expr.name 100 bool_type) Stmt.empty

waiting-clean : (visit waiting (entered [])).errors ≡ []
unfolding visit visit_loop loop_kind is_constant_bool
waiting-clean = refl

visit-CanComplete_example : ((visit waiting (entered [])).reachable ≡ true) ↔ CanComplete waiting
visit-CanComplete_example = visit-CanComplete waiting waiting-clean

-- `{ return 1; }`.
abbrev returning : Stmt
returning = Stmt.block (Stmts.cons (Stmt.return (some (Expr.int_lit 1 int_type))) Stmts.nil)

returning-clean : visit_method false returning [] ≡ []
unfolding visit_method visit check_reachable
returning-clean = refl

visit_method-returns_example : ¬ (CanComplete returning)
visit_method-returns_example = visit_method-returns returning refl returning-clean

abbrev one : Expr
one = Expr.int_lit 1 int_type

abbrev two : Expr
two = Expr.int_lit 2 int_type

abbrev sum : Expr
sum = Expr.bin one TokenType.add two int_type

abbrev three : Expr
three = Expr.const (Expr.int_lit 3 int_type) sum

sum-folds : rewrite string_type sum no_strings ≡ ok (three, no_strings)
unfolding rewrite lift ◌>>=◌
sum-folds = refl

rewrite_idempotent_example : Fixed (rewrite string_type three) three
rewrite_idempotent_example =
    rewrite_idempotent string_type sum three no_strings no_strings sum-folds

abbrev greeting : Expr
greeting = Expr.bin (Expr.string_lit (codes "a") string_type) TokenType.add one string_type

abbrev collected : StringMap
collected = record { entries = (codes "a1", 1) ∷ (codes "a", 0) ∷ []; next_string_id = 2 }

abbrev greeting_folded : Expr
greeting_folded = Expr.const (Expr.string_lit (codes "a1") string_type) greeting

greeting-folds :
    rewrite_each string_type (greeting ∷ []) no_strings ≡ ok (greeting_folded ∷ [], collected)
unfolding rewrite_each rewrite lift ◌>>=◌ digits find
greeting-folds = refl

rewrite_each-OneEach_example : OneEach collected
rewrite_each-OneEach_example =
    rewrite_each-OneEach string_type (greeting ∷ []) (greeting_folded ∷ []) collected greeting-folds

-- The byte literal -12.
stringify-read_int_example :
    (text : JString) × (stringify string_type
        (Expr.const (Expr.int_lit (2 ^ 32 - 12) byte_type) Expr.null_lit)
      ≡ ok text)
    × (read_int text ≡ signed (2 ^ 32 - 12))
unfolding is_numeric same_type
stringify-read_int_example =
    stringify-read_int string_type byte_type (2 ^ 32 - 12) Expr.null_lit (omega arith) refl refl
      refl

rewrite_bitwise_example :
    rewrite string_type
      (Expr.bin (Expr.bool_lit true) TokenType.bor (Expr.bool_lit false) bool_type)
      no_strings
    ≡ ok (
      Expr.const
          (Expr.bool_lit false)
          (Expr.bin (Expr.bool_lit true) TokenType.bor (Expr.bool_lit false) bool_type),
      no_strings,
    )
rewrite_bitwise_example = rewrite_bitwise string_type TokenType.bor true false no_strings refl

abbrev byte_200 : Expr
byte_200 = Expr.cast (Expr.cast (Expr.int_lit 200 int_type) byte_type) int_type

rewrite_byte_cast_example :
    (rewrite string_type byte_200 no_strings
      ≡ ok (Expr.const (Expr.int_lit 200 int_type) byte_200, no_strings))
    × (200 ≢ sign_extended 200)
rewrite_byte_cast_example = rewrite_byte_cast string_type 200 no_strings (omega arith)
