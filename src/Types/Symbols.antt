-- ===== src/Types/Symbols.antt =====
-- types/symbol_table.h, types/symbol_table.cpp: the local variables in scope. `cur_symbols_` is the
-- function that looks a name up; the vectors `scopes_` and `scope_lengths_` are stacks, their backs
-- the heads of lists. Each operation gives back the errors that it appends.
pub mod Scoping
pub mod Resolving
use text.Mathlib.Text.{◌==◌ as str_eq}
use joosc.Ast.Ids.{TypeId, simple, unassigned_base, var_unassigned, var_first}
use joosc.Base.{PosRange}
use joosc.Common.{
  ℕ, zero, suc, ◌+◌, Bool, true, false, not, ◌&&◌, Option, none, some, List, [], ◌∷◌, leb, ◌==◌,
  if◌then◌else◌, length, ◌++◌, Outcome, ok, thrown, Exn, check, ◌>>=◌, ◌>>◌, String,
}

pub record VariableInfo : Type 0 where
  pub tid : TypeId
  pub name : String
  pub pos : PosRange
  pub vid : ℕ

pub data SymbolError : Type 0 where
  duplicate_var_decl : String → PosRange → PosRange → SymbolError
  variable_initializer_self_reference : PosRange → SymbolError

abbrev pub Symbols : Type 0
Symbols = String → Option VariableInfo

abbrev pub insert : String → VariableInfo → Symbols → Symbols
insert n v m k = if str_eq n k then some v else m k

abbrev pub erase : String → Symbols → Symbols
erase n m k = if str_eq n k then none else m k

pub record SymbolTable : Type 0 where
  pub cur_symbols : Symbols
  pub cur_scope_len : ℕ
  pub scopes : List String
  pub scope_lengths : List ℕ
  pub var_id_counter : ℕ
  pub currently_declaring : ℕ

unfoldable pub enter_scope : SymbolTable → SymbolTable
enter_scope s = record s { scope_lengths = s.cur_scope_len ∷ s.scope_lengths; cur_scope_len = 0 }

-- The loop of `LeaveScope`: rounds left, `scopes_` and `cur_symbols_`.
unfoldable pub leave_loop : ℕ → List String → Symbols → Outcome (List String × Symbols)
leave_loop zero scopes symbols = ok (scopes, symbols)
leave_loop (suc i) [] symbols = thrown Exn.out_of_range
leave_loop (suc i) (name ∷ scopes) symbols = elim (symbols name) [
  | none ↦ thrown Exn.check_failed
  | some _ ↦ leave_loop i scopes (erase name symbols)
]

-- The end of `LeaveScope`, on the stack of lengths.
unfoldable pub pop_length : SymbolTable → List ℕ → Outcome SymbolTable
pop_length s [] = thrown Exn.check_failed
pop_length s (len ∷ lengths) = ok (record s { cur_scope_len = len; scope_lengths = lengths })

unfoldable pub leave_scope : SymbolTable → Outcome SymbolTable
leave_scope s = do
  check (leb s.cur_scope_len (length s.scopes) && not (length s.scope_lengths == 0))
  (scopes, symbols) ← leave_loop s.cur_scope_len s.scopes s.cur_symbols
  pop_length (record s { scopes = scopes; cur_symbols = symbols }) s.scope_lengths

-- `DeclareLocalStart` behind its lookup.
unfoldable pub declare_found :
    Option VariableInfo
    → TypeId
    → String
    → PosRange
    → SymbolTable
    → SymbolTable × ℕ × List SymbolError
declare_found (some old) tid name pos s = (s, old.vid, duplicate_var_decl name pos old.pos ∷ [])
declare_found none tid name pos s = (
  record s {
    currently_declaring = s.var_id_counter;
    var_id_counter = s.var_id_counter + 1;
    cur_symbols =
        insert name (record { tid = tid; name = name; pos = pos; vid = s.var_id_counter })
          s.cur_symbols;
    scopes = name ∷ s.scopes;
    cur_scope_len = s.cur_scope_len + 1;
  },
  s.var_id_counter,
  [],
)

-- The table, the variable's id and the errors.
unfoldable pub declare_local_start :
    TypeId → String → PosRange → SymbolTable → Outcome (SymbolTable × ℕ × List SymbolError)
declare_local_start tid name pos s = do
  check (s.currently_declaring == var_unassigned)
  ok (declare_found (s.cur_symbols name) tid name pos s)

unfoldable pub declare_local_end : SymbolTable → SymbolTable
declare_local_end s = record s { currently_declaring = var_unassigned }

abbrev pub unresolved : TypeId × ℕ
unresolved = (simple unassigned_base, var_unassigned)

unfoldable pub resolve_found :
    Option VariableInfo → PosRange → SymbolTable → (TypeId × ℕ) × List SymbolError
resolve_found none pos s = (unresolved, [])
resolve_found (some var) pos s =
    if s.currently_declaring == var.vid
    then (unresolved, variable_initializer_self_reference pos ∷ [])
    else ((var.tid, var.vid), [])

unfoldable pub resolve_local : String → PosRange → SymbolTable → (TypeId × ℕ) × List SymbolError
resolve_local name pos s = resolve_found (s.cur_symbols name) pos s

-- One round of the constructor's loop, behind the lookup that `insert` makes.
unfoldable pub add_param :
    Option VariableInfo → VariableInfo → SymbolTable → SymbolTable × List SymbolError
add_param (some old) param s = (
  record s { var_id_counter = s.var_id_counter + 1 },
  duplicate_var_decl param.name old.pos param.pos ∷ [],
)
add_param none param s = (
  record s {
    cur_symbols = insert param.name (record param { vid = s.var_id_counter }) s.cur_symbols;
    var_id_counter = s.var_id_counter + 1;
  },
  [],
)

unfoldable pub add_params : List VariableInfo → SymbolTable → SymbolTable × List SymbolError
add_params [] s = (s, [])
add_params (param ∷ params) s =
    let (s', errors) = add_param (s.cur_symbols param.name) param s in
    let (s'', more) = add_params params s' in (s'', errors ++ more)

abbrev pub empty_table : SymbolTable
empty_table = record {
  cur_symbols = λ _. none;
  cur_scope_len = 0;
  scopes = [];
  scope_lengths = [];
  var_id_counter = var_first;
  currently_declaring = var_unassigned;
}

-- The constructor.
unfoldable pub symbol_table : List VariableInfo → SymbolTable × List SymbolError
symbol_table params = add_params params (enter_scope empty_table)
