-- ===== src/Types/Symbols/Resolving.antt =====
-- types/symbol_table.cpp: the ids of variables, and `ResolveLocal` behind a declaration.
use text.Mathlib.Text.{◌==◌ as str_eq}
use text.Mathlib.TextEquality.{eq_iff}
use text.Mathlib.TextPositions.{eq_refl}
use joosc.Ast.Ids.{TypeId, var_unassigned, var_first}
use joosc.Base.{PosRange}
use joosc.Common.{
  ℕ, ◌+◌, ◌≤◌, ◌<◌, ◌≡◌, ◌≢◌, ◌⊎◌, refl, sym, ap, subst, ◌∙◌, Option, none, some, List, [], ◌∷◌,
  ◌++◌, All, length, ok, String, arith, Bool-cases, inl, inr, some_injective,
}
use joosc.Types.Symbols.{
  VariableInfo, SymbolError, variable_initializer_self_reference, duplicate_var_decl, Symbols,
  insert, SymbolTable, enter_scope, declare_found, declare_local_start, declare_local_end,
  resolve_found, resolve_local, unresolved, add_param, add_params, symbol_table, empty_table,
}
use joosc.Types.Symbols.Scoping.{declare_local_start-found}

-- Each variable in scope is found under its own name, and no two have one id.
pub record HasIds (s : SymbolTable) : Type 0 where
  pub first : var_first ≤ s.var_id_counter
  pub fresh : (n : String) (v : VariableInfo) → s.cur_symbols n ≡ some v → v.vid < s.var_id_counter
  pub known : (n : String) (v : VariableInfo) → s.cur_symbols n ≡ some v → var_first ≤ v.vid
  pub unique :
      (n k : String) (v w : VariableInfo)
      → s.cur_symbols n ≡ some v
      → s.cur_symbols k ≡ some w
      → v.vid ≡ w.vid
      → n ≡ k

insert-cases :
    (n k : String) (v w : VariableInfo) (m : Symbols)
    → insert n v m k ≡ some w
    → ((n ≡ k) × (v ≡ w)) ⊎ (m k ≡ some w)
insert-cases n k v w m h = elim (Bool-cases (str_eq n k)) [
  | inl found ↦ inl ((eq_iff n k).0 found, some_injective (rw found at h))
  | inr other ↦ inr (rw other at h)
]

vid_eq : {v w : VariableInfo} → v ≡ w → v.vid ≡ w.vid
vid_eq h = ap (λ (u : VariableInfo). u.vid) h

-- A table whose variable `n` is new, with the next id.
abbrev with_new : String → VariableInfo → SymbolTable → SymbolTable
with_new n v s = record s {
  cur_symbols = insert n v s.cur_symbols;
  var_id_counter = s.var_id_counter + 1;
}

with_new-HasIds :
    (n : String) (v : VariableInfo) (s : SymbolTable)
    → v.vid ≡ s.var_id_counter
    → HasIds s
    → HasIds (with_new n v s)
with_new-HasIds n v s id ids = record {
  first = omega (arith, ids.first);
  fresh = λ k w h. elim (insert-cases n k v w s.cur_symbols h) [
    | inl (_, same) ↦ omega (arith, id, vid_eq same)
    | inr old ↦ omega (arith, ids.fresh k w old)
  ];
  known = λ k w h. elim (insert-cases n k v w s.cur_symbols h) [
    | inl (_, same) ↦ omega (arith, id, vid_eq same, ids.first)
    | inr old ↦ ids.known k w old
  ];
  unique = λ k l w x hw hx same_id. elim (insert-cases n k v w s.cur_symbols hw) [
    | inl (nk, vw) ↦ elim (insert-cases n l v x s.cur_symbols hx) [
      | inl (nl, vx) ↦ sym nk ∙ nl
      | inr old ↦ absurd (omega (arith, id, vid_eq vw, ids.fresh l x old))
    ]
    | inr old ↦ elim (insert-cases n l v x s.cur_symbols hx) [
      | inl (nl, vx) ↦ absurd (omega (arith, id, vid_eq vx, ids.fresh k w old))
      | inr old' ↦ ids.unique k l w x old old' same_id
    ]
  ];
}

-- The id counter may run ahead.
skip-HasIds :
    (s : SymbolTable) → HasIds s → HasIds (record s { var_id_counter = s.var_id_counter + 1 })
skip-HasIds s ids = record {
  first = omega (arith, ids.first);
  fresh = λ k w h. omega (arith, ids.fresh k w h);
  known = ids.known;
  unique = ids.unique;
}

declare_found-HasIds :
    (o : Option VariableInfo) (tid : TypeId) (name : String) (pos : PosRange) (s : SymbolTable)
    → HasIds s
    → HasIds (declare_found o tid name pos s).0
unfolding declare_found
declare_found-HasIds none tid name pos s ids =
    let added =
      with_new-HasIds name (record { tid = tid; name = name; pos = pos; vid = s.var_id_counter }) s
        refl ids in
    record { first = added.first; fresh = added.fresh; known = added.known; unique = added.unique }
declare_found-HasIds (some old) tid name pos s ids = ids

-- Declaring a variable keeps the ids apart, whether or not the name was taken.
pub declare_local_start-HasIds :
    (tid : TypeId) (name : String) (pos : PosRange) (s : SymbolTable) {s' : SymbolTable} {vid : ℕ}
    {errors : List SymbolError}
    → declare_local_start tid name pos s ≡ ok (s', vid, errors)
    → HasIds s
    → HasIds s'
declare_local_start-HasIds tid name pos s started ids =
    subst HasIds
      (ap (λ (r : SymbolTable × ℕ × List SymbolError). r.0)
        (declare_local_start-found tid name pos s started).1)
      (declare_found-HasIds (s.cur_symbols name) tid name pos s ids)

add_param-HasIds :
    (o : Option VariableInfo) (param : VariableInfo) (s : SymbolTable)
    → HasIds s
    → HasIds (add_param o param s).0
unfolding add_param
add_param-HasIds none param s ids =
    with_new-HasIds param.name (record param { vid = s.var_id_counter }) s refl ids
add_param-HasIds (some old) param s ids = skip-HasIds s ids

add_params-HasIds :
    (params : List VariableInfo) (s : SymbolTable) → HasIds s → HasIds (add_params params s).0
unfolding add_params
add_params-HasIds [] s ids = ids
add_params-HasIds (param ∷ params) s ids =
    add_params-HasIds params _ (add_param-HasIds (s.cur_symbols param.name) param s ids)

empty-HasIds : HasIds (enter_scope empty_table)
unfolding enter_scope
empty-HasIds = record {
  first = omega arith;
  fresh = λ n v h. cc;
  known = λ n v h. cc;
  unique = λ n k v w h. cc;
}

-- Every parameter uses up one id.
add_param_counter :
    (o : Option VariableInfo) (param : VariableInfo) (s : SymbolTable)
    → (add_param o param s).0.var_id_counter ≡ s.var_id_counter + 1
unfolding add_param
add_param_counter none param s = refl
add_param_counter (some old) param s = refl

add_param_new :
    (o : Option VariableInfo) (param : VariableInfo) (s : SymbolTable)
    → o ≡ none
    → (add_param o param s).0.cur_symbols param.name
      ≡ some (record param { vid = s.var_id_counter })
unfolding add_param
add_param_new none param s new = rw (eq_refl param.name)
add_param_new (some old) param s new = cc

add_param_other :
    (o : Option VariableInfo) (param : VariableInfo) (s : SymbolTable) (name : String)
    → param.name ≢ name
    → (add_param o param s).0.cur_symbols name ≡ s.cur_symbols name
unfolding add_param
add_param_other none param s name differs = ground (arith, eq_iff param.name name)
add_param_other (some old) param s name differs = refl

-- A name that is taken keeps its variable.
add_param_old :
    (o : Option VariableInfo) (param : VariableInfo) (s : SymbolTable) (name : String)
    {v : VariableInfo}
    → s.cur_symbols param.name ≡ o
    → s.cur_symbols name ≡ some v
    → (add_param o param s).0.cur_symbols name ≡ some v
unfolding add_param
add_param_old none param s name {v} looked taken = elim (Bool-cases (str_eq param.name name)) [
  | inl same ↦
      let here : s.cur_symbols param.name ≡ some v = rw ((eq_iff param.name name).0 same) taken in
      let clash : none ≡ some v = sym looked ∙ here in cc
  | inr other ↦ rw other taken
]
add_param_old (some old) param s name looked taken = taken

add_params_old :
    (params : List VariableInfo) (s : SymbolTable) (name : String) {v : VariableInfo}
    → s.cur_symbols name ≡ some v
    → (add_params params s).0.cur_symbols name ≡ some v
unfolding add_params
add_params_old [] s name taken = taken
add_params_old (param ∷ params) s name taken =
    add_params_old params _ name (add_param_old (s.cur_symbols param.name) param s name refl taken)

add_params_first :
    (before : List VariableInfo) (param : VariableInfo) (rest : List VariableInfo) (s : SymbolTable)
    → All (λ (p : VariableInfo). p.name ≢ param.name) before
    → s.cur_symbols param.name ≡ none
    → (add_params (before ++ param ∷ rest) s).0.cur_symbols param.name
      ≡ some (record param { vid = s.var_id_counter + length before })
unfolding add_params
add_params_first [] param rest s others new = add_params_old rest _ param.name (
    add_param_new (s.cur_symbols param.name) param s new
    ∙ ap (λ (n : ℕ). some (record param { vid = n })) (omega arith))
add_params_first (p ∷ before) param rest s (differs, others) new =
    add_params_first before param rest _ others
      (add_param_other (s.cur_symbols p.name) p s param.name differs ∙ new)
    ∙ ap (λ (n : ℕ). some (record param { vid = n }))
        (omega (arith, add_param_counter (s.cur_symbols p.name) p s))

-- The constructor puts every parameter whose name no earlier one has into the table, with its type and
-- with an id that tells its place, and then each variable has an id of its own.
pub symbol_table-HasIds :
    (before : List VariableInfo) (param : VariableInfo) (rest : List VariableInfo)
    → All (λ (p : VariableInfo). p.name ≢ param.name) before
    → HasIds (symbol_table (before ++ param ∷ rest)).0
      × ((symbol_table (before ++ param ∷ rest)).0.cur_symbols param.name
          ≡ some (record param { vid = var_first + length before }))
unfolding symbol_table enter_scope
symbol_table-HasIds before param rest others = (
  add_params-HasIds (before ++ param ∷ rest) (enter_scope empty_table) empty-HasIds,
  add_params_first before param rest (enter_scope empty_table) others refl,
)

-- What a declaration does: the cases of a new name, and of one that is taken.
abbrev pub Declared :
    TypeId → String → PosRange → SymbolTable → SymbolTable → ℕ → List SymbolError → Type 0
Declared tid name pos s s' vid errors =
    ((s.cur_symbols name ≡ none)
      × (errors ≡ [])
      × (vid ≡ s.var_id_counter)
      × ((at : PosRange)
          → resolve_local name at s' ≡ (unresolved, variable_initializer_self_reference at ∷ []))
      × ((at : PosRange) → resolve_local name at (declare_local_end s') ≡ ((tid, vid), []))
      × ((other : String) (at : PosRange)
          → other ≢ name
          → resolve_local other at (declare_local_end s') ≡ resolve_local other at s))
    ⊎ (old : VariableInfo) × (s.cur_symbols name ≡ some old)
      × (s' ≡ s)
      × (vid ≡ old.vid)
      × (errors ≡ duplicate_var_decl name pos old.pos ∷ [])

declare_found-Declared :
    (o : Option VariableInfo) (tid : TypeId) (name : String) (pos : PosRange) (s : SymbolTable)
    → s.cur_symbols name ≡ o
    → s.currently_declaring ≡ var_unassigned
    → HasIds s
    → let (s', vid, errors) = declare_found o tid name pos s in
      Declared tid name pos s s' vid errors
unfolding declare_found resolve_local resolve_found declare_local_end
declare_found-Declared none tid name pos s new free ids = inl (
  new,
  refl,
  refl,
  λ at. ground (arith, eq_refl name),
  λ at. ground (arith, eq_refl name, ids.first),
  λ other at ne. ground (arith, eq_iff name other, free),
)
declare_found-Declared (some old) tid name pos s found free ids = inr (old, found, refl, refl, refl)

-- Where ids are apart and no declaration is open, declaring a new name fails no check: the name is a
-- self reference in its own initializer, behind it resolves to the type and the id given, and other
-- names resolve as before. A name that is taken changes nothing and is reported.
pub declare_local_start-Declared :
    (tid : TypeId) (name : String) (pos : PosRange) (s : SymbolTable)
    → s.currently_declaring ≡ var_unassigned
    → HasIds s
    → (s' : SymbolTable) × (vid : ℕ) × (errors : List SymbolError) × (declare_local_start tid name
          pos s
        ≡ ok (s', vid, errors))
      × Declared tid name pos s s' vid errors
unfolding declare_local_start
declare_local_start-Declared tid name pos s free ids =
    let (s', vid, errors) = declare_found (s.cur_symbols name) tid name pos s in
    (
      s',
      vid,
      errors,
      rw free,
      declare_found-Declared (s.cur_symbols name) tid name pos s refl free ids,
    )
