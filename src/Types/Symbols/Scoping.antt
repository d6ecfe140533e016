-- ===== src/Types/Symbols/Scoping.antt =====
-- types/symbol_table.cpp: what happens between `EnterScope` and its `LeaveScope`.
use text.Mathlib.Text.{◌==◌ as str_eq}
use text.Mathlib.TextEquality.{eq_iff}
use text.Mathlib.TextPositions.{eq_refl}
use joosc.Ast.Ids.{TypeId, var_unassigned}
use joosc.Base.{PosRange}
use joosc.Common.{
  ℕ, ◌≡◌, refl, sym, ap, subst, fun_ext, ◌∙◌, true, Option, none, some, List, [], ◌∷◌, ◌++◌, leb,
  ◌==◌, length, length-append, ok, String, ==_iff, ok_injective, arith, Bool-cases, inl, inr,
}
use joosc.Types.Symbols.{
  VariableInfo, SymbolError, Symbols, insert, erase, SymbolTable, enter_scope, leave_loop,
  pop_length, leave_scope, declare_found, declare_local_start, declare_local_end,
}

-- What happens between `EnterScope` and its `LeaveScope`: declarations, and whole inner scopes.
pub data Body : SymbolTable → SymbolTable → Type 0 where
  done : {s : SymbolTable} → Body s s
  declare :
      {s s' t : SymbolTable} (tid : TypeId) (name : String) (pos : PosRange) (vid : ℕ)
      (errors : List SymbolError)
      → declare_local_start tid name pos s ≡ ok (s', vid, errors)
      → Body (declare_local_end s') t
      → Body s t
  nested :
      {s t u v : SymbolTable} → Body (enter_scope s) t → leave_scope t ≡ ok u → Body u v → Body s v

-- The names that were added to a map, the last one first; each was new.
data Grown (base : Symbols) : List String → Symbols → Type 0 where
  same : Grown base [] base
  more :
      {names : List String} {m : Symbols} (name : String) (v : VariableInfo)
      → Grown base names m
      → m name ≡ none
      → Grown base (name ∷ names) (insert name v m)

erase-insert :
    (n : String) (v : VariableInfo) (m : Symbols) → m n ≡ none → erase n (insert n v m) ≡ m
erase-insert n v m new = fun_ext λ k. elim (Bool-cases (str_eq n k)) [
  | inl found ↦ rw found (sym (subst (λ x. m x ≡ none) ((eq_iff n k).0 found) new))
  | inr other ↦ rw other
]

leave_loop-Grown :
    {base m : Symbols} {names : List String}
    → Grown base names m
    → (scopes : List String) → leave_loop (length names) (names ++ scopes) m ≡ ok (scopes, base)
unfolding leave_loop
leave_loop-Grown same scopes = refl
leave_loop-Grown (more {names} {m} name v g new) scopes =
    rw (eq_refl name, leave_loop) (rw (erase-insert name v m new) (leave_loop-Grown g scopes))

-- The table inside a scope that was entered at `outer`.
record Inside (outer s : SymbolTable) : Type 0 where
  names : List String
  grown : Grown outer.cur_symbols names s.cur_symbols
  stacked : s.scopes ≡ names ++ outer.scopes
  counted : s.cur_scope_len ≡ length names
  lengths : s.scope_lengths ≡ outer.cur_scope_len ∷ outer.scope_lengths

-- Two tables with the same variables in the same scopes.
pub record SameScope (s t : SymbolTable) : Type 0 where
  pub cur_symbols : s.cur_symbols ≡ t.cur_symbols
  pub cur_scope_len : s.cur_scope_len ≡ t.cur_scope_len
  pub scopes : s.scopes ≡ t.scopes
  pub scope_lengths : s.scope_lengths ≡ t.scope_lengths

enter_scope-Inside : (s : SymbolTable) → Inside s (enter_scope s)
unfolding enter_scope
enter_scope-Inside s = record {
  names = [];
  grown = same;
  stacked = refl;
  counted = refl;
  lengths = refl;
}

leave_scope-Inside :
    (outer s : SymbolTable)
    → Inside outer s
    → (u : SymbolTable) × (leave_scope s ≡ ok u) × SameScope u outer
unfolding leave_scope pop_length
leave_scope-Inside outer s inside =
    let left = leave_loop-Grown inside.grown outer.scopes in
    let enough : leb s.cur_scope_len (length s.scopes) ≡ true =
      ground (arith, ap length inside.stacked, length-append inside.names outer.scopes) in
    let left' : leave_loop s.cur_scope_len s.scopes s.cur_symbols
        ≡ ok (outer.scopes, outer.cur_symbols) =
      rw (inside.counted, inside.stacked) left in
    (
      record s {
        scopes = outer.scopes;
        cur_symbols = outer.cur_symbols;
        cur_scope_len = outer.cur_scope_len;
        scope_lengths = outer.scope_lengths;
      },
      ground (arith, enough, left', inside.lengths),
      record { cur_symbols = refl; cur_scope_len = refl; scopes = refl; scope_lengths = refl },
    )

declare_found-Inside :
    (outer s : SymbolTable) (o : Option VariableInfo) (tid : TypeId) (name : String)
    (pos : PosRange)
    → s.cur_symbols name ≡ o
    → Inside outer s
    → Inside outer (declare_local_end (declare_found o tid name pos s).0)
unfolding declare_found declare_local_end
declare_found-Inside outer s none tid name pos new inside = record {
  names = name ∷ inside.names;
  grown = more name _ inside.grown new;
  stacked = ap (λ (xs : List String). name ∷ xs) inside.stacked;
  counted = omega (arith, inside.counted);
  lengths = inside.lengths;
}
declare_found-Inside outer s (some old) tid name pos found inside = record {
  names = inside.names;
  grown = inside.grown;
  stacked = inside.stacked;
  counted = inside.counted;
  lengths = inside.lengths;
}

pub declare_local_start-found :
    (tid : TypeId) (name : String) (pos : PosRange) (s : SymbolTable)
    {r : SymbolTable × ℕ × List SymbolError}
    → declare_local_start tid name pos s ≡ ok r
    → (s.currently_declaring ≡ var_unassigned)
      × (declare_found (s.cur_symbols name) tid name pos s ≡ r)
unfolding declare_local_start
declare_local_start-found tid name pos s h =
    elim (Bool-cases (s.currently_declaring == var_unassigned)) [
      | inl free ↦
          ((==_iff s.currently_declaring var_unassigned).0 free, ok_injective (rw free at h))
      | inr busy ↦ let clash = rw busy at h in absurd (cc)
    ]

declare-Inside :
    {outer s s' : SymbolTable} (tid : TypeId) (name : String) (pos : PosRange) {vid : ℕ}
    {errors : List SymbolError}
    → declare_local_start tid name pos s ≡ ok (s', vid, errors)
    → Inside outer s
    → Inside outer (declare_local_end s')
declare-Inside {outer} {s} tid name pos started inside =
    subst (λ t. Inside outer (declare_local_end t))
      (ap (λ (r : SymbolTable × ℕ × List SymbolError). r.0)
        (declare_local_start-found tid name pos s started).1)
      (declare_found-Inside outer s (s.cur_symbols name) tid name pos refl inside)

-- A scope left with the outer variables is inside whatever the outer one is.
SameScope-Inside : {outer s u : SymbolTable} → SameScope u s → Inside outer s → Inside outer u
SameScope-Inside {outer} same_as inside = record {
  names = inside.names;
  grown = subst (Grown outer.cur_symbols inside.names) (sym same_as.cur_symbols) inside.grown;
  stacked = same_as.scopes ∙ inside.stacked;
  counted = same_as.cur_scope_len ∙ inside.counted;
  lengths = same_as.scope_lengths ∙ inside.lengths;
}

Body-Inside :
    {s t : SymbolTable} → Body s t → (outer : SymbolTable) → Inside outer s → Inside outer t
Body-Inside done outer inside = inside
Body-Inside (declare tid name pos vid errors started body) outer inside =
    Body-Inside body outer (declare-Inside tid name pos started inside)
Body-Inside (nested {s} {t} {u} inner left body) outer inside =
    let (u', left', same_as) =
      leave_scope-Inside s t (Body-Inside inner s (enter_scope-Inside s)) in
    let same_u : u' ≡ u = ok_injective (sym left' ∙ left) in
    Body-Inside body outer (SameScope-Inside (subst (λ x. SameScope x s) same_u same_as) inside)

-- However a scope's body declares and nests, leaving it fails no check and gives back the variables
-- and the scopes that there were when it was entered.
pub leave_scope_restores :
    (s t : SymbolTable)
    → Body (enter_scope s) t
    → (u : SymbolTable) × (leave_scope t ≡ ok u) × SameScope u s
leave_scope_restores s t body = leave_scope-Inside s t (Body-Inside body s (enter_scope-Inside s))
