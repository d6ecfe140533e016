-- ===== src/Backend/Offsets/Methods.antt =====
-- backend/common/offset_table.cpp, `BuildClassMethodOffsets`: the slots of the methods in the vtables of
-- classes, in the order of the types.
use joosc.Ast.Ids.{TypeId, same_type, unassigned_method_id}
use joosc.Ast.Modifiers.{TypeKind, has_modifier}
use joosc.Backend.Offsets.{TypeMap, is_interface, stable_sort}
use joosc.Common.{
  ℕ, ◌+◌, Bool, not, ◌||◌, List, [], ◌∷◌, map, concat, ltb, ◌==◌, if◌then◌else◌, Outcome, ok,
  thrown, Exn, ◌>>=◌,
}
use joosc.Common.Maps.{at_key, insert_new, insert_unless}
use joosc.Lexer.TokenType.{static}
use joosc.Types.Info.{MethodInfo, TypeInfo}

abbrev pub MethodMap : Type 0
MethodMap = List (ℕ × (ℕ × TypeKind))

abbrev pub Vtable : Type 0
Vtable = List (TypeId × ℕ)

abbrev pub VtableMap : Type 0
VtableMap = List (TypeId × Vtable)

-- `VtableOverhead`: the type information and the pointer to the itable.
unfoldable pub vtable_overhead : ℕ → ℕ
vtable_overhead ptr_size = ptr_size + ptr_size

-- The loop over the methods of a class: what it changes.
pub record Placing : Type 0 where
  pub my_offset : ℕ
  pub vtable : Vtable
  pub method_out : MethodMap

-- Static methods and constructors have no slot.
unfoldable pub has_slot : MethodInfo → Bool
has_slot minfo = not (has_modifier minfo.mods static || minfo.signature.is_constructor)

unfoldable pub slot_offset : MethodMap → ℕ → Outcome ℕ
unfolding at_key
slot_offset method_out mid = do slot ← at_key ◌==◌ mid method_out; ok slot.0

module _ (ptr_size : ℕ) where
  -- A method that the class declares.
  unfoldable pub place_own : MethodInfo → Placing → Outcome Placing
  unfolding at_key insert_unless
  place_own minfo s =
      if minfo.parent_mid == unassigned_method_id
      then ok (record s {
        my_offset = s.my_offset + ptr_size;
        method_out = insert_unless ◌==◌ minfo.mid (s.my_offset, TypeKind.class_kind) s.method_out;
      })
      else do
        slot ← at_key ◌==◌ minfo.parent_mid s.method_out
        ok (record s { method_out = insert_unless ◌==◌ minfo.mid slot s.method_out })

  unfoldable pub place_method : TypeId → MethodInfo → Placing → Outcome Placing
  unfolding has_slot place_own
  place_method type minfo s =
      let pushed = record s { vtable = concat s.vtable (minfo.class_type, minfo.mid) } in
      if not (has_slot minfo)
      then ok s
      else if same_type minfo.class_type type
      then place_own minfo pushed
      else ok pushed

  unfoldable pub place_methods : TypeId → List MethodInfo → Placing → Outcome Placing
  unfolding place_method
  place_methods type [] s = ok s
  place_methods type (minfo ∷ methods) s = do
    s' ← place_method type minfo s
    place_methods type methods s'

  unfoldable pub starting_offset : List TypeId → TypeMap → Outcome ℕ
  unfolding at_key vtable_overhead
  starting_offset [] starting_offsets = ok (vtable_overhead ptr_size)
  starting_offset (parent ∷ []) starting_offsets = at_key same_type parent starting_offsets
  starting_offset (parent ∷ other ∷ more) starting_offsets = thrown Exn.check_failed

-- The entries with their offsets.
unfoldable pub keyed : MethodMap → Vtable → Outcome (List (ℕ × (TypeId × ℕ)))
unfolding slot_offset
keyed method_out [] = ok []
keyed method_out (entry ∷ vtable) = do
  offset ← slot_offset method_out entry.1
  rest ← keyed method_out vtable
  ok ((offset, entry) ∷ rest)

unfoldable pub earlier_slot : ℕ × (TypeId × ℕ) → ℕ × (TypeId × ℕ) → Bool
earlier_slot lhs rhs = ltb lhs.0 rhs.0

-- `std::sort` by the offsets, which the comparison reads; one entry is not compared. The order of equal
-- offsets is not said.
unfoldable pub sort_vtable : MethodMap → Vtable → Outcome Vtable
unfolding keyed stable_sort earlier_slot
sort_vtable method_out [] = ok []
sort_vtable method_out (entry ∷ []) = ok (entry ∷ [])
sort_vtable method_out (entry ∷ other ∷ vtable) = do
  entries ← keyed method_out (entry ∷ other ∷ vtable)
  ok (map (λ e. e.1) (stable_sort earlier_slot entries))

-- What the loop over the types changes.
pub record ClassTables : Type 0 where
  pub starting_offsets : TypeMap
  pub method_out : MethodMap
  pub vtable_out : VtableMap

module _ (ptr_size : ℕ) where
  unfoldable pub add_class : TypeInfo → ClassTables → Outcome ClassTables
  unfolding starting_offset place_methods insert_new sort_vtable
  add_class tinfo s = if is_interface tinfo.kind then ok s else do
    start ← starting_offset ptr_size tinfo.extends s.starting_offsets
    placed ←
        place_methods ptr_size tinfo.type tinfo.methods
          (record { my_offset = start; vtable = []; method_out = s.method_out })
    starting_offsets ← insert_new same_type tinfo.type placed.my_offset s.starting_offsets
    vtable ← sort_vtable placed.method_out placed.vtable
    vtable_out ← insert_new same_type tinfo.type vtable s.vtable_out
    ok (record {
      starting_offsets = starting_offsets;
      method_out = placed.method_out;
      vtable_out = vtable_out;
    })

  unfoldable pub build_class_method_offsets : List TypeInfo → ClassTables → Outcome ClassTables
  unfolding add_class
  build_class_method_offsets [] s = ok s
  build_class_method_offsets (tinfo ∷ types) s = do
    s' ← add_class tinfo s
    build_class_method_offsets types s'
