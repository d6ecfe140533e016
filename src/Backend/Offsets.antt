-- ===== src/Backend/Offsets.antt =====
-- backend/common/offset_table.h, offset_table.cpp: where fields, methods and static fields lie. A `u64`
-- that counts bytes or slots is a number: a program has far fewer than 2 ^ 32 of them. A map is a list
-- of entries; `std::stable_sort` is insertion that keeps the order of equals.
pub mod Divides
pub mod Sorted
pub mod Laid
pub mod Methods
pub mod Interfaces
pub mod Table
pub mod Slotted
use joosc.Ast.Ids.{TypeId, same_type, static_type_info_id, unassigned_method_id}
use joosc.Ast.Modifiers.{TypeKind, class_kind, interface_kind, has_modifier}
use joosc.Common.{
  ℕ, ◌+◌, ◌-◌, ◌*◌, ◌%◌, Bool, true, false, not, ◌&&◌, ◌||◌, Option, none, some, List, [], ◌∷◌,
  ◌++◌, map, ltb, ◌==◌, if◌then◌else◌, Outcome, ok, thrown, Exn, check, ◌>>=◌, ◌>>◌,
}
use joosc.Common.Maps.{get, found, at_key, insert_new, insert_unless}
use joosc.Ir.Size.{SizeClass, class_index, size_class_from, byte_size_from}
use joosc.Lexer.TokenType.{static, native}
use joosc.Types.Info.{
  FieldInfo, MethodInfo, MethodSignature, TypeInfo, same_signature, signature_lt,
}

abbrev pub TypeMap : Type 0
TypeMap = List (TypeId × ℕ)

abbrev pub FieldMap : Type 0
FieldMap = List (ℕ × ℕ)

abbrev pub is_interface : TypeKind → Bool
is_interface TypeKind.interface_kind = true
is_interface TypeKind.class_kind = false

-- `std::stable_sort` by a test for "less".
module _ {ℓ} {A : Type ℓ} (lt : A → A → Bool) where
  unfoldable pub sort_insert : A → List A → List A
  sort_insert x [] = x ∷ []
  sort_insert x (y ∷ ys) = let rest = sort_insert x ys in if lt y x then y ∷ rest else x ∷ y ∷ ys

  unfoldable pub stable_sort : List A → List A
  unfolding sort_insert
  stable_sort [] = []
  stable_sort (x ∷ xs) = sort_insert x (stable_sort xs)

-- Own fields that are not static.
unfoldable pub is_simple_field : TypeId → FieldInfo → Bool
is_simple_field t f = same_type f.class_type t && not (has_modifier f.mods static)

unfoldable pub select {ℓ} : {A : Type ℓ} → (A → Bool) → List A → List A
select p [] = []
select p (x ∷ xs) = if p x then x ∷ select p xs else select p xs

-- The comparison `lt_cmp`.
unfoldable pub larger_field : FieldInfo → FieldInfo → Bool
unfolding class_index size_class_from
larger_field lhs rhs =
    ltb (class_index (size_class_from rhs.field_type))
      (class_index (size_class_from lhs.field_type))

unfoldable pub extract_simple_fields : TypeInfo → List FieldInfo
unfolding stable_sort larger_field select is_simple_field
extract_simple_fields tinfo =
    stable_sort larger_field (select (is_simple_field tinfo.type) tinfo.fields)

unfoldable pub round_up_to_multiple_of : ℕ → ℕ → ℕ
round_up_to_multiple_of size multiple =
    if size % multiple == 0 then size else size + (multiple - size % multiple)

module _ (ptr_size : ℕ) where
  -- The inner loop of `BuildTypeSizesAndFieldOffsets`: `my_size` and `field_out`.
  unfoldable pub add_fields : List FieldInfo → ℕ → FieldMap → Outcome (ℕ × FieldMap)
  unfolding insert_new byte_size_from size_class_from
  add_fields [] my_size field_out = ok (my_size, field_out)
  add_fields (f ∷ fields) my_size field_out = do
    field_out' ← insert_new ◌==◌ f.fid my_size field_out
    add_fields fields (my_size + byte_size_from (size_class_from f.field_type) ptr_size) field_out'

  unfoldable pub parent_size : List TypeId → TypeMap → Outcome ℕ
  unfolding at_key
  parent_size [] type_out = ok 0
  parent_size (parent ∷ []) type_out = at_key same_type parent type_out
  parent_size (parent ∷ other ∷ more) type_out = thrown Exn.check_failed

  unfoldable pub add_type : TypeInfo → TypeMap → FieldMap → Outcome (TypeMap × FieldMap)
  unfolding parent_size extract_simple_fields add_fields round_up_to_multiple_of insert_new
  add_type tinfo type_out field_out =
      if is_interface tinfo.kind then ok (type_out, field_out) else do
        start ← parent_size tinfo.extends type_out
        (my_size, field_out') ← add_fields (extract_simple_fields tinfo) start field_out
        type_out' ←
            insert_new same_type tinfo.type (round_up_to_multiple_of my_size ptr_size) type_out
        ok (type_out', field_out')

  unfoldable pub build_type_sizes_and_field_offsets :
      List TypeInfo → TypeMap → FieldMap → Outcome (TypeMap × FieldMap)
  unfolding add_type
  build_type_sizes_and_field_offsets [] type_out field_out = ok (type_out, field_out)
  build_type_sizes_and_field_offsets (tinfo ∷ types) type_out field_out = do
    (type_out', field_out') ← add_type tinfo type_out field_out
    build_type_sizes_and_field_offsets types type_out' field_out'
