-- ===== src/Backend/Offsets/Table.antt =====
-- backend/common/offset_table.h, offset_table.cpp: static fields, native methods, and the whole table with
-- its look-ups.
use joosc.Ast.Ids.{TypeId, same_type, static_type_info_id}
use joosc.Ast.Modifiers.{TypeKind, has_modifier}
use joosc.Backend.Offsets.{
  TypeMap, FieldMap, is_interface, stable_sort, build_type_sizes_and_field_offsets,
}
use joosc.Backend.Offsets.Interfaces.{Itable, ItableMap, build_iface_method_offsets}
use joosc.Backend.Offsets.Methods.{MethodMap, Vtable, VtableMap, build_class_method_offsets}
use joosc.Common.{
  ℕ, ◌+◌, Bool, ◌&&◌, Option, List, [], ◌∷◌, ◌++◌, codes, ltb, ◌==◌, if◌then◌else◌, Outcome, ok,
  check, ◌>>=◌, ◌>>◌,
}
use joosc.Common.Maps.{get, at_key, insert_new}
use joosc.Ir.Size.{SizeClass, class_index, size_class_from}
use joosc.Lexer.TokenType.{static, native}
use joosc.Types.Info.{FieldInfo, MethodInfo, TypeInfo}

abbrev pub StaticFields : Type 0
StaticFields = List (ℕ × SizeClass)

abbrev pub StaticFieldMap : Type 0
StaticFieldMap = List (TypeId × StaticFields)

-- The methods that are implemented outside, by their labels.
abbrev pub NativeMap : Type 0
NativeMap = List (ℕ × List ℕ)

-- Static fields that the class declares.
unfoldable pub static_fields : TypeId → List FieldInfo → StaticFields
unfolding size_class_from
static_fields type [] = []
static_fields type (finfo ∷ fields) =
    let rest = static_fields type fields in
    if has_modifier finfo.mods static && same_type finfo.class_type type
    then (finfo.fid, size_class_from finfo.field_type) ∷ rest
    else rest

unfoldable pub larger_static : ℕ × SizeClass → ℕ × SizeClass → Bool
unfolding class_index
larger_static lhs rhs = ltb (class_index rhs.1) (class_index lhs.1)

unfoldable pub build_static_field_map : List TypeInfo → StaticFieldMap → Outcome StaticFieldMap
unfolding static_fields larger_static stable_sort insert_new
build_static_field_map [] out = ok out
build_static_field_map (tinfo ∷ types) out = do
  out' ←
      if is_interface tinfo.kind
      then ok out
      else insert_new same_type tinfo.type
          (stable_sort larger_static
            (static_fields tinfo.type tinfo.fields ++ (static_type_info_id, SizeClass.ptr) ∷ []))
          out
  build_static_field_map types out'

unfoldable pub native_label : TypeInfo → MethodInfo → List ℕ
native_label type minfo =
    codes "NATIVE"
    ++ (type.package_name ++ (codes "." ++ (type.name ++ (codes "." ++ minfo.signature.name))))

unfoldable pub add_natives : TypeInfo → List MethodInfo → NativeMap → Outcome NativeMap
unfolding native_label insert_new
add_natives type [] out = ok out
add_natives type (minfo ∷ methods) out = do
  out' ←
      if has_modifier minfo.mods native && same_type minfo.class_type type.type
      then insert_new ◌==◌ minfo.mid (native_label type minfo) out
      else ok out
  add_natives type methods out'

unfoldable pub build_natives : List TypeInfo → NativeMap → Outcome NativeMap
unfolding add_natives
build_natives [] out = ok out
build_natives (type ∷ types) out = do
  out' ← add_natives type type.methods out
  build_natives types out'

pub record OffsetTable : Type 0 where
  pub type_sizes : TypeMap
  pub field_offsets : FieldMap
  pub method_offsets : MethodMap
  pub vtables : VtableMap
  pub itables : ItableMap
  pub statics : StaticFieldMap
  pub natives : NativeMap
  pub ptr_size : ℕ

abbrev earlier_type : TypeInfo → TypeInfo → Bool
earlier_type lhs rhs = ltb lhs.top_sort_index rhs.top_sort_index

-- The types are sorted; no two have the same index.
unfoldable pub build : List TypeInfo → ℕ → Outcome OffsetTable
unfolding stable_sort build_type_sizes_and_field_offsets build_static_field_map
    build_class_method_offsets build_iface_method_offsets build_natives
build tinfos ptr_size = do
  let types = stable_sort earlier_type tinfos
  (type_sizes, field_offsets) ← build_type_sizes_and_field_offsets ptr_size types [] []
  statics ← build_static_field_map types []
  classes ←
      build_class_method_offsets ptr_size types
        (record { starting_offsets = []; method_out = []; vtable_out = [] })
  (method_offsets, itables) ← build_iface_method_offsets types ptr_size classes.method_out []
  natives ← build_natives types []
  ok (record {
    type_sizes = type_sizes;
    field_offsets = field_offsets;
    method_offsets = method_offsets;
    vtables = classes.vtable_out;
    itables = itables;
    statics = statics;
    natives = natives;
    ptr_size = ptr_size;
  })

abbrev pub object_overhead : OffsetTable → ℕ
object_overhead offsets = offsets.ptr_size

unfoldable pub size_of : OffsetTable → TypeId → Outcome ℕ
unfolding at_key
size_of offsets tid = do
  check (tid.ndims == 0)
  size ← at_key same_type tid offsets.type_sizes
  ok (size + object_overhead offsets)

unfoldable pub offset_of_field : OffsetTable → ℕ → Outcome ℕ
unfolding at_key
offset_of_field offsets fid = do
  offset ← at_key ◌==◌ fid offsets.field_offsets
  ok (offset + object_overhead offsets)

unfoldable pub offset_of_method : OffsetTable → ℕ → Outcome (ℕ × TypeKind)
unfolding at_key
offset_of_method offsets mid = at_key ◌==◌ mid offsets.method_offsets

unfoldable pub vtable_of : OffsetTable → TypeId → Outcome Vtable
unfolding at_key
vtable_of offsets tid = at_key same_type tid offsets.vtables

unfoldable pub itable_at : OffsetTable → TypeId → Outcome Itable
unfolding at_key
itable_at offsets tid = at_key same_type tid offsets.itables

unfoldable pub static_fields_of : OffsetTable → TypeId → Outcome StaticFields
unfolding at_key
static_fields_of offsets tid = at_key same_type tid offsets.statics

unfoldable pub native_call : OffsetTable → ℕ → Option (List ℕ)
native_call offsets mid = get ◌==◌ mid offsets.natives
