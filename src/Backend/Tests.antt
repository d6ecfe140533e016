-- ===== src/Backend/Tests.antt =====
-- The offset table of a class with two fields, and the code of a method.
use joosc.Ast.Ids.{TypeId, same_type, simple, byte_base, int_base}
use joosc.Ast.Modifiers.{ModifierList, TypeKind, has_modifier}
use joosc.Backend.Offsets.{TypeMap, FieldMap}
use joosc.Backend.Offsets.Table.{OffsetTable}
use joosc.Backend.Offsets.Methods.{ClassTables, has_slot, build_class_method_offsets}
use joosc.Backend.Offsets.Slotted.{members, role, all_declared, no_classes}
use joosc.Backend.Writer.{Context, FuncWriter, StackEntry, write_prologue, setup_params}
use joosc.Backend.Writer.Func.{new_writer, write_func, write_ops}
use joosc.Backend.Writer.Labels.{Finished, write_func-Finished}
use joosc.Backend.Offsets.Interfaces.{Itable}
use joosc.Backend.Writer.Tables.{itable_lines}
use joosc.Backend.Writer.Tables.Words.{words, StandsIn, itable_lines-StandsIn}
use joosc.Backend.Writer.Slots.Kept.{write_until, write_until-Apart}
use joosc.Backend.Writer.Slots.{Apart, InFrame}
use joosc.Backend.Offsets.Sorted.{Pairs}
use joosc.Backend.Offsets.Slotted.Dispatch.{
  Inherits, origins, Dispatches, build_class_method_offsets-Dispatches,
}
use mathlib.Core.List.Permᴰ
use joosc.Common.{
  ◌≢◌, Memᴰ, All, ℕ, false, Outcome, thrown, ◌≡◌, refl, arith, none, List, [], ◌∷◌, ok, codes,
}
use joosc.Common.Integers.{pos, negsuc}
use joosc.Common.States.{◌>>=◌, modify, gets, lift, pure, check_that}
use joosc.Ir.Size.{SizeClass, class_index}
use joosc.Ir.Stream.{OpType, Op, Stream}
use joosc.Types.Info.{MethodInfo, FieldInfo, TypeInfo}

abbrev no_modifiers : ModifierList
no_modifiers m = none

abbrev point : TypeId
point = simple 20

abbrev flag : FieldInfo
flag = record {
  fid = 3;
  class_type = point;
  mods = no_modifiers;
  field_type = simple byte_base;
  name = codes "flag";
}

abbrev count : FieldInfo
count = record {
  fid = 4;
  class_type = point;
  mods = no_modifiers;
  field_type = simple int_base;
  name = codes "count";
}

abbrev types : List TypeInfo
types =
    record {
      mods = no_modifiers;
      kind = TypeKind.class_kind;
      type = point;
      name = codes "Point";
      package_name = [];
      extends = [];
      implements = [];
      methods = [];
      fields = flag ∷ count ∷ [];
      top_sort_index = 0;
    }
    ∷ []

abbrev sizes : TypeMap
sizes = (point, 8) ∷ []

-- The wider field comes first.
abbrev offsets : FieldMap
offsets = (3, 4) ∷ (4, 0) ∷ []

abbrev table : OffsetTable
table = record {
  type_sizes = sizes;
  field_offsets = offsets;
  method_offsets = [];
  vtables = [];
  itables = [];
  statics = [];
  natives = [];
  ptr_size = 4;
}

abbrev context : Context
context = record {
  offsets = table;
  file = codes "ab\ncd";
  field_class = λ tid fid. ok tid;
  rt_ids = record { object_tid = point; type_info_tid = point; type_info_instanceof = 30 };
  frame = record { fid = 0; tid = 20; mid = 5; line = 0 };
}

-- `return n / n`, in a temporary.
abbrev quotient : Stream
quotient = record {
  is_entry_point = false;
  tid = 20;
  mid = 5;
  args = 2 ∷ 4 ∷ 1 ∷ 2 ∷ 1 ∷ 1 ∷ 4 ∷ 2 ∷ 2 ∷ [];
  ops =
      record { type = OpType.alloc_mem; begin = 0; end = 3 }
      ∷ record { type = OpType.div; begin = 3; end = 7 }
      ∷ record { type = OpType.ret; begin = 7; end = 8 }
      ∷ record { type = OpType.dealloc_mem; begin = 8; end = 9 }
      ∷ [];
  params = SizeClass.int ∷ [];
}

-- The state at the end, where there is no exception.
abbrev final : Outcome (Unit {0} × FuncWriter) → FuncWriter
final (ok (u, w)) = w
final (thrown e) = new_writer [] []

abbrev written : FuncWriter
written = final (write_func context quotient (new_writer [] []))

write_func-Finished_example : Finished written
unfolding write_func ◌>>=◌ modify gets lift pure check_that class_index
write_func-Finished_example = write_func-Finished context quotient [] written refl

abbrev divided : List Op
divided =
    record { type = OpType.alloc_mem; begin = 0; end = 3 }
    ∷ record { type = OpType.div; begin = 3; end = 7 }
    ∷ []

abbrev halfway : FuncWriter
halfway = final (write_until context quotient divided (new_writer [] []))

abbrev param_entry : StackEntry
param_entry = record { size = SizeClass.int; offset = negsuc 11; id = 1 }

abbrev temp_entry : StackEntry
temp_entry = record { size = SizeClass.int; offset = pos 0; id = 2 }

write_until-Apart_example :
    Apart temp_entry.offset param_entry.offset × InFrame halfway.cur_offset temp_entry.offset
unfolding write_ops ◌>>=◌ write_prologue modify setup_params gets lift pure check_that class_index
write_until-Apart_example =
    write_until-Apart context quotient divided [] halfway 2 1 temp_entry param_entry refl refl refl
      (λ e. cc)

abbrev returns_int : List ℕ → ℕ → TypeId → ℕ → MethodInfo
returns_int name mid class_type parent_mid = record {
  mid = mid;
  class_type = class_type;
  mods = no_modifiers;
  return_type = simple int_base;
  signature = record { is_constructor = false; name = name; param_types = [] };
  parent_mid = parent_mid;
}

abbrev shape : TypeId
shape = simple 19

abbrev class_of : TypeId → List ℕ → List TypeId → List MethodInfo → TypeInfo
class_of type name extends methods = record {
  mods = no_modifiers;
  kind = TypeKind.class_kind;
  type = type;
  name = name;
  package_name = [];
  extends = extends;
  implements = [];
  methods = methods;
  fields = [];
  top_sort_index = 0;
}

-- `Point` inherits `area`, overrides `size` and declares `norm`.
abbrev hierarchy : List TypeInfo
hierarchy =
    class_of shape (codes "Shape") []
      (returns_int (codes "area") 10 shape 0 ∷ returns_int (codes "size") 11 shape 0 ∷ [])
    ∷ class_of point (codes "Point") (shape ∷ []) (
        returns_int (codes "area") 10 shape 0
        ∷ returns_int (codes "size") 21 point 11
        ∷ returns_int (codes "norm") 22 point 0
        ∷ [])
    ∷ []

abbrev class_tables : Outcome ClassTables → ClassTables
class_tables (ok tables) = tables
class_tables (thrown e) = no_classes

abbrev laid : ClassTables
laid = class_tables (build_class_method_offsets 4 hierarchy no_classes)

-- The overriding method stands where the overridden one does.
laid_vtables :
    laid.vtable_out
    ≡ (point, (shape, 10) ∷ (point, 21) ∷ (point, 22) ∷ [])
      ∷ (shape, (shape, 10) ∷ (shape, 11) ∷ [])
      ∷ []
unfolding build_class_method_offsets has_modifier same_type
laid_vtables = refl

-- The ids that the hierarchy declares.
hierarchy-declared : Pairs ◌≢◌ (all_declared hierarchy)
unfolding all_declared has_modifier role same_type has_slot
hierarchy-declared = (
  ((λ e. cc), ((λ e. cc), ((λ e. cc), tt))),
  (((λ e. cc), ((λ e. cc), tt)), (((λ e. cc), tt), (tt, tt))),
)

hierarchy-laid : build_class_method_offsets 4 hierarchy no_classes ≡ ok laid
unfolding build_class_method_offsets has_modifier same_type
hierarchy-laid = refl

hierarchy-Inherits : Inherits [] hierarchy
unfolding origins members has_modifier role same_type has_slot
hierarchy-Inherits =
    ((λ class. refl), ((λ class. (_, Memᴰ.head refl, refl, refl, Permᴰ.refl _)), tt))

build_class_method_offsets-Dispatches_example : All (Dispatches 4 laid) hierarchy
build_class_method_offsets-Dispatches_example =
    build_class_method_offsets-Dispatches 4 hierarchy laid hierarchy-declared hierarchy-Inherits
      hierarchy-laid

-- `Point` has no method of the first and of the third signature.
abbrev itable : Itable
itable = (4, (point, 21)) ∷ (12, (point, 22)) ∷ []

itable_lines-StandsIn_example : All (StandsIn (words (itable_lines 0 itable))) itable
itable_lines-StandsIn_example =
    itable_lines-StandsIn itable (1, refl, omega arith, (3, refl, omega arith, tt))
