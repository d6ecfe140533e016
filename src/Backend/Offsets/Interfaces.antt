-- ===== src/Backend/Offsets/Interfaces.antt =====
-- backend/common/offset_table.cpp, `BuildIfaceMethodOffsets`: the slots of interface methods in the itables
-- of all classes.
use joosc.Ast.Ids.{TypeId, same_type}
use joosc.Ast.Modifiers.{TypeKind}
use joosc.Backend.Offsets.{is_interface, stable_sort}
use joosc.Backend.Offsets.Methods.{MethodMap}
use joosc.Common.{
  ℕ, ◌+◌, Bool, true, false, not, Option, some, none, List, [], ◌∷◌, ltb, ◌==◌, if◌then◌else◌,
  Outcome, ok, check, ◌>>=◌, ◌>>◌,
}
use joosc.Common.Maps.{get, insert_new, insert_unless}
use joosc.Types.Info.{MethodInfo, MethodSignature, TypeInfo, same_signature, signature_lt}

-- An offset, a type and a method.
abbrev pub Itable : Type 0
Itable = List (ℕ × (TypeId × ℕ))

abbrev pub ItableMap : Type 0
ItableMap = List (TypeId × Itable)

-- `iface_methods.insert`, in the order of the signatures; one that is there stays.
unfoldable pub insert_signature : MethodSignature → List MethodSignature → List MethodSignature
unfolding signature_lt
insert_signature x [] = x ∷ []
insert_signature x (y ∷ ys) =
    let rest = insert_signature x ys in
    if signature_lt x y then x ∷ y ∷ ys else if signature_lt y x then y ∷ rest else y ∷ ys

unfoldable pub has_method : ℕ → MethodMap → Bool
has_method mid method_out = elim (get ◌==◌ mid method_out) [ some slot ↦ true | none ↦ false ]

-- Pass 1. A method of `Object` has its slot in the vtable.
unfoldable pub collect_methods :
    MethodMap → List MethodInfo → List MethodSignature → List MethodSignature
unfolding has_method insert_signature
collect_methods method_out [] iface_methods = iface_methods
collect_methods method_out (minfo ∷ methods) iface_methods = collect_methods method_out methods (
    if has_method minfo.mid method_out
    then iface_methods
    else insert_signature minfo.signature iface_methods)

unfoldable pub collect_signatures :
    MethodMap → List TypeInfo → List MethodSignature → List MethodSignature
unfolding collect_methods
collect_signatures method_out [] iface_methods = iface_methods
collect_signatures method_out (tinfo ∷ types) iface_methods = collect_signatures method_out types (
    if is_interface tinfo.kind
    then collect_methods method_out tinfo.methods iface_methods
    else iface_methods)

-- Pass 2, from an offset on.
unfoldable pub number_signatures : ℕ → ℕ → List MethodSignature → List (MethodSignature × ℕ)
number_signatures ptr_size offset [] = []
number_signatures ptr_size offset (signature ∷ iface_methods) =
    (signature, offset) ∷ number_signatures ptr_size (offset + ptr_size) iface_methods

abbrev has_offset : ℕ → Option (ℕ × TypeKind) → Bool
has_offset offset (some slot) = slot.0 == offset
has_offset offset none = false

-- Pass 3, for a method of an interface.
unfoldable pub place_iface_method :
    List (MethodSignature × ℕ) → TypeId → MethodInfo → MethodMap → Outcome MethodMap
unfolding insert_unless same_signature
place_iface_method iface_methods type minfo method_out =
    if not (same_type type minfo.class_type)
    then ok method_out
    else elim (get same_signature minfo.signature iface_methods) [
      | none ↦ ok method_out
      | some offset ↦ do
        let method_out' = insert_unless ◌==◌ minfo.mid (offset, TypeKind.interface_kind) method_out
        check (has_offset offset (get ◌==◌ minfo.mid method_out'))
        ok method_out'
    ]

unfoldable pub place_iface_methods :
    List (MethodSignature × ℕ) → TypeId → List MethodInfo → MethodMap → Outcome MethodMap
unfolding place_iface_method
place_iface_methods iface_methods type [] method_out = ok method_out
place_iface_methods iface_methods type (minfo ∷ methods) method_out = do
  method_out' ← place_iface_method iface_methods type minfo method_out
  place_iface_methods iface_methods type methods method_out'

unfoldable pub place_interfaces :
    List (MethodSignature × ℕ) → List TypeInfo → MethodMap → Outcome MethodMap
unfolding place_iface_methods
place_interfaces iface_methods [] method_out = ok method_out
place_interfaces iface_methods (tinfo ∷ types) method_out = do
  method_out' ←
      if is_interface tinfo.kind
      then place_iface_methods iface_methods tinfo.type tinfo.methods method_out
      else ok method_out
  place_interfaces iface_methods types method_out'

-- Pass 4: the entries of a class.
unfoldable pub itable_of : List (MethodSignature × ℕ) → List MethodInfo → Itable
itable_of iface_methods [] = []
itable_of iface_methods (minfo ∷ methods) =
    let rest = itable_of iface_methods methods in
    elim (get same_signature minfo.signature iface_methods) [
      | none ↦ rest
      | some offset ↦ (offset, (minfo.class_type, minfo.mid)) ∷ rest
    ]

unfoldable pub earlier_entry : ℕ × (TypeId × ℕ) → ℕ × (TypeId × ℕ) → Bool
earlier_entry lhs rhs = ltb lhs.0 rhs.0

unfoldable pub build_itables :
    List (MethodSignature × ℕ) → List TypeInfo → ItableMap → Outcome ItableMap
unfolding itable_of stable_sort earlier_entry insert_new
build_itables iface_methods [] itable_out = ok itable_out
build_itables iface_methods (tinfo ∷ types) itable_out = do
  itable_out' ←
      if is_interface tinfo.kind
      then ok itable_out
      else insert_new same_type tinfo.type
          (stable_sort earlier_entry (itable_of iface_methods tinfo.methods)) itable_out
  build_itables iface_methods types itable_out'

unfoldable pub build_iface_method_offsets :
    List TypeInfo → ℕ → MethodMap → ItableMap → Outcome (MethodMap × ItableMap)
unfolding collect_signatures number_signatures place_interfaces build_itables
build_iface_method_offsets types ptr_size method_out itable_out = do
  let iface_methods = number_signatures ptr_size 0 (collect_signatures method_out types [])
  method_out' ← place_interfaces iface_methods types method_out
  itable_out' ← build_itables iface_methods types itable_out
  ok (method_out', itable_out')
