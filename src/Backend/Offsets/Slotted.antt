-- ===== src/Backend/Offsets/Slotted.antt =====
-- backend/common/offset_table.cpp, `BuildClassMethodOffsets`: the slots of the methods of each class.
pub mod Ranges
pub mod Sorting
pub mod Members
pub mod Classes
pub mod Dispatch
use joosc.Ast.Ids.{TypeId, same_type, same_type_iff, unassigned_method_id}
use joosc.Ast.Modifiers.{TypeKind}
use joosc.Backend.Offsets.{TypeMap, is_interface}
use joosc.Backend.Offsets.Methods.{
  MethodMap, Vtable, Placing, ClassTables, has_slot, place_own, place_method, place_methods,
  starting_offset, add_class, build_class_method_offsets, sort_vtable, vtable_overhead,
}
use joosc.Backend.Offsets.Sorted.{Pairs, All-map}
use joosc.Common.{
  ℕ, ◌+◌, ◌≡◌, ◌≢◌, ◌⊎◌, refl, sym, ap, subst, ◌∙◌, inl, inr, Bool, true, false, not, Bool-cases,
  none, some, List, [], ◌∷◌, ◌++◌, map, All, All-append_inv, concat, ◌==◌, ==_iff, if◌then◌else◌,
  ok, thrown, Outcome, ok_injective, ◌>>=◌, >>=-eq-ok, arith,
}
use joosc.Common.Maps.{
  get, Keeps, at_key, at_key-eq-ok, at_key-Keeps, insert_new, insert_new-Keeps, insert_unless,
  insert_unless-Keeps, get-insert_unless,
}
use joosc.Backend.Offsets.Slotted.Ranges.{Ascending}
use mathlib.Core.List.{Permᴰ}
use joosc.Types.Info.{MethodInfo, TypeInfo}

-- A method without a slot, one that is inherited, one that is declared new, and one that overrides.
pub data Role : Type 0 where
  unplaced inherited fresh overriding : Role

unfoldable pub role : TypeId → MethodInfo → Role
role type m =
    if not (has_slot m)
    then Role.unplaced
    else if not (same_type m.class_type type)
    then Role.inherited
    else if m.parent_mid == unassigned_method_id
    then Role.fresh
    else Role.overriding

-- Where the next new method goes.
abbrev pub next_slot : ℕ → Role → ℕ → ℕ
next_slot ptr_size Role.fresh slot = slot + ptr_size
next_slot ptr_size _ slot = slot

-- The slot that a method of the role has, where the next new method goes to `slot`.
abbrev pub SlotOf : MethodMap → Role → MethodInfo → ℕ → Type 0
SlotOf m Role.unplaced minfo slot = Unit
SlotOf m Role.inherited minfo slot = Unit
SlotOf m Role.fresh minfo slot = get ◌==◌ minfo.mid m ≡ some (slot, TypeKind.class_kind)
SlotOf m Role.overriding minfo slot =
    (v : ℕ × TypeKind) × (get ◌==◌ minfo.parent_mid m ≡ some v) × (get ◌==◌ minfo.mid m ≡ some v)

-- The methods that a class declares new have one slot behind the other, from `start` to `end`.
abbrev pub Slots : ℕ → MethodMap → TypeId → List MethodInfo → ℕ → ℕ → Type 0
Slots ptr_size m type [] start end = start ≡ end
Slots ptr_size m type (minfo ∷ methods) start end =
    SlotOf m (role type minfo) minfo start
    × Slots ptr_size m type methods (next_slot ptr_size (role type minfo) start) end

-- The ids of the methods that get a slot by their class.
abbrev pub declares : Role → Bool
declares Role.fresh = true
declares Role.overriding = true
declares _ = false

unfoldable pub declared : TypeId → List MethodInfo → List ℕ
declared type [] = []
declared type (m ∷ methods) =
    let rest = declared type methods in if declares (role type m) then m.mid ∷ rest else rest

-- The methods of a class with a slot.
abbrev pub with_member : Role → ℕ → List ℕ → List ℕ
with_member Role.unplaced id ids = ids
with_member _ id ids = id ∷ ids

unfoldable pub members : TypeId → List MethodInfo → List ℕ
members type [] = []
members type (m ∷ methods) = with_member (role type m) m.mid (members type methods)

abbrev pub ids_of : Vtable → List ℕ
ids_of entries = map (λ e. e.1) entries

-- The offsets of the entries of a vtable, one after the other.
abbrev pub Keys : MethodMap → List ℕ → Vtable → Type 0
Keys m [] [] = Unit
Keys m (key ∷ keys) (entry ∷ entries) =
    ((kind : TypeKind) × (get ◌==◌ entry.1 m ≡ some (key, kind))) × Keys m keys entries
Keys m keys entries = ⊥

abbrev pub InOrder : MethodMap → Vtable → Type 0
InOrder m [] = Unit
InOrder m (entry ∷ []) = Unit
InOrder m (entry ∷ other ∷ entries) =
    (keys : List ℕ) × Keys m keys (entry ∷ other ∷ entries) × Ascending keys

-- The slots of a class start where its parent's end, or behind the first words of the vtable; its vtable has
-- the methods of the class in the order of their slots.
pub record HasSlots (ptr_size : ℕ) (s : ClassTables) (tinfo : TypeInfo) : Type 0 where
  pub start : ℕ
  pub end : ℕ
  pub from : starting_offset ptr_size tinfo.extends s.starting_offsets ≡ ok start
  pub to : get same_type tinfo.type s.starting_offsets ≡ some end
  pub slots : Slots ptr_size s.method_out tinfo.type tinfo.methods start end
  pub vtable : Vtable
  pub vtable_at : get same_type tinfo.type s.vtable_out ≡ some vtable
  pub all_members : Permᴰ (ids_of vtable) (members tinfo.type tinfo.methods)
  pub in_order : InOrder s.method_out vtable

abbrev pub IsSlotted : ℕ → ClassTables → TypeInfo → Type 0
IsSlotted ptr_size s tinfo = is_interface tinfo.kind ≡ false → HasSlots ptr_size s tinfo

unfoldable pub all_declared : List TypeInfo → List ℕ
unfolding declared
all_declared [] = []
all_declared (tinfo ∷ types) =
    (if is_interface tinfo.kind then [] else declared tinfo.type tinfo.methods)
    ++ all_declared types

-- No class or method has a slot.
abbrev pub no_classes : ClassTables
no_classes = record { starting_offsets = []; method_out = []; vtable_out = [] }
