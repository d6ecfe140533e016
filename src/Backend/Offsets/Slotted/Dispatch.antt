-- ===== src/Backend/Offsets/Slotted/Dispatch.antt =====
-- backend/common/offset_table.cpp, `BuildClassMethodOffsets`: what stands at an offset of a vtable.
use mathlib.Core.List.Permᴰ
use mathlib.Core.List.{Permᴰ}
use joosc.Ast.Ids.{TypeId, same_type}
use joosc.Ast.Modifiers.{TypeKind}
use joosc.Backend.Offsets.{is_interface}
use joosc.Backend.Offsets.Methods.{
  MethodMap, Vtable, ClassTables, vtable_overhead, starting_offset, build_class_method_offsets,
}
use joosc.Backend.Offsets.Slotted.{
  Role, role, next_slot, SlotOf, Slots, with_member, members, ids_of, Keys, InOrder, IsSlotted,
  all_declared, no_classes,
}
use joosc.Backend.Offsets.Slotted.Classes.{build_class_method_offsets-IsSlotted}
use joosc.Backend.Offsets.Slotted.Ranges.{
  Ascending, Permᴰ-Ascending, Range, Range-append, Range-Ascending,
}
use joosc.Backend.Offsets.Sorted.{Pairs}
use joosc.Common.{
  ℕ, ◌≡◌, ◌≢◌, refl, sym, ap, ap₂, subst, ◌∙◌, Option, some, none, some_injective, false, List, [],
  ◌∷◌, ◌++◌, map, Memᴰ, All, ◌==◌, ok, ok_injective,
}
use joosc.Common.Maps.{get, at_key-eq-ok}
use joosc.Types.Info.{MethodInfo, TypeInfo}

abbrev of_slot : Option (ℕ × TypeKind) → ℕ
of_slot (some slot) = slot.0
of_slot none = 0

-- The offset that a call of the method uses.
abbrev pub slot_at : MethodMap → ℕ → ℕ
slot_at m mid = of_slot (get ◌==◌ mid m)

-- The methods of the parent that the class inherits or overrides.
abbrev pub with_origin : Role → MethodInfo → List ℕ → List ℕ
with_origin Role.inherited minfo ids = minfo.mid ∷ ids
with_origin Role.overriding minfo ids = minfo.parent_mid ∷ ids
with_origin _ minfo ids = ids

unfoldable pub origins : TypeId → List MethodInfo → List ℕ
origins type [] = []
origins type (m ∷ methods) = with_origin (role type m) m (origins type methods)

-- Each method with a slot of the parent is inherited or overridden once, and no other method is.
abbrev pub InheritsFrom : List TypeInfo → List TypeId → TypeInfo → Type 0
InheritsFrom before [] tinfo = origins tinfo.type tinfo.methods ≡ []
InheritsFrom before (type ∷ more) tinfo =
    (parent : TypeInfo) × Memᴰ parent before
    × (parent.type ≡ type)
    × (is_interface parent.kind ≡ false)
    × Permᴰ (origins tinfo.type tinfo.methods) (members parent.type parent.methods)

-- Parents come before their children.
abbrev pub Inherits : List TypeInfo → List TypeInfo → Type 0
Inherits before [] = Unit
Inherits before (tinfo ∷ types) =
    (is_interface tinfo.kind ≡ false → InheritsFrom before tinfo.extends tinfo)
    × Inherits (tinfo ∷ before) types

module _ (ptr_size : ℕ) (tables : ClassTables) where
  abbrev off : ℕ → ℕ
  off = slot_at tables.method_out

  -- The slots of a class are those from the first to its end.
  abbrev IsFilled : TypeInfo → Type 0
  IsFilled tinfo =
      is_interface tinfo.kind ≡ false
      → (end : ℕ) × (get same_type tinfo.type tables.starting_offsets ≡ some end)
        × (xs : List ℕ) × Permᴰ (map off (members tinfo.type tinfo.methods)) xs
        × Range ptr_size xs (vtable_overhead ptr_size) end

  abbrev Filling : List ℕ → List ℕ → ℕ → ℕ → Type 0
  Filling ids origs start end =
      (fresh : List ℕ) × Range ptr_size fresh start end
      × Permᴰ (map off ids) (map off origs ++ fresh)

  add_member :
      (r : Role) (minfo : MethodInfo) (ids origs : List ℕ) (start end : ℕ)
      → SlotOf tables.method_out r minfo start
      → Filling ids origs (next_slot ptr_size r start) end
      → Filling (with_member r minfo.mid ids) (with_origin r minfo origs) start end
  add_member Role.unplaced minfo ids origs start end slot rest = rest
  add_member Role.inherited minfo ids origs start end slot (fresh, range, p) =
      (fresh, range, Permᴰ.cons refl p)
  add_member Role.fresh minfo ids origs start end slot (fresh, range, p) = (
    start ∷ fresh,
    (refl, range),
    Permᴰ.trans (Permᴰ.cons (ap of_slot slot) p)
        (Permᴰ.symm (Permᴰ.middle start (map off origs) fresh)),
  )
  add_member Role.overriding minfo ids origs start end (v, above, here) (fresh, range, p) =
      (fresh, range, Permᴰ.cons (ap of_slot here ∙ sym (ap of_slot above)) p)

  Slots-Filling :
      (type : TypeId) (methods : List MethodInfo) (start end : ℕ)
      → Slots ptr_size tables.method_out type methods start end
      → Filling (members type methods) (origins type methods) start end
  unfolding members origins
  Slots-Filling type [] start end h = ([], h, Permᴰ.nil)
  Slots-Filling type (minfo ∷ methods) start end (here, rest) =
      add_member (role type minfo) minfo (members type methods) (origins type methods) start end
        here (Slots-Filling type methods (next_slot ptr_size (role type minfo) start) end rest)

  start_filled :
      (before : List TypeInfo) (extends : List TypeId) (tinfo : TypeInfo) (start : ℕ)
      → ((parent : TypeInfo) → Memᴰ parent before → IsFilled parent)
      → InheritsFrom before extends tinfo
      → starting_offset ptr_size extends tables.starting_offsets ≡ ok start
      → (xs : List ℕ) × Permᴰ (map off (origins tinfo.type tinfo.methods)) xs
        × Range ptr_size xs (vtable_overhead ptr_size) start
  unfolding starting_offset
  start_filled before [] tinfo start filled inherits from =
      ([], subst (λ ids. Permᴰ (map off ids) []) (sym inherits) Permᴰ.nil, ok_injective from)
  start_filled before (type ∷ []) tinfo start filled (parent, mem, same, class, p) from =
      let (end, to, xs, q, range) = filled parent mem class in
      let at = at_key-eq-ok same_type type tables.starting_offsets start from in
      let e =
        some_injective
          (sym (subst (λ t. get same_type t tables.starting_offsets ≡ some end) same to) ∙ at) in
      (
        xs,
        Permᴰ.trans (Permᴰ.map off p) q,
        subst (Range ptr_size xs (vtable_overhead ptr_size)) e range,
      )
  start_filled before (type ∷ other ∷ more) tinfo start filled inherits from = cc

  HasSlots-IsFilled :
      (before : List TypeInfo) (tinfo : TypeInfo)
      → ((parent : TypeInfo) → Memᴰ parent before → IsFilled parent)
      → (is_interface tinfo.kind ≡ false → InheritsFrom before tinfo.extends tinfo)
      → IsSlotted ptr_size tables tinfo
      → IsFilled tinfo
  HasSlots-IsFilled before tinfo filled inherits slotted class =
      let h = slotted class in
      let (xs, p, range) =
        start_filled before tinfo.extends tinfo h.start filled (inherits class) h.from in
      let (fresh, range', q) = Slots-Filling tinfo.type tinfo.methods h.start h.end h.slots in
      (
        h.end,
        h.to,
        xs ++ fresh,
        Permᴰ.trans q (Permᴰ.append_right fresh p),
        Range-append ptr_size xs fresh (vtable_overhead ptr_size) h.start h.end range range',
      )

  All-IsFilled :
      (before types : List TypeInfo)
      → ((parent : TypeInfo) → Memᴰ parent before → IsFilled parent)
      → Inherits before types
      → All (IsSlotted ptr_size tables) types
      → All IsFilled types
  All-IsFilled before [] filled inherits slotted = tt
  All-IsFilled before (tinfo ∷ types) filled (inherits, rest) (here, slotted) =
      let first = HasSlots-IsFilled before tinfo filled inherits here in
      (first, All-IsFilled (tinfo ∷ before) types (extended first) rest slotted)
    where
      extended :
          IsFilled tinfo → (parent : TypeInfo) → Memᴰ parent (tinfo ∷ before) → IsFilled parent
      extended first parent (Memᴰ.head same) = subst IsFilled (sym same) first
      extended first parent (Memᴰ.tail mem) = filled parent mem

  Keys-off :
      (keys : List ℕ) (vtable : Vtable)
      → Keys tables.method_out keys vtable
      → map off (ids_of vtable) ≡ keys
  Keys-off [] [] h = refl
  Keys-off [] (e ∷ es) h = absurd h
  Keys-off (k ∷ ks) [] h = absurd h
  Keys-off (k ∷ ks) (e ∷ es) ((kind, here), rest) = ap₂ ◌∷◌ (ap of_slot here) (Keys-off ks es rest)

  InOrder-Ascending :
      (vtable : Vtable) → InOrder tables.method_out vtable → Ascending (map off (ids_of vtable))
  InOrder-Ascending [] h = tt
  InOrder-Ascending (e ∷ []) h = (tt, tt)
  InOrder-Ascending (e ∷ f ∷ es) (keys, h, up) =
      subst Ascending (sym (Keys-off keys (e ∷ f ∷ es) h)) up

-- The offsets of a class's vtable, entry by entry, are those from its first two words on, a pointer's size
-- apart.
abbrev pub Dispatches : ℕ → ClassTables → TypeInfo → Type 0
Dispatches ptr_size tables tinfo =
    is_interface tinfo.kind ≡ false
    → (vtable : Vtable) × (end : ℕ) × (get same_type tinfo.type tables.vtable_out ≡ some vtable)
      × Range ptr_size (map (slot_at tables.method_out) (ids_of vtable)) (vtable_overhead ptr_size)
          end

All-Dispatches :
    (ptr_size : ℕ) (tables : ClassTables) (types : List TypeInfo)
    → All (IsSlotted ptr_size tables) types
    → All (IsFilled ptr_size tables) types
    → All (Dispatches ptr_size tables) types
All-Dispatches ptr_size tables [] slotted filled = tt
All-Dispatches ptr_size tables (tinfo ∷ types) (h, slotted) (f, filled) = (
  (λ class.
      let s = h class in
      let (end, to, xs, p, range) = f class in
      let same =
        Permᴰ-Ascending _ xs (InOrder-Ascending ptr_size tables s.vtable s.in_order)
          (Range-Ascending ptr_size xs (vtable_overhead ptr_size) end range)
          (Permᴰ.trans (Permᴰ.map (slot_at tables.method_out) s.all_members) p) in
      (
        s.vtable,
        end,
        s.vtable_at,
        subst (λ ys. Range ptr_size ys (vtable_overhead ptr_size) end) (sym same) range,
      )),
  All-Dispatches ptr_size tables types slotted filled,
)

-- Where the class methods are laid out, the ids of the methods that classes declare differ, and each class
-- inherits or overrides each method of its parent once, every class has a vtable, and the entry that stands
-- behind n others in it is for a method whose offset is two words and n pointers.
pub build_class_method_offsets-Dispatches :
    (ptr_size : ℕ) (types : List TypeInfo) (tables : ClassTables)
    → Pairs ◌≢◌ (all_declared types)
    → Inherits [] types
    → build_class_method_offsets ptr_size types no_classes ≡ ok tables
    → All (Dispatches ptr_size tables) types
build_class_method_offsets-Dispatches ptr_size types tables apart inherits h =
    let slotted = build_class_method_offsets-IsSlotted ptr_size types tables apart h in
    All-Dispatches ptr_size tables types slotted
      (All-IsFilled ptr_size tables [] types (λ parent mem. elim mem [ ]) inherits slotted)
