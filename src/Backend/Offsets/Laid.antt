-- ===== src/Backend/Offsets/Laid.antt =====
-- backend/common/offset_table.cpp: the fields of one class in memory.
use joosc.Ast.Ids.{TypeId, same_type}
use joosc.Common.{ℕ, ◌+◌, ◌*◌, ◌≤◌, ◌≡◌, ◌⊎◌, false, some, List, All, ◌==◌, ok}
use joosc.Common.Maps.{get, Keeps}
use joosc.Ir.Size.{size_class_from, byte_size_from}
use joosc.Types.Info.{FieldInfo, TypeInfo}
use joosc.Backend.Offsets.{TypeMap, FieldMap, is_interface, select, is_simple_field, parent_size}
use joosc.Backend.Offsets.Divides.{Divides}
use joosc.Backend.Offsets.Sorted.{Pairs}

module _ (k : ℕ) where
  -- The size of a pointer.
  abbrev pub ptr : ℕ
  ptr = k * 4

  abbrev pub size_of : FieldInfo → ℕ
  size_of f = byte_size_from (size_class_from f.field_type) ptr

  -- The field has an offset in the range, at a multiple of its size.
  abbrev pub PlacedIn : FieldMap → ℕ → ℕ → FieldInfo → Type 0
  PlacedIn m lo hi f =
      (off : ℕ) × (get ◌==◌ f.fid m ≡ some off)
      × (lo ≤ off)
      × (off + size_of f ≤ hi)
      × Divides (size_of f) off

  -- Two fields share no byte.
  abbrev pub Apart : FieldMap → FieldInfo → FieldInfo → Type 0
  Apart m f g =
      (x y : ℕ)
      → get ◌==◌ f.fid m ≡ some x
      → get ◌==◌ g.fid m ≡ some y
      → (x + size_of f ≤ y) ⊎ (y + size_of g ≤ x)

  pub record Laid (fields : List FieldInfo) (before after : FieldMap) (lo hi : ℕ) : Type 0 where
    placed : All (PlacedIn after lo hi) fields
    apart : Pairs (Apart after) fields
    keeps : Keeps ◌==◌ before after
    grows : lo ≤ hi

  -- All fields of a class that lie in its objects.
  abbrev pub own_fields : TypeInfo → List FieldInfo
  own_fields t = select (is_simple_field t.type) t.fields

  -- A class with its parent's fields first, its own behind them, and a size that is a multiple of a
  -- pointer's.
  pub record IsLaidOut (types : TypeMap) (fields : FieldMap) (t : TypeInfo) : Type 0 where
    pub start : ℕ
    pub size : ℕ
    pub parent : parent_size ptr t.extends types ≡ ok start
    pub known : get same_type t.type types ≡ some size
    pub whole : Divides ptr size
    pub placed : All (PlacedIn fields start size) (own_fields t)
    pub apart : Pairs (Apart fields) (own_fields t)

  abbrev pub Layout : TypeMap → FieldMap → List TypeInfo → Type 0
  Layout types fields = All (λ t. is_interface t.kind ≡ false → IsLaidOut types fields t)

  abbrev Whole : TypeMap → Type 0
  Whole types = (t : TypeId) (n : ℕ) → get same_type t types ≡ some n → Divides ptr n

  -- One round of the outer loop.
  pub record Added (t : TypeInfo) (types types' : TypeMap) (fields fields' : FieldMap)
      : Type 0 where
    types_kept : Keeps same_type types types'
    fields_kept : Keeps ◌==◌ fields fields'
    whole : Whole types'
    laid : is_interface t.kind ≡ false → IsLaidOut types' fields' t
