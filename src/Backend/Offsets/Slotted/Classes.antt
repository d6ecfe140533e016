-- ===== src/Backend/Offsets/Slotted/Classes.antt =====
-- backend/common/offset_table.cpp, `BuildClassMethodOffsets`: the loop over the types.
use joosc.Ast.Ids.{TypeId, same_type, same_type_iff}
use joosc.Backend.Offsets.{TypeMap, is_interface}
use joosc.Backend.Offsets.Methods.{
  ClassTables, place_methods, starting_offset, add_class, build_class_method_offsets, sort_vtable,
}
use joosc.Backend.Offsets.Sorted.{Pairs, All-map}
use joosc.Common.{
  ℕ, ◌≡◌, ◌≢◌, refl, sym, subst, inl, inr, true, false, Bool-cases, none, List, [], ◌∷◌, ◌++◌, All,
  All-append_inv, ◌==◌, ok, ok_injective, >>=-eq-ok,
}
use joosc.Common.Maps.{get, Keeps, at_key-Keeps, insert_new, insert_new-Keeps}
use mathlib.Core.List.Permᴰ
use mathlib.Core.List.{Permᴰ}
use joosc.Backend.Offsets.Slotted.{ids_of}
use joosc.Backend.Offsets.Slotted.Sorting.{sort_vtable-InOrder, InOrder-Keeps}
use joosc.Types.Info.{TypeInfo}
use joosc.Backend.Offsets.Slotted.{declared, HasSlots, IsSlotted, all_declared, no_classes}
use joosc.Backend.Offsets.Slotted.Members.{Slots-Keeps, Open, place_methods-AllPlaced}

record Kept (s s' : ClassTables) : Type 0 where
  ends : Keeps same_type s.starting_offsets s'.starting_offsets
  methods : Keeps ◌==◌ s.method_out s'.method_out
  vtables : Keeps same_type s.vtable_out s'.vtable_out

starting_offset-Keeps :
    (ptr_size : ℕ) (extends : List TypeId) (m m' : TypeMap) (start : ℕ)
    → Keeps same_type m m'
    → starting_offset ptr_size extends m ≡ ok start
    → starting_offset ptr_size extends m' ≡ ok start
unfolding starting_offset
starting_offset-Keeps ptr_size [] m m' start keeps h = h
starting_offset-Keeps ptr_size (parent ∷ []) m m' start keeps h =
    at_key-Keeps same_type parent start m m' keeps h
starting_offset-Keeps ptr_size (parent ∷ other ∷ more) m m' start keeps h = h

HasSlots-Kept :
    (ptr_size : ℕ) (s s' : ClassTables) (tinfo : TypeInfo)
    → Kept s s'
    → HasSlots ptr_size s tinfo
    → HasSlots ptr_size s' tinfo
HasSlots-Kept ptr_size s s' tinfo kept h = record {
  start = h.start;
  end = h.end;
  from =
      starting_offset-Keeps ptr_size tinfo.extends s.starting_offsets s'.starting_offsets h.start
        kept.ends h.from;
  to = kept.ends tinfo.type h.end h.to;
  slots =
      Slots-Keeps ptr_size s.method_out s'.method_out tinfo.type tinfo.methods h.start h.end
        kept.methods h.slots;
  vtable = h.vtable;
  vtable_at = kept.vtables tinfo.type h.vtable h.vtable_at;
  all_members = h.all_members;
  in_order = InOrder-Keeps s.method_out s'.method_out h.vtable kept.methods h.in_order;
}

-- What adding a class does.
record Added (ptr_size : ℕ) (tinfo : TypeInfo) (s s' : ClassTables) : Type 0 where
  kept : Kept s s'
  slotted : HasSlots ptr_size s' tinfo
  others :
      (j : ℕ)
      → All (λ id. j ≢ id) (declared tinfo.type tinfo.methods)
      → get ◌==◌ j s.method_out ≡ none
      → get ◌==◌ j s'.method_out ≡ none

add_class-Added :
    (ptr_size : ℕ) (tinfo : TypeInfo) (s s' : ClassTables)
    → is_interface tinfo.kind ≡ false
    → Open s.method_out (declared tinfo.type tinfo.methods)
    → Pairs ◌≢◌ (declared tinfo.type tinfo.methods)
    → add_class ptr_size tinfo s ≡ ok s'
    → Added ptr_size tinfo s s'
unfolding add_class
add_class-Added ptr_size tinfo s s' class opened apart h =
    let h0 = rw class at h in
    let (start, e1, h1) =
      >>=-eq-ok (starting_offset ptr_size tinfo.extends s.starting_offsets) _ h0 in
    let (placed, e2, h2) = >>=-eq-ok (place_methods ptr_size tinfo.type tinfo.methods _) _ h1 in
    let (ends, e3, h3) =
      >>=-eq-ok (insert_new same_type tinfo.type placed.my_offset s.starting_offsets) _ h2 in
    let (vtable, e4, h4) = >>=-eq-ok (sort_vtable placed.method_out placed.vtable) _ h3 in
    let (vtable_out, e5, h5) =
      >>=-eq-ok (insert_new same_type tinfo.type vtable s.vtable_out) _ h4 in
    let all = place_methods-AllPlaced ptr_size tinfo.type tinfo.methods _ placed opened apart e2 in
    let (keeps, here) =
      insert_new-Keeps same_type same_type_iff tinfo.type placed.my_offset s.starting_offsets ends
        e3 in
    let (keeps_vtables, here_vtable) =
      insert_new-Keeps same_type same_type_iff tinfo.type vtable s.vtable_out vtable_out e5 in
    let (sorted, in_order) = sort_vtable-InOrder placed.method_out placed.vtable vtable e4 in
    subst (Added ptr_size tinfo s) (ok_injective h5) (record {
      kept = record { ends = keeps; methods = all.keeps; vtables = keeps_vtables };
      slotted = record {
        start = start;
        end = placed.my_offset;
        from = starting_offset-Keeps ptr_size tinfo.extends s.starting_offsets ends start keeps e1;
        to = here;
        slots = all.slots;
        vtable = vtable;
        vtable_at = here_vtable;
        all_members = subst (Permᴰ (ids_of vtable)) all.entries (Permᴰ.map (λ e. e.1) sorted);
        in_order = in_order;
      };
      others = all.others;
    })

-- Ids that differ from those of the class are as they were.
Open-Added :
    (ptr_size : ℕ) (tinfo : TypeInfo) (s s' : ClassTables) (ids : List ℕ)
    → Added ptr_size tinfo s s'
    → All (λ x. All (λ y. x ≢ y) ids) (declared tinfo.type tinfo.methods)
    → Open s.method_out ids
    → Open s'.method_out ids
Open-Added ptr_size tinfo s s' [] added apart opened = tt
Open-Added ptr_size tinfo s s' (id ∷ ids) added apart opened =
    let own = declared tinfo.type tinfo.methods in
    let differ =
      All-map (λ x. All (λ y. x ≢ y) (id ∷ ids)) (λ x. id ≢ x) (λ x h e. h.0 (sym e)) own apart in
    let others =
      All-map (λ x. All (λ y. x ≢ y) (id ∷ ids)) (λ x. All (λ y. x ≢ y) ids) (λ x h. h.1) own
        apart in
    (added.others id differ opened.0, Open-Added ptr_size tinfo s s' ids added others opened.1)

Pairs-append_inv :
    (xs ys : List ℕ)
    → Pairs ◌≢◌ (xs ++ ys)
    → Pairs ◌≢◌ xs × All (λ x. All (λ y. x ≢ y) ys) xs × Pairs ◌≢◌ ys
Pairs-append_inv [] ys h = (tt, tt, h)
Pairs-append_inv (x ∷ xs) ys (here, rest) =
    let (own, across, behind) = Pairs-append_inv xs ys rest in
    let (here_own, here_across) = All-append_inv (λ y. x ≢ y) xs ys here in
    ((here_own, own), (here_across, across), behind)

-- The tables of all classes.
record AllAdded (ptr_size : ℕ) (types : List TypeInfo) (s s' : ClassTables) : Type 0 where
  kept : Kept s s'
  slotted : All (IsSlotted ptr_size s') types

skipped :
    (ptr_size : ℕ) (tinfo : TypeInfo) (s s' : ClassTables)
    → is_interface tinfo.kind ≡ true
    → add_class ptr_size tinfo s ≡ ok s'
    → s ≡ s'
unfolding add_class
skipped ptr_size tinfo s s' interface e = ok_injective (rw interface at e)

build_class_method_offsets-AllAdded :
    (ptr_size : ℕ) (types : List TypeInfo) (s s' : ClassTables)
    → Open s.method_out (all_declared types)
    → Pairs ◌≢◌ (all_declared types)
    → build_class_method_offsets ptr_size types s ≡ ok s'
    → AllAdded ptr_size types s s'
unfolding build_class_method_offsets all_declared
build_class_method_offsets-AllAdded ptr_size [] s s' opened apart h =
    subst (AllAdded ptr_size [] s) (ok_injective h) (record {
      kept = record { ends = λ k v e. e; methods = λ k v e. e; vtables = λ k v e. e };
      slotted = tt;
    })
build_class_method_offsets-AllAdded ptr_size (tinfo ∷ types) s s' opened apart h =
    let (s1, e1, h1) = >>=-eq-ok (add_class ptr_size tinfo s) _ h in
    elim (Bool-cases (is_interface tinfo.kind)) [
      | inl interface ↦
          let same_s : s ≡ s1 = skipped ptr_size tinfo s s1 interface e1 in
          let opened1 =
            subst (λ t. Open t.method_out (all_declared types)) same_s (rw interface at opened) in
          let rest =
            build_class_method_offsets-AllAdded ptr_size types s1 s' opened1 (rw interface at apart)
              h1 in
          record {
            kept = subst (λ t. Kept t s') (sym same_s) rest.kept;
            slotted = ((λ class. absurd (cc)), rest.slotted);
          }
      | inr class ↦
          let own = declared tinfo.type tinfo.methods in
          let (open_own, open_rest) =
            All-append_inv _ own (all_declared types) (rw class at opened) in
          let (apart_own, across, apart_rest) =
            Pairs-append_inv own (all_declared types) (rw class at apart) in
          let added = add_class-Added ptr_size tinfo s s1 class open_own apart_own e1 in
          let open1 = Open-Added ptr_size tinfo s s1 (all_declared types) added across open_rest in
          let rest = build_class_method_offsets-AllAdded ptr_size types s1 s' open1 apart_rest h1 in
          record {
            kept = record {
              ends = λ k v e. rest.kept.ends k v (added.kept.ends k v e);
              methods = λ k v e. rest.kept.methods k v (added.kept.methods k v e);
              vtables = λ k v e. rest.kept.vtables k v (added.kept.vtables k v e);
            };
            slotted =
                ((λ c. HasSlots-Kept ptr_size s1 s' tinfo rest.kept added.slotted), rest.slotted);
          }
    ]

Open-empty : (ids : List ℕ) → Open [] ids
Open-empty [] = tt
Open-empty (id ∷ ids) = (refl, Open-empty ids)

pub build_class_method_offsets-IsSlotted :
    (ptr_size : ℕ) (types : List TypeInfo) (tables : ClassTables)
    → Pairs ◌≢◌ (all_declared types)
    → build_class_method_offsets ptr_size types no_classes ≡ ok tables
    → All (IsSlotted ptr_size tables) types
build_class_method_offsets-IsSlotted ptr_size types tables apart h =
    (build_class_method_offsets-AllAdded ptr_size types no_classes tables (Open-empty _) apart
      h).slotted
