-- ===== src/Backend/Offsets/Slotted/Members.antt =====
-- backend/common/offset_table.cpp, `BuildClassMethodOffsets`: the loop over the methods of a class.
use joosc.Ast.Ids.{TypeId, same_type, unassigned_method_id}
use joosc.Ast.Modifiers.{TypeKind}
use joosc.Backend.Offsets.Methods.{MethodMap, Placing, has_slot, place_method, place_methods}
use joosc.Backend.Offsets.Sorted.{Pairs}
use joosc.Common.{
  append-nil, append_assoc, ◌++◌, ap, ℕ, ◌+◌, ◌≡◌, ◌≢◌, refl, sym, subst, ◌∙◌, inl, inr, true,
  false, Bool-cases, none, List, [], ◌∷◌, All, concat, ◌==◌, ==_iff, ok, Outcome, ok_injective,
  ◌>>=◌, >>=-eq-ok, arith,
}
use joosc.Common.Maps.{
  get, Keeps, at_key, at_key-eq-ok, insert_unless, insert_unless-Keeps, get-insert_unless,
}
use joosc.Backend.Offsets.Methods.{Vtable}
use joosc.Backend.Offsets.Slotted.{ids_of, with_member, members}
use joosc.Types.Info.{MethodInfo}
use joosc.Backend.Offsets.Slotted.{Role, role, next_slot, SlotOf, Slots, declares, declared}

SlotOf-Keeps :
    (m m' : MethodMap) (r : Role) (minfo : MethodInfo) (slot : ℕ)
    → Keeps ◌==◌ m m'
    → SlotOf m r minfo slot
    → SlotOf m' r minfo slot
SlotOf-Keeps m m' Role.unplaced minfo slot keeps h = tt
SlotOf-Keeps m m' Role.inherited minfo slot keeps h = tt
SlotOf-Keeps m m' Role.fresh minfo slot keeps h = keeps minfo.mid _ h
SlotOf-Keeps m m' Role.overriding minfo slot keeps (v, above, here) =
    (v, keeps minfo.parent_mid v above, keeps minfo.mid v here)

pub Slots-Keeps :
    (ptr_size : ℕ) (m m' : MethodMap) (type : TypeId) (methods : List MethodInfo) (start end : ℕ)
    → Keeps ◌==◌ m m'
    → Slots ptr_size m type methods start end
    → Slots ptr_size m' type methods start end
Slots-Keeps ptr_size m m' type [] start end keeps h = h
Slots-Keeps ptr_size m m' type (minfo ∷ methods) start end keeps (here, rest) = (
  SlotOf-Keeps m m' (role type minfo) minfo start keeps here,
  Slots-Keeps ptr_size m m' type methods _ end keeps rest,
)

-- None of the methods has a slot.
abbrev pub Open : MethodMap → List ℕ → Type 0
Open m ids = All (λ id. get ◌==◌ id m ≡ none) ids

-- Placing a method by its role.
abbrev place_as : ℕ → Role → MethodInfo → Placing → Outcome Placing
place_as ptr_size Role.unplaced minfo s = ok s
place_as ptr_size Role.inherited minfo s =
    ok (record s { vtable = concat s.vtable (minfo.class_type, minfo.mid) })
place_as ptr_size Role.fresh minfo s = ok (record s {
  vtable = concat s.vtable (minfo.class_type, minfo.mid);
  my_offset = s.my_offset + ptr_size;
  method_out = insert_unless ◌==◌ minfo.mid (s.my_offset, TypeKind.class_kind) s.method_out;
})
place_as ptr_size Role.overriding minfo s = do
  slot ← at_key ◌==◌ minfo.parent_mid s.method_out
  ok (record s {
    vtable = concat s.vtable (minfo.class_type, minfo.mid);
    method_out = insert_unless ◌==◌ minfo.mid slot s.method_out;
  })

place_method-role :
    (ptr_size : ℕ) (type : TypeId) (minfo : MethodInfo) (s : Placing)
    → place_method ptr_size type minfo s ≡ place_as ptr_size (role type minfo) minfo s
unfolding place_method role
place_method-role ptr_size type minfo s = elim (Bool-cases (has_slot minfo)) [
  | inr p ↦ rw p refl
  | inl p ↦ elim (Bool-cases (same_type minfo.class_type type)) [
    | inr q ↦ rw (p, q) refl
    | inl q ↦ elim (Bool-cases (minfo.parent_mid == unassigned_method_id)) [
      | inl r ↦ rw (p, q, r) refl
      | inr r ↦ rw (p, q, r) refl
    ]
  ]
]

-- What placing one method does.
record IsPlaced (ptr_size : ℕ) (r : Role) (minfo : MethodInfo) (s s' : Placing) : Type 0 where
  pub keeps : Keeps ◌==◌ s.method_out s'.method_out
  slot : SlotOf s'.method_out r minfo s.my_offset
  next : next_slot ptr_size r s.my_offset ≡ s'.my_offset
  entry : ids_of s'.vtable ≡ ids_of s.vtable ++ with_member r minfo.mid []
  pub others :
      (j : ℕ)
      → (declares r ≡ true → j ≢ minfo.mid)
      → get ◌==◌ j s.method_out ≡ none
      → get ◌==◌ j s'.method_out ≡ none

==_no : (j k : ℕ) → j ≢ k → (j == k) ≡ false
==_no j k h = ground arith

ids_of-concat :
    (vtable : Vtable) (entry : TypeId × ℕ)
    → ids_of (concat vtable entry) ≡ ids_of vtable ++ entry.1 ∷ []
ids_of-concat [] entry = refl
ids_of-concat (e ∷ vtable) entry = ap (e.1 ∷◌) (ids_of-concat vtable entry)

member-append :
    (xs : List ℕ) (r : Role) (id : ℕ) (ys : List ℕ)
    → (xs ++ with_member r id []) ++ ys ≡ xs ++ with_member r id ys
member-append xs Role.unplaced id ys = ap (λ zs. zs ++ ys) (append-nil xs)
member-append xs Role.inherited id ys = append_assoc xs (id ∷ []) ys
member-append xs Role.fresh id ys = append_assoc xs (id ∷ []) ys
member-append xs Role.overriding id ys = append_assoc xs (id ∷ []) ys

place_as-IsPlaced :
    (ptr_size : ℕ) (r : Role) (minfo : MethodInfo) (s s' : Placing)
    → (declares r ≡ true → get ◌==◌ minfo.mid s.method_out ≡ none)
    → place_as ptr_size r minfo s ≡ ok s'
    → IsPlaced ptr_size r minfo s s'
place_as-IsPlaced ptr_size Role.unplaced minfo s s' new h =
    subst (IsPlaced ptr_size Role.unplaced minfo s) (ok_injective h) (record {
      keeps = λ k v e. e;
      slot = tt;
      next = refl;
      entry = sym (append-nil _);
      others = λ j differ e. e;
    })
place_as-IsPlaced ptr_size Role.inherited minfo s s' new h =
    subst (IsPlaced ptr_size Role.inherited minfo s) (ok_injective h) (record {
      keeps = λ k v e. e;
      slot = tt;
      next = refl;
      entry = ids_of-concat s.vtable (minfo.class_type, minfo.mid);
      others = λ j differ e. e;
    })
place_as-IsPlaced ptr_size Role.fresh minfo s s' new h =
    let (keeps, here) =
      insert_unless-Keeps ◌==◌ ==_iff minfo.mid (s.my_offset, TypeKind.class_kind) s.method_out
        (new refl) in
    subst (IsPlaced ptr_size Role.fresh minfo s) (ok_injective h) (record {
      keeps = keeps;
      slot = here;
      next = refl;
      entry = ids_of-concat s.vtable (minfo.class_type, minfo.mid);
      others = λ j differ e.
          get-insert_unless ◌==◌ ==_iff j minfo.mid _ s.method_out (==_no j minfo.mid (differ refl))
            (new refl) e;
    })
place_as-IsPlaced ptr_size Role.overriding minfo s s' new h =
    let (slot, e, h') = >>=-eq-ok (at_key ◌==◌ minfo.parent_mid s.method_out) _ h in
    let above = at_key-eq-ok ◌==◌ minfo.parent_mid s.method_out slot e in
    let (keeps, here) = insert_unless-Keeps ◌==◌ ==_iff minfo.mid slot s.method_out (new refl) in
    subst (IsPlaced ptr_size Role.overriding minfo s) (ok_injective h') (record {
      keeps = keeps;
      slot = (slot, keeps minfo.parent_mid slot above, here);
      next = refl;
      entry = ids_of-concat s.vtable (minfo.class_type, minfo.mid);
      others = λ j differ e'.
          get-insert_unless ◌==◌ ==_iff j minfo.mid _ s.method_out (==_no j minfo.mid (differ refl))
            (new refl) e';
    })

-- What placing the methods of a class does, where none that it declares has a slot and their ids differ.
pub record AllPlaced (ptr_size : ℕ) (type : TypeId) (methods : List MethodInfo) (s s' : Placing)
    : Type 0 where
  pub keeps : Keeps ◌==◌ s.method_out s'.method_out
  pub slots : Slots ptr_size s'.method_out type methods s.my_offset s'.my_offset
  pub entries : ids_of s'.vtable ≡ ids_of s.vtable ++ members type methods
  pub others :
      (j : ℕ)
      → All (λ id. j ≢ id) (declared type methods)
      → get ◌==◌ j s.method_out ≡ none
      → get ◌==◌ j s'.method_out ≡ none

-- The method in front, and the rest.
All-declared :
    (P : ℕ → Type 0) (type : TypeId) (minfo : MethodInfo) (methods : List MethodInfo)
    → All P (declared type (minfo ∷ methods))
    → (declares (role type minfo) ≡ true → P minfo.mid) × All P (declared type methods)
unfolding declared
All-declared P type minfo methods h = elim (Bool-cases (declares (role type minfo))) [
  | inl p ↦ let (here, rest) = rw p at h in ((λ q. here), rest)
  | inr p ↦ ((λ q. absurd (cc)), rw p at h)
]

Pairs-declared :
    (type : TypeId) (minfo : MethodInfo) (methods : List MethodInfo)
    → Pairs ◌≢◌ (declared type (minfo ∷ methods))
    → (declares (role type minfo) ≡ true → All (λ id. minfo.mid ≢ id) (declared type methods))
      × Pairs ◌≢◌ (declared type methods)
unfolding declared
Pairs-declared type minfo methods h = elim (Bool-cases (declares (role type minfo))) [
  | inl p ↦ let (here, rest) = rw p at h in ((λ q. here), rest)
  | inr p ↦ ((λ q. absurd (cc)), rw p at h)
]

Open-IsPlaced :
    (ptr_size : ℕ) (r : Role) (minfo : MethodInfo) (s s' : Placing) (ids : List ℕ)
    → IsPlaced ptr_size r minfo s s'
    → (declares r ≡ true → All (λ id. minfo.mid ≢ id) ids)
    → Open s.method_out ids
    → Open s'.method_out ids
Open-IsPlaced ptr_size r minfo s s' [] placed differ opened = tt
Open-IsPlaced ptr_size r minfo s s' (id ∷ ids) placed differ opened = (
  placed.others id (λ d e. (differ d).0 (sym e)) opened.0,
  Open-IsPlaced ptr_size r minfo s s' ids placed (λ d. (differ d).1) opened.1,
)

pub place_methods-AllPlaced :
    (ptr_size : ℕ) (type : TypeId) (methods : List MethodInfo) (s s' : Placing)
    → Open s.method_out (declared type methods)
    → Pairs ◌≢◌ (declared type methods)
    → place_methods ptr_size type methods s ≡ ok s'
    → AllPlaced ptr_size type methods s s'
unfolding place_methods members
place_methods-AllPlaced ptr_size type [] s s' opened apart h =
    subst (AllPlaced ptr_size type [] s) (ok_injective h) (record {
      keeps = λ k v e. e;
      slots = refl;
      entries = sym (append-nil _);
      others = λ j differ e. e;
    })
place_methods-AllPlaced ptr_size type (minfo ∷ methods) s s' opened apart h =
    let (s1, e1, h1) = >>=-eq-ok (place_method ptr_size type minfo s) _ h in
    let (open_here, open_rest) = All-declared _ type minfo methods opened in
    let (apart_here, apart_rest) = Pairs-declared type minfo methods apart in
    let r = role type minfo in
    let placed =
      place_as-IsPlaced ptr_size r minfo s s1 open_here
        (sym (place_method-role ptr_size type minfo s) ∙ e1) in
    let open1 =
      Open-IsPlaced ptr_size r minfo s s1 (declared type methods) placed apart_here open_rest in
    let rest = place_methods-AllPlaced ptr_size type methods s1 s' open1 apart_rest h1 in
    record {
      keeps = λ k v e. rest.keeps k v (placed.keeps k v e);
      slots = (
        SlotOf-Keeps s1.method_out s'.method_out r minfo s.my_offset rest.keeps placed.slot,
        subst (λ n. Slots ptr_size s'.method_out type methods n s'.my_offset) (sym placed.next)
            rest.slots,
      );
      entries =
          rest.entries
          ∙ (ap (λ ids. ids ++ members type methods) placed.entry
              ∙ member-append (ids_of s.vtable) r minfo.mid (members type methods));
      others = λ j differ e.
          let (here, behind) = All-declared _ type minfo methods differ in
          rest.others j behind (placed.others j here e);
    }
