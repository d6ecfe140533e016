-- ===== src/Backend/Offsets/Slotted/Sorting.antt =====
-- backend/common/offset_table.cpp, `BuildClassMethodOffsets`: a vtable that was sorted.
use mathlib.Core.List.Permᴰ
use mathlib.Core.List.{Permᴰ}
use joosc.Ast.Ids.{TypeId}
use joosc.Ast.Modifiers.{TypeKind}
use joosc.Backend.Offsets.{sort_insert, stable_sort}
use joosc.Backend.Offsets.Methods.{MethodMap, Vtable, slot_offset, keyed, earlier_slot, sort_vtable}
use joosc.Backend.Offsets.Slotted.{Keys, InOrder}
use joosc.Backend.Offsets.Slotted.Ranges.{Ascending}
use joosc.Backend.Offsets.Sorted.{Pairs, sort_insert-All, All-map}
use joosc.Common.{
  ℕ, ◌≤◌, ◌≡◌, refl, ap, subst, Bool, true, false, Bool-cases, inl, inr, some, List, [], ◌∷◌, map,
  All, ◌==◌, if◌then◌else◌, ok, ok_injective, >>=-eq-ok, arith,
}
use joosc.Common.Maps.{get, Keeps, at_key, at_key-eq-ok}

module _ {ℓ} {A : Type ℓ} (lt : A → A → Bool) where
  sort_insert-Permᴰ : (x : A) (ys : List A) → Permᴰ (sort_insert lt x ys) (x ∷ ys)
  unfolding sort_insert
  sort_insert-Permᴰ x [] = Permᴰ.refl _
  sort_insert-Permᴰ x (y ∷ ys) =
      elim (lt y x)
        as (λ b. Permᴰ (if b then y ∷ sort_insert lt x ys else x ∷ y ∷ ys) (x ∷ y ∷ ys)) [
          | true ↦ Permᴰ.trans (Permᴰ.cons refl (sort_insert-Permᴰ x ys)) (Permᴰ.swap refl refl)
          | false ↦ Permᴰ.refl _
        ]

  stable_sort-Permᴰ : (xs : List A) → Permᴰ (stable_sort lt xs) xs
  unfolding stable_sort
  stable_sort-Permᴰ [] = Permᴰ.nil
  stable_sort-Permᴰ (x ∷ xs) =
      Permᴰ.trans (sort_insert-Permᴰ x (stable_sort lt xs)) (Permᴰ.cons refl (stable_sort-Permᴰ xs))

  stable_sort-All {κ} : (P : A → Type κ) (xs : List A) → All P xs → All P (stable_sort lt xs)
  unfolding stable_sort
  stable_sort-All P [] h = tt
  stable_sort-All P (x ∷ xs) h =
      sort_insert-All lt P x (stable_sort lt xs) h.0 (stable_sort-All P xs h.1)

abbrev Keyed : Type 0
Keyed = ℕ × (TypeId × ℕ)

abbrev NotLater : Keyed → Keyed → Type 0
NotLater a b = a.0 ≤ b.0

earlier-cases :
    (y x : Keyed) (b : Bool) → earlier_slot y x ≡ b → if b then NotLater y x else NotLater x y
unfolding earlier_slot
earlier-cases y x true h = ground arith
earlier-cases y x false h = ground arith

sort_insert-Pairs :
    (x : Keyed) (ys : List Keyed)
    → Pairs NotLater ys
    → Pairs NotLater (sort_insert earlier_slot x ys)
unfolding sort_insert
sort_insert-Pairs x [] h = (tt, tt)
sort_insert-Pairs x (y ∷ ys) h = elim (Bool-cases (earlier_slot y x)) [
  | inl p ↦ rw p (
    sort_insert-All earlier_slot (NotLater y) x ys (earlier-cases y x true p) h.0,
    sort_insert-Pairs x ys h.1,
  )
  | inr p ↦
      let le = earlier-cases y x false p in
      rw p ((le, All-map (NotLater y) (NotLater x) (λ z k. omega (arith, le, k)) ys h.0), h)
]

stable_sort-Pairs : (xs : List Keyed) → Pairs NotLater (stable_sort earlier_slot xs)
unfolding stable_sort
stable_sort-Pairs [] = tt
stable_sort-Pairs (x ∷ xs) =
    sort_insert-Pairs x (stable_sort earlier_slot xs) (stable_sort-Pairs xs)

keys-Ascending : (es : List Keyed) → Pairs NotLater es → Ascending (map (λ e. e.0) es)
keys-Ascending [] h = tt
keys-Ascending (e ∷ es) h = (keys-All e es h.0, keys-Ascending es h.1)
  where
    keys-All :
        (e : Keyed) (es : List Keyed) → All (NotLater e) es → All (λ k. e.0 ≤ k) (map (λ f. f.0) es)
    keys-All e [] h = tt
    keys-All e (f ∷ es) h = (h.0, keys-All e es h.1)

-- The entry's method has the slot.
abbrev HasKey : MethodMap → Keyed → Type 0
HasKey m e = (kind : TypeKind) × (get ◌==◌ e.1.1 m ≡ some (e.0, kind))

keyed-eq-ok :
    (m : MethodMap) (vtable : Vtable) (es : List Keyed)
    → keyed m vtable ≡ ok es
    → (map (λ e. e.1) es ≡ vtable) × All (HasKey m) es
unfolding keyed slot_offset
keyed-eq-ok m [] es h =
    subst (λ l. (map (λ e. e.1) l ≡ []) × All (HasKey m) l) (ok_injective h) (refl, tt)
keyed-eq-ok m (entry ∷ vtable) es h =
    let (offset, e1, h1) = >>=-eq-ok (slot_offset m entry.1) _ h in
    let (slot, e2, h2) = >>=-eq-ok (at_key ◌==◌ entry.1 m) _ e1 in
    let (rest, e3, h3) = >>=-eq-ok (keyed m vtable) _ h1 in
    let (same, all_keys) = keyed-eq-ok m vtable rest e3 in
    let here : HasKey m (offset, entry) = (
      slot.1,
      subst (λ o. get ◌==◌ entry.1 m ≡ some (o, slot.1)) (ok_injective h2)
          (at_key-eq-ok ◌==◌ entry.1 m slot e2),
    ) in
    subst (λ l. (map (λ e. e.1) l ≡ entry ∷ vtable) × All (HasKey m) l) (ok_injective h3)
      (ap (entry ∷◌) same, (here, all_keys))

map-Keys :
    (m : MethodMap) (es : List Keyed)
    → All (HasKey m) es
    → Keys m (map (λ e. e.0) es) (map (λ e. e.1) es)
map-Keys m [] h = tt
map-Keys m (e ∷ es) h = (h.0, map-Keys m es h.1)

in_order :
    (m : MethodMap) (keys : List ℕ) (vtable : Vtable)
    → Keys m keys vtable
    → Ascending keys
    → InOrder m vtable
in_order m keys [] h up = tt
in_order m keys (entry ∷ []) h up = tt
in_order m keys (entry ∷ other ∷ vtable) h up = (keys, h, up)

-- Sorting keeps the entries and puts them in the order of their slots.
pub sort_vtable-InOrder :
    (m : MethodMap) (vtable sorted : Vtable)
    → sort_vtable m vtable ≡ ok sorted
    → Permᴰ sorted vtable × InOrder m sorted
unfolding sort_vtable
sort_vtable-InOrder m [] sorted h =
    subst (λ v. Permᴰ v [] × InOrder m v) (ok_injective h) (Permᴰ.nil, tt)
sort_vtable-InOrder m (entry ∷ []) sorted h =
    subst (λ v. Permᴰ v (entry ∷ []) × InOrder m v) (ok_injective h) (Permᴰ.refl _, tt)
sort_vtable-InOrder m (entry ∷ other ∷ vtable) sorted h =
    let (es, e1, h1) = >>=-eq-ok (keyed m (entry ∷ other ∷ vtable)) _ h in
    let (same, all_keys) = keyed-eq-ok m (entry ∷ other ∷ vtable) es e1 in
    let ordered = stable_sort earlier_slot es in
    subst (λ v. Permᴰ v (entry ∷ other ∷ vtable) × InOrder m v) (ok_injective h1)
      (
        subst (Permᴰ (map (λ e. e.1) ordered)) same
            (Permᴰ.map (λ e. e.1) (stable_sort-Permᴰ earlier_slot es)),
        in_order m (map (λ e. e.0) ordered) (map (λ e. e.1) ordered)
            (map-Keys m ordered (stable_sort-All earlier_slot (HasKey m) es all_keys))
            (keys-Ascending ordered (stable_sort-Pairs es)),
      )

pub Keys-Keeps :
    (m m' : MethodMap) (keys : List ℕ) (vtable : Vtable)
    → Keeps ◌==◌ m m'
    → Keys m keys vtable
    → Keys m' keys vtable
Keys-Keeps m m' [] [] keeps h = tt
Keys-Keeps m m' [] (e ∷ es) keeps h = h
Keys-Keeps m m' (k ∷ ks) [] keeps h = h
Keys-Keeps m m' (k ∷ ks) (e ∷ es) keeps ((kind, here), rest) =
    ((kind, keeps e.1 (k, kind) here), Keys-Keeps m m' ks es keeps rest)

pub InOrder-Keeps :
    (m m' : MethodMap) (vtable : Vtable) → Keeps ◌==◌ m m' → InOrder m vtable → InOrder m' vtable
InOrder-Keeps m m' [] keeps h = tt
InOrder-Keeps m m' (e ∷ []) keeps h = tt
InOrder-Keeps m m' (e ∷ f ∷ es) keeps (keys, h, up) =
    (keys, Keys-Keeps m m' keys (e ∷ f ∷ es) keeps h, up)
