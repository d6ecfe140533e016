-- ===== src/Backend/Offsets/Sorted.antt =====
-- backend/common/offset_table.cpp: the order of the fields, and what sorting keeps.
use joosc.Common.{
  ◌≤◌, ◌≡◌, Bool, true, false, List, [], ◌∷◌, All, if◌then◌else◌, arith, Bool-cases, inl, inr,
}
use joosc.Ir.Size.{class_index, size_class_from}
use joosc.Types.Info.{FieldInfo}
use joosc.Backend.Offsets.{sort_insert, stable_sort, larger_field}

pub All-map {ℓ κ μ} :
    {A : Type ℓ} (P : A → Type κ) (Q : A → Type μ)
    → ((a : A) → P a → Q a)
    → (xs : List A) → All P xs
    → All Q xs
All-map P Q f [] h = tt
All-map P Q f (x ∷ xs) h = (f x h.0, All-map P Q f xs h.1)

pub All-both {ℓ κ μ ν} :
    {A : Type ℓ} (P : A → Type κ) (Q : A → Type μ) (R : A → Type ν)
    → ((a : A) → P a → Q a → R a)
    → (xs : List A) → All P xs
    → All Q xs
    → All R xs
All-both P Q R f [] h k = tt
All-both P Q R f (x ∷ xs) h k = (f x h.0 k.0, All-both P Q R f xs h.1 k.1)

-- The relation holds between every two elements of the list.
abbrev pub Pairs {ℓ κ} : {A : Type ℓ} → (A → A → Type κ) → List A → Type κ
Pairs R [] = Unit
Pairs R (x ∷ xs) = All (R x) xs × Pairs R xs

module _ {ℓ} {A : Type ℓ} (lt : A → A → Bool) where
  pub sort_insert-All {κ} :
      (P : A → Type κ) (x : A) (ys : List A) → P x → All P ys → All P (sort_insert lt x ys)
  unfolding sort_insert
  sort_insert-All P x [] h hs = (h, hs)
  sort_insert-All P x (y ∷ ys) h hs =
      elim (lt y x) as (λ b. All P (if b then y ∷ sort_insert lt x ys else x ∷ y ∷ ys)) [
        | true ↦ (hs.0, sort_insert-All P x ys h hs.1)
        | false ↦ (h, hs)
      ]

  sort_insert-All_inv {κ} :
      (P : A → Type κ) (x : A) (ys : List A) → All P (sort_insert lt x ys) → P x × All P ys
  unfolding sort_insert
  sort_insert-All_inv P x [] hs = hs
  sort_insert-All_inv P x (y ∷ ys) hs =
      elim (lt y x)
          as (λ b.
            All P (if b then y ∷ sort_insert lt x ys else x ∷ y ∷ ys) → P x × (P y × All P ys)) [
              | true ↦ λ h. let (hx, hys) = sort_insert-All_inv P x ys h.1 in (hx, (h.0, hys))
              | false ↦ λ h. h
            ]
        hs

  pub stable_sort-All_inv {κ} :
      (P : A → Type κ) (xs : List A) → All P (stable_sort lt xs) → All P xs
  unfolding stable_sort
  stable_sort-All_inv P [] h = tt
  stable_sort-All_inv P (x ∷ xs) h =
      let (hx, hxs) = sort_insert-All_inv P x (stable_sort lt xs) h in
      (hx, stable_sort-All_inv P xs hxs)

  module _ {κ} (R : A → A → Type κ) (flip : (a b : A) → R a b → R b a) where
    sort_insert-Pairs_inv :
        (x : A) (ys : List A) → Pairs R (sort_insert lt x ys) → All (R x) ys × Pairs R ys
    unfolding sort_insert
    sort_insert-Pairs_inv x [] h = h
    sort_insert-Pairs_inv x (y ∷ ys) hs =
        elim (lt y x)
            as (λ b.
              Pairs R (if b then y ∷ sort_insert lt x ys else x ∷ y ∷ ys)
              → (R x y × All (R x) ys) × (All (R y) ys × Pairs R ys)) [
                | true ↦ λ h.
                    let (hx, hys) = sort_insert-Pairs_inv x ys h.1 in
                    let (yx, yys) = sort_insert-All_inv (R y) x ys h.0 in
                    ((flip y x yx, hx), (yys, hys))
                | false ↦ λ h. h
              ]
          hs

    pub stable_sort-Pairs_inv : (xs : List A) → Pairs R (stable_sort lt xs) → Pairs R xs
    unfolding stable_sort
    stable_sort-Pairs_inv [] h = tt
    stable_sort-Pairs_inv (x ∷ xs) h =
        let (hx, hxs) = sort_insert-Pairs_inv x (stable_sort lt xs) h in
        (stable_sort-All_inv (R x) xs hx, stable_sort-Pairs_inv xs hxs)

-- A field comes before the fields that are no larger.
abbrev pub NoLarger : FieldInfo → FieldInfo → Type 0
NoLarger f g =
    class_index (size_class_from g.field_type) ≤ class_index (size_class_from f.field_type)

larger-NoLarger : (f g : FieldInfo) → larger_field g f ≡ true → NoLarger g f
unfolding larger_field
larger-NoLarger f g h = ground arith

smaller-NoLarger : (f g : FieldInfo) → larger_field g f ≡ false → NoLarger f g
unfolding larger_field
smaller-NoLarger f g h = ground arith

sort_insert-Falls :
    (f : FieldInfo) (fs : List FieldInfo)
    → Pairs NoLarger fs
    → Pairs NoLarger (sort_insert larger_field f fs)
unfolding sort_insert
sort_insert-Falls f [] h = (tt, tt)
sort_insert-Falls f (g ∷ gs) h = elim (Bool-cases (larger_field g f)) [
  | inl larger ↦ rw larger (
    sort_insert-All larger_field (NoLarger g) f gs (larger-NoLarger f g larger) h.0,
    sort_insert-Falls f gs h.1,
  )
  | inr smaller ↦
      let first : NoLarger f g = smaller-NoLarger f g smaller in
      rw smaller ((first, All-map (NoLarger g) (NoLarger f) (λ k below. omega arith) gs h.0), h)
]

-- The fields come in the order of their sizes, the largest first.
pub stable_sort-Falls : (fs : List FieldInfo) → Pairs NoLarger (stable_sort larger_field fs)
unfolding stable_sort
stable_sort-Falls [] = tt
stable_sort-Falls (f ∷ fs) =
    sort_insert-Falls f (stable_sort larger_field fs) (stable_sort-Falls fs)
