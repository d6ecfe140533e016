-- ===== src/Common/Maps.antt =====
-- `std::map` as the list of its entries: `find`, `at`, and `insert` with the `CHECK` that the key is new.
use mathlib.Core.Path.{◌≡◌, refl, sym, ap, subst}
use mathlib.Core.Logic.{◌↔◌, inl, inr}
use mathlib.Core.Bool.{Bool, true, false}
use mathlib.Core.Option.{Option, none, some}
use mathlib.Core.List.{List, [], ◌∷◌}
use joosc.Common.Tests.{if◌then◌else◌, Option-cases, Bool-cases}
use joosc.Common.Outcomes.{Outcome, ok, thrown, Exn, ok_injective}

module _ {ℓ κ} {K : Type ℓ} {V : Type κ} (same : K → K → Bool) where
  abbrev pub get : K → List (K × V) → Option V
  get k [] = none
  get k ((j, v) ∷ m) = if same k j then some v else get k m

  abbrev pub found : Option V → Outcome V
  found (some v) = ok v
  found none = thrown Exn.out_of_range

  unfoldable pub at_key : K → List (K × V) → Outcome V
  at_key k m = found (get k m)

  found-eq-ok : (o : Option V) (v : V) → found o ≡ ok v → o ≡ some v
  found-eq-ok (some w) v h = ap some (ok_injective h)
  found-eq-ok none v h = cc

  pub at_key-eq-ok : (k : K) (m : List (K × V)) (v : V) → at_key k m ≡ ok v → get k m ≡ some v
  unfolding at_key
  at_key-eq-ok k m v h = found-eq-ok (get k m) v h

  abbrev pub if_new : Option V → K → V → List (K × V) → Outcome (List (K × V))
  if_new none k v m = ok ((k, v) ∷ m)
  if_new (some w) k v m = thrown Exn.check_failed

  -- `CHECK(map.insert({k, v}).second)`.
  unfoldable pub insert_new : K → V → List (K × V) → Outcome (List (K × V))
  insert_new k v m = if_new (get k m) k v m

  abbrev pub unless_there : Option V → K → V → List (K × V) → List (K × V)
  unless_there none k v m = (k, v) ∷ m
  unless_there (some w) k v m = m

  -- `map.insert({k, v})`, which leaves an entry that is there.
  unfoldable pub insert_unless : K → V → List (K × V) → List (K × V)
  insert_unless k v m = unless_there (get k m) k v m

  -- What the map said it still says.
  abbrev pub Keeps : List (K × V) → List (K × V) → Type (ℓ ⊔ κ)
  Keeps before after = (k : K) (v : V) → get k before ≡ some v → get k after ≡ some v

  at_key-found : (k : K) (m : List (K × V)) (v : V) → get k m ≡ some v → at_key k m ≡ ok v
  unfolding at_key
  at_key-found k m v h = ap found h

  -- What `at` gave it still gives.
  pub at_key-Keeps :
      (k : K) (v : V) (m m' : List (K × V)) → Keeps m m' → at_key k m ≡ ok v → at_key k m' ≡ ok v
  at_key-Keeps k v m m' keeps h = at_key-found k m' v (keeps k v (at_key-eq-ok k m v h))

  module _ (same_iff : (a b : K) → (same a b ≡ true) ↔ (a ≡ b)) where
    get-first : (k : K) (v : V) (m : List (K × V)) → get k ((k, v) ∷ m) ≡ some v
    get-first k v m = rw ((same_iff k k).1 refl) refl

    get-later :
        (j k : K) (w v : V) (m : List (K × V))
        → get j m ≡ none
        → get k m ≡ some v
        → get k ((j, w) ∷ m) ≡ some v
    get-later j k w v m new h = elim (Bool-cases (same k j)) [
      | inl here ↦ absurd_new (subst (λ x. get x m ≡ some v) ((same_iff k j).0 here) h) new
      | inr later ↦ rw later h
    ]
      where
        absurd_new : get j m ≡ some v → get j m ≡ none → get k ((j, w) ∷ m) ≡ some v
        absurd_new found_v new_v = cc

    -- An insertion that passed its `CHECK` found the key new.
    pub insert_new-ok :
        (k : K) (v : V) (m m' : List (K × V))
        → insert_new k v m ≡ ok m'
        → (get k m ≡ none) × (m' ≡ (k, v) ∷ m)
    unfolding insert_new
    insert_new-ok k v m m' h = elim (Option-cases (get k m)) [
      | inl new ↦ (new, sym (ok_injective (rw new at h)))
      | inr (w, old) ↦ thrown_not_ok (rw old at h)
    ]
      where
        thrown_not_ok : thrown Exn.check_failed ≡ ok m' → (get k m ≡ none) × (m' ≡ (k, v) ∷ m)
        thrown_not_ok e = cc

    -- An insertion that passed its `CHECK` adds the entry and keeps the others.
    pub insert_new-Keeps :
        (k : K) (v : V) (m m' : List (K × V))
        → insert_new k v m ≡ ok m'
        → Keeps m m' × (get k m' ≡ some v)
    insert_new-Keeps k v m m' h =
        let (new, same_map) = insert_new-ok k v m m' h in
        (
          (λ j w old. subst (λ x. get j x ≡ some w) (sym same_map) (get-later k j v w m new old)),
          subst (λ x. get k x ≡ some v) (sym same_map) (get-first k v m),
        )

    insert_unless-new :
        (k : K) (v : V) (m : List (K × V)) → get k m ≡ none → insert_unless k v m ≡ (k, v) ∷ m
    unfolding insert_unless
    insert_unless-new k v m new = rw new refl

    -- An insertion of a key that is new adds the entry, keeps the others, and adds no other key.
    pub insert_unless-Keeps :
        (k : K) (v : V) (m : List (K × V))
        → get k m ≡ none
        → Keeps m (insert_unless k v m) × (get k (insert_unless k v m) ≡ some v)
    insert_unless-Keeps k v m new =
        let same_map = insert_unless-new k v m new in
        (
          (λ j w old. subst (λ x. get j x ≡ some w) (sym same_map) (get-later k j v w m new old)),
          subst (λ x. get k x ≡ some v) (sym same_map) (get-first k v m),
        )

    pub get-insert_unless :
        (j k : K) (v : V) (m : List (K × V))
        → same j k ≡ false
        → get k m ≡ none
        → get j m ≡ none
        → get j (insert_unless k v m) ≡ none
    get-insert_unless j k v m differ new old =
        subst (λ x. get j x ≡ none) (sym (insert_unless-new k v m new)) (rw differ old)
