-- ===== src/Types/Folding/Ids.antt =====
-- types/constant_folding.cpp: the ids of the strings that `AddString` collects.
use joosc.Common.{
  ℕ, suc, ◌<◌, ◌≡◌, refl, sym, ap, subst, ◌∙◌, ◌⊎◌, inl, inr, true, false, none, some, List, [],
  ◌∷◌, if◌then◌else◌, ◌==◌, ◌&&◌, ==_iff, Bool-cases, Option-cases, some_injective, arith,
}
use native.Mathlib.Nat.{lt_irrefl}
use joosc.Types.Folding.{JString, StringMap, same_string, find, added}

pub same_string_refl : (s : JString) → same_string s s ≡ true
unfolding same_string
same_string_refl [] = refl
same_string_refl (a ∷ s) = rw ((==_iff a a).1 refl) (same_string_refl s)

pub same_string-eq : (s t : JString) → same_string s t ≡ true → s ≡ t
unfolding same_string
same_string-eq [] [] h = refl
same_string-eq [] (b ∷ t) h = cc
same_string-eq (a ∷ s) [] h = cc
same_string-eq (a ∷ s) (b ∷ t) h = elim (Bool-cases (a == b)) [
  | inl same ↦
      rw ((==_iff a b).0 same)
        (ap (λ x. b ∷ x) (same_string-eq s t (sym (ap (λ x. x && same_string s t) same) ∙ h)))
  | inr other ↦ absurd other h
]
  where
    absurd : (a == b) ≡ false → (a == b && same_string s t) ≡ true → a ∷ s ≡ b ∷ t
    absurd other h = cc

-- The ids count up, from 0, in the order in which the strings were added, each once.
pub data Numbered : List (JString × ℕ) → ℕ → Type 0 where
  none_yet : Numbered [] 0
  next :
      {entries : List (JString × ℕ)} {n : ℕ} (s : JString)
      → Numbered entries n
      → find s entries ≡ none
      → Numbered ((s, n) ∷ entries) (suc n)

-- `after` knows the strings of `before` by the same ids.
abbrev pub Extends : StringMap → StringMap → Type 0
Extends before after =
    (s : JString) (id : ℕ) → find s before.entries ≡ some id → find s after.entries ≡ some id

find-cases :
    (s u : JString) (n id : ℕ) (entries : List (JString × ℕ))
    → find s ((u, n) ∷ entries) ≡ some id
    → ((s ≡ u) × (id ≡ n)) ⊎ (find s entries ≡ some id)
unfolding find
find-cases s u n id entries h = elim (Bool-cases (same_string s u)) [
  | inl same ↦ inl (
    same_string-eq s u same,
    some_injective (sym h ∙ ap (λ b. if b then some n else find s entries) same),
  )
  | inr other ↦ inr (sym (ap (λ b. if b then some n else find s entries) other) ∙ h)
]

some_not_none : {A : Type 0} {id : ℕ} → none ≡ some id → A
some_not_none h = cc

find-later :
    (s u : JString) (n id : ℕ) (entries : List (JString × ℕ))
    → find u entries ≡ none
    → find s entries ≡ some id
    → find s ((u, n) ∷ entries) ≡ some id
unfolding find
find-later s u n id entries new h = elim (Bool-cases (same_string s u)) [
  | inl same ↦
      some_not_none
        (sym (subst (λ x. find x entries ≡ none) (sym (same_string-eq s u same)) new) ∙ h)
  | inr other ↦ rw other h
]

find-first :
    (s : JString) (n : ℕ) (entries : List (JString × ℕ)) → find s ((s, n) ∷ entries) ≡ some n
unfolding find
find-first s n entries = rw (same_string_refl s) refl

not_below : {A : Type 0} (i n : ℕ) → i < n → i ≡ n → A
not_below i n h same = let no : n < n = subst (λ x. x < n) same h in elim (lt_irrefl n no) [ ]

pub find-bound :
    {entries : List (JString × ℕ)} {n : ℕ}
    → Numbered entries n
    → (s : JString) (id : ℕ) → find s entries ≡ some id
    → id < n
unfolding find
find-bound none_yet s id h = cc
find-bound (next {entries} {n} u nums new) s id h = elim (find-cases s u n id entries h) [
  | inl (same, last) ↦ omega (arith, last)
  | inr later ↦ omega (arith, find-bound nums s id later)
]

pub find_injective :
    {entries : List (JString × ℕ)} {n : ℕ}
    → Numbered entries n
    → (s t : JString) (id : ℕ) → find s entries ≡ some id
    → find t entries ≡ some id
    → s ≡ t
unfolding find
find_injective none_yet s t id h k = cc
find_injective (next {entries} {n} u nums new) s t id h k = elim (find-cases s u n id entries h) [
  | inl (s_first, s_id) ↦ elim (find-cases t u n id entries k) [
    | inl (t_first, t_id) ↦ s_first ∙ sym t_first
    | inr t_later ↦ not_below id n (find-bound nums t id t_later) s_id
  ]
  | inr s_later ↦ elim (find-cases t u n id entries k) [
    | inl (t_first, t_id) ↦ not_below id n (find-bound nums s id s_later) t_id
    | inr t_later ↦ find_injective nums s t id s_later t_later
  ]
]

pub find_onto :
    {entries : List (JString × ℕ)} {n : ℕ}
    → Numbered entries n
    → (id : ℕ) → id < n
    → (s : JString) × (find s entries ≡ some id)
find_onto none_yet id h = elim h [ ]
find_onto (next {entries} {n} u nums new) id h = elim (Bool-cases (id == n)) [
  | inl last ↦ (u, find-first u n entries ∙ ap (λ x. some x) (sym ((==_iff id n).0 last)))
  | inr earlier ↦
      let (s, found) = find_onto nums id (ground arith) in
      (s, find-later s u n id entries new found)
]

-- Numbering is kept, and so are the ids that were given.
abbrev pub Grows : (StringMap → StringMap) → Type 0
Grows g =
    (s : StringMap)
    → Numbered s.entries s.next_string_id
    → Numbered (g s).entries (g s).next_string_id × Extends s (g s)

pub same-Grows : Grows (λ s. s)
same-Grows s nums = (nums, λ str id h. h)

pub then-Grows : (g f : StringMap → StringMap) → Grows g → Grows f → Grows (λ s. f (g s))
then-Grows g f hg hf s nums =
    let (nums1, kept1) = hg s nums in
    let (nums2, kept2) = hf (g s) nums1 in (nums2, λ str id h. kept2 str id (kept1 str id h))

pub added-Grows : (str : JString) → Grows (λ s. added str s (find str s.entries))
added-Grows str s nums = elim (Option-cases (find str s.entries)) [
  | inl new ↦
      rw new (next str nums new, λ t id h. find-later t str s.next_string_id id s.entries new h)
  | inr (id, known) ↦ rw known (nums, λ t id h. h)
]
