-- ===== src/Backend/Offsets/Slotted/Ranges.antt =====
-- Ascending lists of numbers, and lists of numbers that follow each other by one step.
use mathlib.Core.List.{Permᴰ}
use joosc.Backend.Offsets.Sorted.{Pairs}
use joosc.Common.{
  ℕ, suc, ◌+◌, ◌≤◌, ◌<◌, ◌≡◌, ◌⊎◌, refl, sym, ap₂, subst, ◌∙◌, inl, inr, List, [], ◌∷◌, ◌++◌, All,
  ◌==◌, if◌then◌else◌, arith,
}

abbrev pub Ascending : List ℕ → Type 0
Ascending xs = Pairs ◌≤◌ xs

unfoldable count : ℕ → List ℕ → ℕ
count n [] = 0
count n (x ∷ xs) = let rest = count n xs in if n == x then suc rest else rest

count-Permᴰ : (n : ℕ) {xs ys : List ℕ} → Permᴰ xs ys → count n xs ≡ count n ys
unfolding count
count-Permᴰ n Permᴰ.nil = refl
count-Permᴰ n (Permᴰ.cons e p) = ground (arith, e, count-Permᴰ n p)
count-Permᴰ n (Permᴰ.swap e e') = ground (arith, e, e')
count-Permᴰ n (Permᴰ.trans p q) = count-Permᴰ n p ∙ count-Permᴰ n q

count-below : (n : ℕ) (xs : List ℕ) → All (λ x. n < x) xs → count n xs ≡ 0
unfolding count
count-below n [] h = refl
count-below n (x ∷ xs) (here, rest) = ground (arith, count-below n xs rest)

All-weaken : (P Q : ℕ → Type 0) → ((x : ℕ) → P x → Q x) → (xs : List ℕ) → All P xs → All Q xs
All-weaken P Q f [] h = tt
All-weaken P Q f (x ∷ xs) (here, rest) = (f x here, All-weaken P Q f xs rest)

first_le :
    (x y : ℕ) (xs ys : List ℕ)
    → Ascending (y ∷ ys)
    → ((n : ℕ) → count n (x ∷ xs) ≡ count n (y ∷ ys))
    → y ≤ x
unfolding count
first_le x y xs ys up same = elim (le_or_lt y x) [
  | inl le ↦ le
  | inr lt ↦
      let none =
        count-below x ys
          (All-weaken (λ z. y ≤ z) (λ z. x < z) (λ z h. omega (arith, h, lt)) ys up.0) in
      absurd (ground (arith, same x, none))
]
  where
    le_or_lt : (a b : ℕ) → (a ≤ b) ⊎ (b < a)
    le_or_lt a b = omega arith

-- Two ascending lists with the same numbers are the same.
count-Ascending :
    (xs ys : List ℕ) → Ascending xs → Ascending ys → ((n : ℕ) → count n xs ≡ count n ys) → xs ≡ ys
unfolding count
count-Ascending [] [] up up' same = refl
count-Ascending [] (y ∷ ys) up up' same = absurd (ground (arith, same y))
count-Ascending (x ∷ xs) [] up up' same = absurd (ground (arith, same x))
count-Ascending (x ∷ xs) (y ∷ ys) up up' same =
    let e : x ≡ y =
      omega (arith, first_le x y xs ys up' same, first_le y x ys xs up (λ n. sym (same n))) in
    ap₂ ◌∷◌ e (count-Ascending xs ys up.1 up'.1 (λ n. ground (arith, same n, e)))

pub Permᴰ-Ascending : (xs ys : List ℕ) → Ascending xs → Ascending ys → Permᴰ xs ys → xs ≡ ys
Permᴰ-Ascending xs ys up up' p = count-Ascending xs ys up up' (λ n. count-Permᴰ n p)

-- From `start` by steps up to `end`.
abbrev pub Range : ℕ → List ℕ → ℕ → ℕ → Type 0
Range step [] start end = start ≡ end
Range step (x ∷ xs) start end = (x ≡ start) × Range step xs (start + step) end

pub Range-append :
    (step : ℕ) (xs ys : List ℕ) (a b c : ℕ)
    → Range step xs a b
    → Range step ys b c
    → Range step (xs ++ ys) a c
Range-append step [] ys a b c h k = subst (λ d. Range step ys d c) (sym h) k
Range-append step (x ∷ xs) ys a b c (here, rest) k =
    (here, Range-append step xs ys (a + step) b c rest k)

Range-above : (step : ℕ) (xs : List ℕ) (a b n : ℕ) → n ≤ a → Range step xs a b → All (λ x. n ≤ x) xs
Range-above step [] a b n le h = tt
Range-above step (x ∷ xs) a b n le (here, rest) =
    (omega (arith, here, le), Range-above step xs (a + step) b n (omega (arith, le)) rest)

pub Range-Ascending : (step : ℕ) (xs : List ℕ) (a b : ℕ) → Range step xs a b → Ascending xs
Range-Ascending step [] a b h = tt
Range-Ascending step (x ∷ xs) a b (here, rest) = (
  Range-above step xs (a + step) b x (omega (arith, here)) rest,
  Range-Ascending step xs (a + step) b rest,
)
