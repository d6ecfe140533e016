-- ===== src/Backend/Offsets/Divides.antt =====
-- backend/common/offset_table.cpp: which sizes divide which, and `RoundUpToMultipleOf`.
use joosc.Common.{
  ℕ, ◌+◌, ◌*◌, ◌%◌, ◌/◌, ◌≤◌, ◌<◌, ◌≡◌, refl, ◌==◌, ==_iff, Bool-cases, inl, inr, arith,
}
use native.Mathlib.Nat.{div-add-mod', mod-lt}
use joosc.Ir.Size.{SizeClass, class_index, byte_size_from}
use joosc.Backend.Offsets.{round_up_to_multiple_of}

abbrev pub Divides : ℕ → ℕ → Type 0
Divides d n = (q : ℕ) × (n ≡ q * d)

pub Divides-add : (d a b : ℕ) → Divides d a → Divides d b → Divides d (a + b)
Divides-add d a b (p, ea) (q, eb) = (p + q, grind arith)

pub Divides-Divides : (d e n : ℕ) → Divides d e → Divides e n → Divides d n
Divides-Divides d e n (p, ep) (q, eq) = (q * p, grind arith)

module _ (k : ℕ) where
  two-Divides : (b : SizeClass) → 2 ≤ class_index b → Divides 2 (byte_size_from b (k * 4))
  unfolding class_index byte_size_from
  two-Divides SizeClass.bool h = absurd (omega arith)
  two-Divides SizeClass.byte h = absurd (omega arith)
  two-Divides SizeClass.short h = (1, refl)
  two-Divides SizeClass.char h = (1, refl)
  two-Divides SizeClass.int h = (2, refl)
  two-Divides SizeClass.ptr h = (2 * k, omega arith)

  four-Divides : (b : SizeClass) → 4 ≤ class_index b → Divides 4 (byte_size_from b (k * 4))
  unfolding class_index byte_size_from
  four-Divides SizeClass.int h = (1, refl)
  four-Divides SizeClass.ptr h = (k, refl)
  four-Divides _ h = absurd (omega arith)

  -- A smaller size class divides a larger one.
  pub size-Divides :
      (a b : SizeClass)
      → class_index a ≤ class_index b
      → Divides (byte_size_from a (k * 4)) (byte_size_from b (k * 4))
  unfolding class_index byte_size_from
  size-Divides SizeClass.bool b h = (byte_size_from b (k * 4), omega arith)
  size-Divides SizeClass.byte b h = (byte_size_from b (k * 4), omega arith)
  size-Divides SizeClass.short b h = two-Divides b (omega arith)
  size-Divides SizeClass.char b h = two-Divides b (omega arith)
  size-Divides SizeClass.int b h = four-Divides b (omega arith)
  size-Divides SizeClass.ptr SizeClass.ptr h = (1, omega arith)
  size-Divides SizeClass.ptr _ h = absurd (omega arith)

pub round_up_to_multiple_of-Divides :
    (n m : ℕ) → 0 < m → Divides m (round_up_to_multiple_of n m) × (n ≤ round_up_to_multiple_of n m)
unfolding round_up_to_multiple_of
round_up_to_multiple_of-Divides n m h = elim (Bool-cases (n % m == 0)) [
  | inl even ↦
      rw even ((n / m, omega (arith, div-add-mod' n m, (==_iff (n % m) 0).0 even)), omega arith)
  | inr rest ↦ rw rest ((n / m + 1, grind (arith, div-add-mod' n m, mod-lt n h)), omega arith)
]
