-- ===== src/Types/Folding/Decimal.antt =====
-- types/constant_folding.cpp: the text that `Stringify` makes of an `i32`, and how it is read.
use joosc.Common.{
  ℕ, zero, suc, ◌+◌, ◌-◌, ◌*◌, ◌/◌, ◌%◌, ◌^◌, ◌<◌, ◌≡◌, refl, ap, ◌∙◌, Bool, true, false, List, [],
  ◌∷◌, ltb, leb, if◌then◌else◌, ◌==◌, arith, Bool-cases, inl, inr, ok,
}
use joosc.Common.Integers.{ℤ, pos, negsuc}
use joosc.Ast.Ids.{TypeId, simple, same_type, char_base}
use joosc.Ast.Tree.{Expr}
use joosc.Types.Conversions.{is_numeric}
use joosc.Types.Folding.{JString, stringify}
use joosc.Types.Folding.Words.{word, negative, digits, decimal}

-- Reading digits after the number `n`.
abbrev pub read : ℕ → List ℕ → ℕ
read n [] = n
read n (d ∷ ds) = read (n * 10 + (d - 48)) ds

abbrev opposite : ℕ → ℤ
opposite zero = pos 0
opposite (suc n) = negsuc n

-- The number that a text with an optional minus sign denotes.
abbrev pub read_int : List ℕ → ℤ
read_int [] = pos 0
read_int (c ∷ ds) = if c == 45 then opposite (read 0 ds) else pos (read 0 (c ∷ ds))

-- The number that a 32-bit pattern stands for.
abbrev pub signed : ℕ → ℤ
signed n = if ltb n (2 ^ 31) then pos n else opposite (word - n)

pub digits-read :
    (fuel n : ℕ) (rest : List ℕ) → n < 10 ^ fuel → read 0 (digits fuel n rest) ≡ read n rest
unfolding digits
digits-read zero n rest h = ap (λ x. read x rest) (omega arith)
digits-read (suc fuel) n rest h = elim (Bool-cases (ltb n 10)) [
  | inl short ↦ rw short (ap (λ x. read x rest) (ground arith))
  | inr long ↦ rw long (
      digits-read fuel (n / 10) ((48 + n % 10) ∷ rest) (omega arith)
      ∙ ap (λ x. read x rest) (omega arith))
]

abbrev starts_with_digit : List ℕ → Bool
starts_with_digit [] = false
starts_with_digit (c ∷ ds) = leb 48 c

digit : (k : ℕ) → leb 48 (48 + k) ≡ true
digit k = ground arith

digits-starts :
    (fuel n : ℕ) (rest : List ℕ)
    → starts_with_digit rest ≡ true
    → starts_with_digit (digits fuel n rest) ≡ true
unfolding digits
digits-starts zero n rest h = h
digits-starts (suc fuel) n rest h = elim (Bool-cases (ltb n 10)) [
  | inl short ↦ rw short (digit (n % 10))
  | inr long ↦ rw long (digits-starts fuel (n / 10) ((48 + n % 10) ∷ rest) (digit (n % 10)))
]

some_digits-start : (fuel n : ℕ) → starts_with_digit (digits (suc fuel) n []) ≡ true
unfolding digits
some_digits-start fuel n = elim (Bool-cases (ltb n 10)) [
  | inl short ↦ rw short (digit (n % 10))
  | inr long ↦ rw long (digits-starts fuel (n / 10) ((48 + n % 10) ∷ []) (digit (n % 10)))
]

no_minus : (c : ℕ) → leb 48 c ≡ true → (c == 45) ≡ false
no_minus c h = ground arith

read_int-starts : (ds : List ℕ) → starts_with_digit ds ≡ true → read_int ds ≡ pos (read 0 ds)
read_int-starts [] h = cc
read_int-starts (c ∷ ds) h = rw (no_minus c h) refl

decimal-read_int : (n : ℕ) → n < word → read_int (decimal n) ≡ signed n
unfolding decimal
decimal-read_int n h = elim (Bool-cases (negative n)) [
  | inl minus ↦
      let big : ltb n (2 ^ 31) ≡ false = ground arith in
      rw (minus, digits-read 10 (word - n) [] (ground arith), big) refl
  | inr plus ↦
      let small : ltb n (2 ^ 31) ≡ true = ground arith in
      rw (plus, small)
        (read_int-starts (digits 10 n []) (some_digits-start 9 n)
          ∙ ap pos (digits-read 10 n [] (ground arith)))
]

-- A constant of a numeric type other than `char` becomes, in a string, a text that reads as the number
-- its 32 bits stand for, the sign included.
pub stringify-read_int :
    (string_type t : TypeId) (n : ℕ) (original : Expr)
    → n < word
    → is_numeric t ≡ true
    → same_type t (simple char_base) ≡ false
    → same_type t string_type ≡ false
    → (text : JString) × (stringify string_type (Expr.const (Expr.int_lit n t) original) ≡ ok text)
      × (read_int text ≡ signed n)
unfolding stringify
stringify-read_int string_type t n original h numeric no_char no_string =
    (decimal n, rw (no_string, no_char, numeric), decimal-read_int n h)
