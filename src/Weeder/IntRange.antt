-- ===== src/Weeder/IntRange.antt =====
-- weeder/int_range_visitor.cpp: `ConvertInt`. The text of an integer token has digits only; reading an
-- `i64` from it gives the largest one, and fails, where the number is larger. `none` stands for the
-- error, with `{0, false}`.
use joosc.Common.{
  ℕ, ◌-◌, ◌%◌, ◌^◌, ◌<◌, ◌≡◌, ◌↔◌, Bool, ◌||◌, Option, some, none, List, [], ltb, if◌then◌else◌,
  min, arith, ap, ◌∙◌,
}
use joosc.Types.Folding.Decimal.{read, digits-read}
use joosc.Types.Folding.Words.{word, negative, magnitude, digits}

abbrev largest : ℕ
largest = 2 ^ 63 - 1

-- `ss >> intVal`: the value, and whether the stream has failed.
unfoldable pub read_i64 : List ℕ → ℕ × Bool
read_i64 str_val = (min (read 0 str_val) largest, ltb largest (read 0 str_val))

unfoldable pub convert_int : List ℕ → Bool → Option ℕ
unfolding read_i64
convert_int str_val is_negated =
    let (value, failed) = read_i64 str_val in
    if (if is_negated then ltb (2 ^ 31) value else ltb (2 ^ 31 - 1) value) || failed
    then none
    else some (if is_negated then (word - value) % word else value)

magnitude-bound : (n : ℕ) → n < word → magnitude n < 10 ^ 10
unfolding magnitude
magnitude-bound n h = ground arith

-- What `ConvertInt` does with the number that was read.
abbrev converted : ℕ → Bool → Option ℕ
converted v is_negated =
    if (if is_negated then ltb (2 ^ 31) (min v largest) else ltb (2 ^ 31 - 1) (min v largest))
      || ltb largest v
    then none
    else some (if is_negated then (word - min v largest) % word else min v largest)

converted-magnitude : (n : ℕ) → n < word → converted (magnitude n) (negative n) ≡ some n
unfolding magnitude negative
converted-magnitude n h = ground arith

-- The digits of every 32-bit number, with its sign taken off, convert to that number again.
pub convert_int-magnitude :
    (n : ℕ) → n < word → convert_int (digits 10 (magnitude n) []) (negative n) ≡ some n
unfolding convert_int
convert_int-magnitude n h =
    ap (λ v. converted v (negative n)) (digits-read 10 (magnitude n) [] (magnitude-bound n h))
    ∙ converted-magnitude n h

-- The largest absolute value that an `int` has, with a minus sign and without.
abbrev pub limit : Bool → ℕ
limit is_negated = if is_negated then 2 ^ 31 else 2 ^ 31 - 1

converted-limit :
    (v : ℕ) (is_negated : Bool) → (converted v is_negated ≡ none) ↔ (limit is_negated < v)
converted-limit v is_negated = ground arith

-- A text of digits is refused exactly if its number, however long, is beyond the limit of its sign.
pub convert_int-limit :
    (str_val : List ℕ) (is_negated : Bool)
    → (convert_int str_val is_negated ≡ none) ↔ (limit is_negated < read 0 str_val)
unfolding convert_int
convert_int-limit str_val is_negated = converted-limit (read 0 str_val) is_negated
