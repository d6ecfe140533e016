-- ===== src/Types/Folding/Words.antt =====
-- types/constant_folding.cpp: the machine arithmetic the pass uses. An `i32` is its 32-bit pattern.
use joosc.Common.{
  ℕ, zero, suc, ◌+◌, ◌-◌, ◌*◌, ◌/◌, ◌%◌, ◌^◌, Bool, not, ◌&&◌, ◌||◌, List, [], ◌∷◌, leb, ltb, ◌==◌,
  if◌then◌else◌, Outcome, ok, thrown, Exn,
}

abbrev pub word : ℕ
word = 2 ^ 32

unfoldable pub negative : ℕ → Bool
negative n = leb (2 ^ 31) n

-- The absolute value.
unfoldable pub magnitude : ℕ → ℕ
unfolding negative
magnitude n = if negative n then word - n else n

unfoldable pub neg : ℕ → ℕ
neg n = (word - n) % word

unfoldable pub word_add : ℕ → ℕ → ℕ
word_add a b = (a + b) % word

unfoldable pub word_sub : ℕ → ℕ → ℕ
word_sub a b = (a + (word - b)) % word

unfoldable pub word_mul : ℕ → ℕ → ℕ
word_mul a b = (a * b) % word

-- Division and remainder of C++ and their undefined case, the smallest number by -1. The divisor is
-- not 0: the callers ask first.
unfoldable pub overflows : ℕ → ℕ → Bool
overflows a b = a == 2 ^ 31 && b == word - 1

unfoldable pub word_div : ℕ → ℕ → Outcome ℕ
unfolding negative magnitude neg overflows
word_div a b =
    if overflows a b
    then thrown Exn.undefined
    else let quotient = magnitude a / magnitude b in
      if negative a
      then ok (if negative b then quotient else neg quotient)
      else ok (if negative b then neg quotient else quotient)

unfoldable pub word_mod : ℕ → ℕ → Outcome ℕ
unfolding negative magnitude neg overflows
word_mod a b =
    if overflows a b
    then thrown Exn.undefined
    else let rest = magnitude a % magnitude b in ok (if negative a then neg rest else rest)

-- `-value`; the smallest number has no negation.
unfoldable pub word_neg : ℕ → Outcome ℕ
unfolding neg
word_neg a = if a == 2 ^ 31 then thrown Exn.undefined else ok (neg a)

unfoldable pub word_lt : ℕ → ℕ → Bool
unfolding negative
word_lt a b = if negative a then not (negative b) || ltb a b else not (negative b) && ltb a b

unfoldable pub word_le : ℕ → ℕ → Bool
unfolding word_lt
word_le a b = not (word_lt b a)

-- The decimal digits before `rest`; the fuel bounds their number.
unfoldable pub digits : ℕ → ℕ → List ℕ → List ℕ
digits zero n rest = rest
digits (suc fuel) n rest =
    let next = (48 + n % 10) ∷ rest in
    let longer = digits fuel (n / 10) next in if ltb n 10 then next else longer

-- `ss << value`: an `i32` has at most ten digits.
unfoldable pub decimal : ℕ → List ℕ
unfolding negative magnitude
decimal n = if negative n then 45 ∷ digits 10 (magnitude n) [] else digits 10 (magnitude n) []
