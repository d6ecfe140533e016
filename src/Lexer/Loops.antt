-- ===== src/Lexer/Loops.antt =====
-- lexer/lexer.cpp: the steps of the cursor, and the loops that only move it.
use joosc.Common.{
  ℕ, zero, suc, ◌+◌, ◌≤◌, ◌<◌, ◌≡◌, refl, ◌⊎◌, inl, inr, Bool, true, false, some, none, List,
  length, get_elem?, Bool-cases, arith, ok,
}
use mathlib.Core.List.{[], ◌∷◌}
use mathlib.Core.Path.{subst}
use native.Mathlib.Decide.{dec_lt}
use native.Mathlib.Nat.{le_refl}
use joosc.Base.{File, at}
use joosc.Lexer.State.{LexState, is_at_end, advance, peek}
use joosc.Lexer.Step.{skip_while}
use joosc.Lexer.Lexeme.{HasAt, AllIn, StopsAt, ByteAt}

-- The state with its cursor at `e`.
abbrev pub move : LexState → ℕ → LexState
move s e = record s { end = e }

pub not-at_end : (s : LexState) (e : ℕ) → e < length s.file → is_at_end (move s e) ≡ false
unfolding is_at_end
not-at_end s e h = ground arith

pub at_end : (s : LexState) (e : ℕ) → length s.file ≤ e → is_at_end (move s e) ≡ true
unfolding is_at_end
at_end s e h = ground arith

pub advance-ok :
    (n : ℕ) (s : LexState) (e : ℕ) → e < length s.file → advance n (move s e) ≡ ok (move s (e + n))
unfolding advance is_at_end
advance-ok n s e h = ground arith

pub peek-ok : (s : LexState) (e : ℕ) {c : ℕ} → ByteAt c s.file e → peek (move s e) ≡ ok c
unfolding peek at
peek-ok s e h = rw (h, at)

pub get_elem?_lt {ℓ} :
    {A : Type ℓ} (xs : List A) (i : ℕ) {a : A} → get_elem? xs i ≡ some a → i < length xs
get_elem?_lt [] i h = cc
get_elem?_lt (x ∷ xs) zero h = omega arith
get_elem?_lt (x ∷ xs) (suc i) h = omega (arith, get_elem?_lt xs i h)

pub get_elem?_end {ℓ} : {A : Type ℓ} (xs : List A) (i : ℕ) → length xs ≤ i → get_elem? xs i ≡ none
get_elem?_end [] i h = refl
get_elem?_end (x ∷ xs) zero h = absurd (omega arith)
get_elem?_end (x ∷ xs) (suc i) h = get_elem?_end xs i (omega arith)

-- Past the last byte, or at a byte.
pub cursor-cases :
    (file : File) (e : ℕ) → (length file ≤ e) ⊎ ((c : ℕ) × ByteAt c file e × (e < length file))
cursor-cases [] e = inl (omega arith)
cursor-cases (x ∷ file) zero = inr (x, refl, omega arith)
cursor-cases (x ∷ file) (suc e) = elim (cursor-cases file e) [
  | inl h ↦ inl (omega arith)
  | inr (c, h, k) ↦ inr (c, h, omega arith)
]

pub AllIn-empty : (p : ℕ → Bool) (file : File) (b : ℕ) → AllIn p file b b
AllIn-empty p file b i h k = absurd (omega arith)

-- A range that starts with one more byte.
pub AllIn-cons :
    (p : ℕ → Bool) (file : File) (b e : ℕ)
    → HasAt p file b
    → AllIn p file (b + 1) e
    → AllIn p file b e
AllIn-cons p file b e h k i l m = elim (dec_lt b i) [
  | yes q ↦ k i (omega arith) m
  | no q ↦ let same : b ≡ i = omega arith in subst (HasAt p file) same h
]

-- A range that ends with one more byte.
pub AllIn-concat :
    (p : ℕ → Bool) (file : File) (b e : ℕ)
    → AllIn p file b e
    → HasAt p file e
    → AllIn p file b (e + 1)
AllIn-concat p file b e k h i l m = elim (dec_lt i e) [
  | yes q ↦ k i l q
  | no q ↦ let same : e ≡ i = omega arith in subst (HasAt p file) same h
]

pub StopsAt-end : (p : ℕ → Bool) (file : File) (e : ℕ) → length file ≤ e → StopsAt p file e
StopsAt-end p file e h c k = absurd (omega (arith, get_elem?_lt file e k))

pub StopsAt-byte :
    (p : ℕ → Bool) (file : File) (e : ℕ) {c : ℕ} → ByteAt c file e → p c ≡ false → StopsAt p file e
StopsAt-byte p file e {c} h k d l = let same : d ≡ c = cc in rw same k

-- With enough fuel the loop stops behind the last byte that passes the test.
pub skip_while_lem :
    (p : ℕ → Bool) (s : LexState) (fuel e : ℕ)
    → e ≤ length s.file
    → length s.file < fuel + e
    → (e' : ℕ) × (skip_while p fuel (move s e) ≡ ok (move s e'))
      × (e ≤ e')
      × (e' ≤ length s.file)
      × AllIn p s.file e e'
      × StopsAt p s.file e'
unfolding skip_while
skip_while_lem p s zero e h k = absurd (omega arith)
skip_while_lem p s (suc fuel) e h k = elim (cursor-cases s.file e) [
  | inl past ↦
      (e, rw (at_end s e past), le_refl e, h, AllIn-empty p s.file e, StopsAt-end p s.file e past)
  | inr (c, byte, lt) ↦ elim (Bool-cases (p c)) [
    | inl more ↦
        let (e', eq, le, le', all, stops) =
          skip_while_lem p s fuel (e + 1) (omega arith) (omega arith) in
        (
          e',
          rw (not-at_end s e lt, peek-ok s e byte, more, advance-ok 1 s e lt) eq,
          omega arith,
          le',
          AllIn-cons p s.file e e' (c, byte, more) all,
          stops,
        )
    | inr stop ↦ (
      e,
      rw (not-at_end s e lt, peek-ok s e byte, stop),
      le_refl e,
      h,
      AllIn-empty p s.file e,
      StopsAt-byte p s.file e byte stop,
    )
  ]
]
