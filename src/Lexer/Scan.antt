-- ===== src/Lexer/Scan.antt =====
-- lexer/lexer.cpp: the state functions that scan a run of bytes, each from a byte that `Start` chose
-- it for.
use joosc.Common.{
  ◌≢◌, ℕ, zero, suc, ◌+◌, ◌≤◌, ◌<◌, ◌≡◌, subst, ◌⊎◌, inl, inr, Bool, true, false, some, none,
  length, Bool-cases, arith, Outcome, ok, concat, lt→ltb,
}
use native.Mathlib.Decide.{dec_lt}
use native.Mathlib.Nat.{le_refl}
use joosc.Base.{File, at}
use joosc.Lexer.Chars.{
  is_whitespace, is_numeric, is_valid_identifier_start_char, is_valid_identifier_char,
}
use joosc.Lexer.Lexeme.{HasAt, AllIn, StopsAt, ByteAt, Fault, Lexeme}
use joosc.Lexer.Loops.{
  move, not-at_end, at_end, advance-ok, peek-ok, get_elem?_lt, cursor-cases, AllIn-empty,
  AllIn-concat, StopsAt-end, StopsAt-byte, skip_while_lem,
}
use joosc.Lexer.State.{LexError, StateFn, LexState, range, set_next_state, emit_token, emit_fatal}
use joosc.Lexer.Step.{
  finish, fail, bytes_left, leading_zero, integer_loop, integer_fn, whitespace_fn, identifier_rest,
  identifier_fn,
}
use joosc.Lexer.TokenType.{TokenType}

abbrev pub emit_at : LexState → TokenType → ℕ → LexState
emit_at s tok e = record s {
  begin = e;
  end = e;
  tokens = concat s.tokens (record { type = tok; pos = range (move s e) });
  state_fn = some StateFn.start;
}

abbrev pub fail_at : LexState → LexError → ℕ → LexState
fail_at s err e = record s { end = e; errors = concat s.errors err; state_fn = none }

-- What a state function does that neither throws nor goes astray.
pub data Done (s : LexState) : Outcome LexState → Type 0 where
  emitted :
      (tok : TokenType) (e : ℕ)
      → s.begin < e
      → e ≤ length s.file
      → Lexeme s.file s.begin tok e
      → Done s (ok (emit_at s tok e))
  failed :
      (err : LexError) (e : ℕ)
      → e ≤ length s.file
      → Fault s.file s.fileid s.begin err
      → Done s (ok (fail_at s err e))

pub Done-finish :
    (s : LexState) (tok : TokenType) (e : ℕ)
    → s.begin < e
    → e ≤ length s.file
    → Lexeme s.file s.begin tok e
    → Done s (finish tok (move s e))
unfolding finish emit_token set_next_state
Done-finish s tok e h k l = rw (lt→ltb s.begin e h) (emitted tok e h k l)

pub Done-fail :
    (s : LexState) (err : LexError) (e : ℕ)
    → e ≤ length s.file
    → Fault s.file s.fileid s.begin err
    → Done s (fail err (move s e))
unfolding emit_fatal set_next_state
Done-fail s err e k fault = failed err e k fault

-- A run that starts with a byte of its kind is not empty.
pub moved :
    (p : ℕ → Bool) (file : File) (b e : ℕ) → HasAt p file b → StopsAt p file e → b ≤ e → b < e
moved p file b e (c, byte, h) stops le = elim (dec_lt b e) [
  | yes lt ↦ lt
  | no ge ↦
      let same : b ≡ e = omega arith in
      let clash : p c ≡ false = stops c (subst (ByteAt c file) same byte) in absurd (cc)
]

abbrev pub from_begin : LexState → LexState
from_begin s = move s s.begin

pub whitespace_fn-Done :
    (s : LexState) → HasAt is_whitespace s.file s.begin → Done s (whitespace_fn (from_begin s))
unfolding whitespace_fn
whitespace_fn-Done s first =
    let lt : s.begin < length s.file = get_elem?_lt s.file s.begin first.1 in
    let (e, eq, le, le', all, stops) =
      skip_while_lem is_whitespace s (bytes_left (from_begin s)) s.begin (omega arith)
        (omega arith) in
    rw eq (
      Done-finish s TokenType.whitespace e (moved is_whitespace s.file s.begin e first stops le) le'
        (Lexeme.whitespace all stops))

pub leading_zero-cases :
    (s : LexState) (e : ℕ)
    → s.begin ≤ e
    → e < length s.file
    → ((leading_zero (move s e) ≡ ok true) × ByteAt b'0' s.file s.begin × (e ≡ s.begin + 1))
      ⊎ ((leading_zero (move s e) ≡ ok false) × (ByteAt b'0' s.file s.begin → e ≢ s.begin + 1))
unfolding leading_zero at
leading_zero-cases s e b h = elim (cursor-cases s.file s.begin) [
  | inl past ↦ absurd (omega arith)
  | inr (c, byte, lt) ↦ ground arith
]

integer_started :
    (s : LexState) (e : ℕ)
    → s.begin ≤ e
    → (s.begin ≡ e → HasAt is_numeric s.file e)
    → StopsAt is_numeric s.file e
    → s.begin < e
integer_started s e b first stops = elim (dec_lt s.begin e) [
  | yes lt ↦ lt
  | no ge ↦
      let (c, byte, digit) = first (omega arith) in
      let clash : is_numeric c ≡ false = stops c byte in absurd (cc)
]

pub integer_loop-Done :
    (s : LexState) (fuel e : ℕ)
    → s.begin ≤ e
    → (s.begin ≡ e → HasAt is_numeric s.file e)
    → e ≤ length s.file
    → length s.file < fuel + e
    → AllIn is_numeric s.file s.begin e
    → (ByteAt b'0' s.file s.begin → e ≤ s.begin + 1)
    → Done s (integer_loop fuel (move s e))
unfolding integer_loop
integer_loop-Done s zero e b first h k all z = absurd (omega arith)
integer_loop-Done s (suc fuel) e b first h k all z = elim (cursor-cases s.file e) [
  | inl past ↦
      let started : s.begin ≢ e =
        λ same. absurd (omega (arith, get_elem?_lt s.file e (first same).1)) in
      rw (at_end s e past) (
        Done-finish s TokenType.integer e (omega arith) h
          (Lexeme.integer all (StopsAt-end is_numeric s.file e past) (λ q. omega (arith, z q))))
  | inr (c, byte, lt) ↦ elim (Bool-cases (is_numeric c)) [
    | inl digit ↦ elim (leading_zero-cases s e b lt) [
      | inl (zero_first, zero_byte, second) ↦
          rw (not-at_end s e lt, peek-ok s e byte, zero_first, digit)
            (Done-fail s _ e h (
              Fault.leading_zero zero_byte
                (subst (HasAt is_numeric s.file) second (c, byte, digit))))
      | inr (no_zero, z') ↦
          rw (not-at_end s e lt, peek-ok s e byte, no_zero, digit, advance-ok 1 s e lt)
            (integer_loop-Done s fuel (e + 1) (omega arith) (λ q. absurd (omega arith))
              (omega arith) (omega arith)
              (AllIn-concat is_numeric s.file s.begin e all (c, byte, digit))
              (λ q. omega (arith, z q, z' q)))
    ]
    | inr stop ↦
        let stops : StopsAt is_numeric s.file e = StopsAt-byte is_numeric s.file e byte stop in
        let lt' : s.begin < e = integer_started s e b first stops in
        let done =
          Done-finish s TokenType.integer e lt' h
            (Lexeme.integer all stops (λ q. omega (arith, z q))) in
        elim (leading_zero-cases s e b lt) [
          | inl (zero_first, _, _) ↦ rw (not-at_end s e lt, peek-ok s e byte, zero_first, stop) done
          | inr (no_zero, _) ↦ rw (not-at_end s e lt, peek-ok s e byte, no_zero, stop) done
        ]
  ]
]

pub integer_fn-Done :
    (s : LexState) → HasAt is_numeric s.file s.begin → Done s (integer_fn (from_begin s))
unfolding integer_fn
integer_fn-Done s first =
    let lt : s.begin < length s.file = get_elem?_lt s.file s.begin first.1 in
    integer_loop-Done s (bytes_left (from_begin s)) s.begin (le_refl s.begin) (λ _. first)
      (omega arith) (omega arith) (AllIn-empty is_numeric s.file s.begin) (λ _. omega arith)

pub identifier_fn-Done :
    (s : LexState)
    → HasAt is_valid_identifier_start_char s.file s.begin
    → Done s (identifier_fn (from_begin s))
unfolding identifier_fn identifier_rest
identifier_fn-Done s (c, byte, h) =
    let lt : s.begin < length s.file = get_elem?_lt s.file s.begin byte in
    let (e, eq, le, le', all, stops) =
      skip_while_lem is_valid_identifier_char s (bytes_left (move s (s.begin + 1))) (s.begin + 1)
        (omega arith) (omega arith) in
    rw (not-at_end s s.begin lt, peek-ok s s.begin byte, h, advance-ok 1 s s.begin lt, eq)
      (Done-finish s _ e (omega arith) le' (Lexeme.word s.fileid (c, byte, h) all stops))
