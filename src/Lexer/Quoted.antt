-- ===== src/Lexer/Quoted.antt =====
-- lexer/lexer.cpp: `AdvanceEscapedChar`, and the state functions `Char` and `String` from their
-- opening quote.
use joosc.Common.{
  ℕ, zero, suc, ◌+◌, ◌-◌, ◌*◌, ◌≤◌, ◌<◌, ◌≡◌, refl, ◌⊎◌, inl, inr, true, false, ◌||◌, length, ◌==◌,
  Bool-cases, ltb, arith, ok, ==_iff,
}
use native.Mathlib.Nat.{le_refl, add_assoc}
use joosc.Base.{File}
use joosc.Lexer.Chars.{is_octal, is_string_escapable}
use joosc.Lexer.Lexeme.{
  ByteAt, fits_octal, Octal, Escape, StringItem, StringItems, CharItem, BadEscape, Fault, Lexeme,
}
use joosc.Lexer.Literals.{
  octal_loop, after_backslash, advance_escaped_char, char_close, char_escaped, char_body, char_fn,
  string_escape_error, string_loop, string_fn,
}
use joosc.Lexer.Loops.{
  move, not-at_end, at_end, advance-ok, peek-ok, get_elem?_lt, cursor-cases, StopsAt-end,
  StopsAt-byte,
}
use joosc.Lexer.Scan.{Done, Done-finish, Done-fail, from_begin}
use joosc.Lexer.State.{LexState}
use joosc.Lexer.Step.{bytes_left}
use joosc.Lexer.TokenType.{TokenType}

-- The loop takes at most as many digits as it has rounds.
octal_loop-Octal :
    (s : LexState) (rounds n e : ℕ)
    → e ≤ length s.file
    → (e' m : ℕ) × (octal_loop rounds n (move s e) ≡ ok (move s e'))
      × (e ≤ e')
      × (e' ≤ e + rounds)
      × (e' ≤ length s.file)
      × Octal s.file rounds e n e' m
unfolding octal_loop
octal_loop-Octal s zero n e h = (e, n, refl, le_refl e, omega arith, h, Octal.full)
octal_loop-Octal s (suc rounds) n e h = elim (cursor-cases s.file e) [
  | inl past ↦ (
    e,
    n,
    rw (at_end s e past),
    le_refl e,
    omega arith,
    h,
    Octal.stop (StopsAt-end (fits_octal n) s.file e past),
  )
  | inr (c, byte, lt) ↦ elim (Bool-cases (is_octal c)) [
    | inr other ↦ (
      e,
      n,
      rw (not-at_end s e lt, peek-ok s e byte, other),
      le_refl e,
      omega arith,
      h,
      Octal.stop (StopsAt-byte (fits_octal n) s.file e byte (rw other)),
    )
    | inl digit ↦ elim (Bool-cases (ltb 255 (n * 8 + (c - b'0')))) [
      | inl big ↦ (
        e,
        n,
        rw (not-at_end s e lt, peek-ok s e byte, digit, big),
        le_refl e,
        omega arith,
        h,
        Octal.stop (StopsAt-byte (fits_octal n) s.file e byte (rw (digit, big))),
      )
      | inr small ↦
          let (e', m, eq, le, le', in_file, digits) =
            octal_loop-Octal s rounds (n * 8 + (c - b'0')) (e + 1) (omega arith) in
          (
            e',
            m,
            rw (not-at_end s e lt, peek-ok s e byte, digit, small, advance-ok 1 s e lt) eq,
            omega arith,
            omega arith,
            in_file,
            Octal.digit byte (rw (digit, small)) digits,
          )
    ]
  ]
]

one_digit_le : (c : ℕ) → is_octal c ≡ true → 0 * 8 + (c - b'0') ≤ 7
unfolding is_octal
one_digit_le c h = ground arith

one_digit : (c : ℕ) → is_octal c ≡ true → ltb 255 (0 * 8 + (c - b'0')) ≡ false
one_digit c h = ground (arith, one_digit_le c h)

-- The first digit is always taken: one octal digit is at most 7.
octal_loop-first :
    (s : LexState) (e c : ℕ)
    → ByteAt c s.file e
    → is_octal c ≡ true
    → (e' m : ℕ) × (octal_loop 3 0 (move s e) ≡ ok (move s e'))
      × (e + 1 ≤ e')
      × (e' ≤ e + 3)
      × (e' ≤ length s.file)
      × Octal s.file 3 e 0 e' m
unfolding octal_loop
octal_loop-first s e c byte digit =
    let lt : e < length s.file = get_elem?_lt s.file e byte in
    let (e', m, eq, le, le', in_file, digits) =
      octal_loop-Octal s 2 (0 * 8 + (c - b'0')) (e + 1) (omega arith) in
    (
      e',
      m,
      rw (not-at_end s e lt, peek-ok s e byte, digit, one_digit c digit, advance-ok 1 s e lt) eq,
      le,
      omega arith,
      in_file,
      Octal.digit byte (rw (digit, one_digit c digit)) digits,
    )

-- An escape sequence is taken whole, or the cursor stands behind the backslash.
pub advance_escaped_char-cases :
    (s : LexState) (e : ℕ)
    → ByteAt b'\\' s.file e
    → ((e' : ℕ) × (advance_escaped_char (move s e) ≡ ok (move s e', true))
        × (e + 2 ≤ e')
        × (e' ≤ length s.file)
        × Escape s.file e e')
      ⊎ ((advance_escaped_char (move s e) ≡ ok (move s (e + 1), false))
          × (e + 1 ≤ length s.file)
          × BadEscape s.file e)
unfolding advance_escaped_char after_backslash
advance_escaped_char-cases s e slash = elim (cursor-cases s.file (e + 1)) [
  | inl past ↦ inr (
    rw (advance-ok 1 s e (get_elem?_lt s.file e slash), at_end s (e + 1) past),
    omega (arith, get_elem?_lt s.file e slash),
    BadEscape.cut slash past,
  )
  | inr (c, byte, lt) ↦
      let start = advance-ok 1 s e (get_elem?_lt s.file e slash) in
      let inside = not-at_end s (e + 1) lt in
      let read = peek-ok s (e + 1) byte in
      elim (Bool-cases (is_string_escapable c)) [
        | inr bad ↦
            inr (rw (start, inside, read, bad), omega arith, BadEscape.unknown slash byte bad)
        | inl good ↦ elim (Bool-cases (is_octal c)) [
          | inr other ↦ inl (
            e + 2,
            rw (start, inside, read, good, other, advance-ok 1 s (e + 1) lt, add_assoc e 1 1),
            le_refl (e + 2),
            omega arith,
            Escape.single slash byte good other,
          )
          | inl digit ↦
              let (e', m, eq, le, le', in_file, digits) = octal_loop-first s (e + 1) c byte digit in
              inl (
                e',
                rw (start, inside, read, good, digit, eq),
                omega arith,
                in_file,
                Escape.octal slash (omega arith) (omega arith) digits,
              )
        ]
      ]
]

char_close-Done :
    (s : LexState) (e : ℕ)
    → ByteAt b'\'' s.file s.begin
    → s.begin < e
    → e ≤ length s.file
    → CharItem s.file (s.begin + 1) e
    → Done s (char_close (move s e))
unfolding char_close
char_close-Done s e quote b h item = elim (cursor-cases s.file e) [
  | inl past ↦
      rw (at_end s e past) (
        Done-fail s _ e h (Fault.unclosed_char quote item (StopsAt-end (◌==◌ b'\'') s.file e past)))
  | inr (c, byte, lt) ↦ elim (Bool-cases (c == b'\'')) [
    | inr other ↦
        rw (not-at_end s e lt, peek-ok s e byte, other)
          (Done-fail s _ e h (
            Fault.unclosed_char quote item
              (StopsAt-byte (◌==◌ b'\'') s.file e byte (ground arith))))
    | inl close ↦
        rw (not-at_end s e lt, peek-ok s e byte, close, advance-ok 1 s e lt)
          (Done-finish s TokenType.char (e + 1) (omega arith) (omega arith)
            (Lexeme.char quote item (rw (← (==_iff c b'\'').0 close) byte)))
  ]
]

pub char_fn-Done : (s : LexState) → ByteAt b'\'' s.file s.begin → Done s (char_fn (from_begin s))
unfolding char_fn char_body char_escaped
char_fn-Done s quote =
    let start = advance-ok 1 s s.begin (get_elem?_lt s.file s.begin quote) in
    let in_file : s.begin + 1 ≤ length s.file = omega (arith, get_elem?_lt s.file s.begin quote) in
    elim (cursor-cases s.file (s.begin + 1)) [
      | inl past ↦
          rw (start, at_end s (s.begin + 1) past)
            (Done-fail s _ (s.begin + 1) in_file (Fault.no_char quote (inl past)))
      | inr (c, byte, lt) ↦
          let inside = not-at_end s (s.begin + 1) lt in
          let read = peek-ok s (s.begin + 1) byte in
          elim (Bool-cases (c == b'\\')) [
            | inl slash ↦
                elim (advance_escaped_char-cases s (s.begin + 1)
                  (rw (← (==_iff c b'\\').0 slash) byte)) [
                    | inl (e, eq, le, le', escape) ↦
                        rw (start, inside, read, slash, eq)
                          (char_close-Done s e quote (omega arith) le' (CharItem.escape escape))
                    | inr (eq, le, bad) ↦
                        rw (start, inside, read, slash, eq)
                          (Done-fail s _ (s.begin + 1 + 1) le (Fault.escape_in_char quote bad))
                  ]
            | inr plain ↦ elim (Bool-cases (c == b'\'' || c == b'\n')) [
              | inl bad ↦
                  rw (start, inside, read, plain, bad)
                    (Done-fail s _ (s.begin + 1) in_file (Fault.no_char quote (inr (c, byte, bad))))
              | inr good ↦
                  rw (start, inside, read, plain, good, advance-ok 1 s (s.begin + 1) lt)
                    (char_close-Done s (s.begin + 1 + 1) quote (omega arith) (omega arith)
                      (CharItem.plain byte (ground arith) (ground arith) (ground arith)))
            ]
          ]
    ]

-- String literals: the items read so far reach from the opening quote to the cursor.
StringItems-concat :
    {file : File} {b m e : ℕ} → StringItems file b m → StringItem file m e → StringItems file b e
StringItems-concat StringItems.end x = StringItems.item x StringItems.end
StringItems-concat (StringItems.item y ys) x = StringItems.item y (StringItems-concat ys x)

string_loop-Done :
    (s : LexState) (fuel e : ℕ)
    → ByteAt b'"' s.file s.begin
    → s.begin < e
    → e ≤ length s.file
    → length s.file < fuel + e
    → StringItems s.file (s.begin + 1) e
    → Done s (string_loop fuel (move s e))
unfolding string_loop string_escape_error
string_loop-Done s zero e quote b h k items = absurd (omega arith)
string_loop-Done s (suc fuel) e quote b h k items = elim (cursor-cases s.file e) [
  | inl past ↦
      rw (at_end s e past) (Done-fail s _ e h (Fault.unclosed_string quote items (inl past)))
  | inr (c, byte, lt) ↦
      let inside = not-at_end s e lt in
      let read = peek-ok s e byte in
      elim (Bool-cases (c == b'\n')) [
        | inl newline ↦
            rw (inside, read, newline)
              (Done-fail s _ e h
                (Fault.unclosed_string quote items (inr (rw (← (==_iff c b'\n').0 newline) byte))))
        | inr same_line ↦ elim (Bool-cases (c == b'"')) [
          | inl close ↦
              rw (inside, read, same_line, close, advance-ok 1 s e lt)
                (Done-finish s TokenType.string (e + 1) (omega arith) (omega arith)
                  (Lexeme.string quote items (rw (← (==_iff c b'"').0 close) byte)))
          | inr more ↦ elim (Bool-cases (c == b'\\')) [
            | inr plain ↦
                rw (inside, read, same_line, more, plain, advance-ok 1 s e lt)
                  (string_loop-Done s fuel (e + 1) quote (omega arith) (omega arith) (omega arith) (
                    StringItems-concat items
                      (StringItem.plain byte (ground arith) (ground arith) (ground arith))))
            | inl slash ↦
                elim (advance_escaped_char-cases s e (rw (← (==_iff c b'\\').0 slash) byte)) [
                  | inl (e', eq, le, le', escape) ↦
                      rw (inside, read, same_line, more, slash, eq)
                        (string_loop-Done s fuel e' quote (omega arith) le' (omega arith)
                          (StringItems-concat items (StringItem.escape escape)))
                  | inr (eq, le, bad) ↦
                      rw (inside, read, same_line, more, slash, eq)
                        (Done-fail s _ (e + 1) le (Fault.escape_in_string quote items bad))
                ]
          ]
        ]
      ]
]

pub string_fn-Done : (s : LexState) → ByteAt b'"' s.file s.begin → Done s (string_fn (from_begin s))
unfolding string_fn
string_fn-Done s quote =
    let lt : s.begin < length s.file = get_elem?_lt s.file s.begin quote in
    rw (advance-ok 1 s s.begin lt) (
      string_loop-Done s (bytes_left (move s (s.begin + 1))) (s.begin + 1) quote (omega arith)
        (omega arith) (omega arith) StringItems.end)
