-- ===== src/Lexer/Literals.antt =====
-- lexer/lexer.cpp: `AdvanceEscapedChar`, and the state functions `Char` and `String`.
use joosc.Common.{
  ℕ, zero, suc, ◌+◌, ◌-◌, ◌*◌, Bool, true, false, not, ◌||◌, ltb, ◌==◌, if◌then◌else◌, Outcome, ok,
  thrown, Exn, ◌>>=◌,
}
use joosc.Base.{pos_range}
use joosc.Lexer.Chars.{is_octal, is_string_escapable}
use joosc.Lexer.State.{LexError, LexState, is_at_end, advance, peek, range}
use joosc.Lexer.Step.{bytes_left, finish, fail}
use joosc.Lexer.TokenType.{TokenType}

-- The `for` loop over octal digits: rounds left, and `currentOctalEscape`.
unfoldable pub octal_loop : ℕ → ℕ → LexState → Outcome LexState
octal_loop zero current s = ok s
octal_loop (suc rounds) current s = if is_at_end s then ok s else do
  next ← peek s
  let current' = current * 8 + (next - b'0')
  if not (is_octal next)
      then ok s
      else if ltb 255 current'
      then ok s
      else do s' ← advance 1 s; octal_loop rounds current' s'

-- `AdvanceEscapedChar` behind its first `Advance`.
unfoldable pub after_backslash : LexState → Outcome (LexState × Bool)
after_backslash s = if is_at_end s then ok (s, false) else do
  first ← peek s
  if not (is_string_escapable first)
      then ok (s, false)
      else if not (is_octal first)
      then (advance 1 s >>= λ s'. ok (s', true))
      else octal_loop 3 0 s >>= λ s'. ok (s', true)

unfoldable pub advance_escaped_char : LexState → Outcome (LexState × Bool)
advance_escaped_char s = do s' ← advance 1 s; after_backslash s'

abbrev pub char_lit_error : LexState → Outcome LexState
char_lit_error s = fail (LexError.invalid_character_lit_error (range s)) s

-- "Require another apostrophe."
unfoldable pub char_close : LexState → Outcome LexState
char_close s = if is_at_end s then char_lit_error s else do
  c ← peek s
  if not (c == b'\'') then char_lit_error s else advance 1 s >>= λ s'. finish TokenType.char s'

unfoldable pub char_escaped : LexState × Bool → Outcome LexState
char_escaped (s, true) = char_close s
char_escaped (s, false) = fail (LexError.invalid_character_escape_error (range s)) s

-- `Char` behind its first `Advance`.
unfoldable pub char_body : LexState → Outcome LexState
char_body s = if is_at_end s then char_lit_error s else do
  next ← peek s
  if next == b'\\'
      then advance_escaped_char s >>= char_escaped
      else if next == b'\'' || next == b'\n'
      then char_lit_error s
      else advance 1 s >>= char_close

unfoldable pub char_fn : LexState → Outcome LexState
char_fn s = advance 1 s >>= char_body

abbrev unclosed_string : LexState → Outcome LexState
unclosed_string s = fail (LexError.unclosed_string_lit_error (pos_range s.fileid s.begin)) s

-- A failed escape is reported from its backslash on.
unfoldable pub string_escape_error : ℕ → LexState → Outcome LexState
string_escape_error start_escape_pos s =
    fail
      (LexError.invalid_character_escape_error
        (record { fileid = s.fileid; begin = start_escape_pos; end = s.end }))
      s

-- The loop of `String`, with the emission after it.
unfoldable pub string_loop : ℕ → LexState → Outcome LexState
string_loop zero s = thrown Exn.out_of_fuel
string_loop (suc fuel) s = if is_at_end s then unclosed_string s else do
  next ← peek s
  if next == b'\n'
      then unclosed_string s
      else if next == b'"'
      then (advance 1 s >>= λ s'. finish TokenType.string s')
      else if next == b'\\'
      then (advance_escaped_char s >>= λ (s', good).
          if good then string_loop fuel s' else string_escape_error s.end s')
      else advance 1 s >>= λ s'. string_loop fuel s'

unfoldable pub string_fn : LexState → Outcome LexState
string_fn s = do s' ← advance 1 s; string_loop (bytes_left s') s'
