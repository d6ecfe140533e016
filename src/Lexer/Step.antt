-- ===== src/Lexer/Step.antt =====
-- lexer/lexer.cpp: keyword matching, and the state functions other than `Char` and `String`. A loop
-- that moves the cursor takes fuel: one more than the bytes left.
use joosc.Common.{
  ℕ, zero, suc, ◌+◌, ◌-◌, Bool, false, not, ◌&&◌, Option, none, some, List, [], ◌∷◌, ◌==◌,
  if◌then◌else◌, length, codes, Outcome, ok, thrown, Exn, ◌>>=◌,
}
use joosc.Base.{PosRange, pos_range, File, at}
use joosc.Lexer.Chars.{
  is_whitespace, is_numeric, is_valid_identifier_start_char, is_valid_identifier_char,
}
use joosc.Lexer.State.{
  LexError, StateFn, LexState, is_at_end, advance, peek, matches_at, has_prefix, range,
  set_next_state, emit_token, emit_fatal,
}
use joosc.Lexer.TokenType.{TokenType, TokenTypeInfo, k_entries, is_keyword, is_symbol}

unfoldable pub pos_range_string_matches : File → PosRange → List ℕ → Bool
unfolding matches_at
pos_range_string_matches file range s =
    if not (length s == range.end - range.begin) then false else matches_at file range.begin s

-- The loop of `MatchKeywords` over the table.
unfoldable pub match_keywords_in : List TokenTypeInfo → File → PosRange → TokenType
unfolding pos_range_string_matches
match_keywords_in [] file range = TokenType.identifier
match_keywords_in (info ∷ rest) file range =
    if not (is_keyword info)
    then match_keywords_in rest file range
    else if pos_range_string_matches file range info.value
    then info.type
    else match_keywords_in rest file range

unfoldable pub match_keywords : File → PosRange → TokenType
match_keywords = match_keywords_in k_entries

-- The loop of `Start` over the symbols of the table; `none` where none is a prefix.
unfoldable pub match_symbol_in : List TokenTypeInfo → LexState → Option TokenTypeInfo
match_symbol_in [] s = none
match_symbol_in (info ∷ rest) s =
    if not (is_symbol info)
    then match_symbol_in rest s
    else if has_prefix info.value s
    then some info
    else match_symbol_in rest s

unfoldable pub start_symbol : Option TokenTypeInfo → LexState → Outcome LexState
start_symbol none s =
    ok (emit_fatal (LexError.unexpected_char_error (pos_range s.fileid s.begin)) s)
start_symbol (some info) s = do s' ← advance (length info.value) s; emit_token info.type s'

-- The tests of `Start` on the byte at the cursor, after those for comments.
unfoldable pub start_char : ℕ → LexState → Outcome LexState
start_char c s =
    if c == b'\''
    then ok (set_next_state (some StateFn.char) s)
    else if c == b'"'
    then ok (set_next_state (some StateFn.string) s)
    else if is_whitespace c
    then ok (set_next_state (some StateFn.whitespace) s)
    else if is_numeric c
    then ok (set_next_state (some StateFn.integer) s)
    else if is_valid_identifier_start_char c
    then ok (set_next_state (some StateFn.identifier) s)
    else start_symbol (match_symbol_in k_entries s) s

unfoldable pub start_fn : LexState → Outcome LexState
start_fn s =
    if not (s.begin == s.end)
    then thrown Exn.partial_lexeme
    else if is_at_end s
    then ok (set_next_state none s)
    else if has_prefix (codes "//") s
    then ok (set_next_state (some StateFn.line_comment) s)
    else if has_prefix (codes "/*") s
    then ok (set_next_state (some StateFn.block_comment) s)
    else peek s >>= λ c. start_char c s

-- `while (!IsAtEnd() && p(Peek())) Advance();`
unfoldable pub skip_while : (ℕ → Bool) → ℕ → LexState → Outcome LexState
skip_while p zero s = thrown Exn.out_of_fuel
skip_while p (suc fuel) s =
    if is_at_end s
    then ok s
    else do c ← peek s; if p c then (do s' ← advance 1 s; skip_while p fuel s') else ok s

abbrev pub bytes_left : LexState → ℕ
bytes_left s = suc (length s.file - s.end)

-- `EmitToken(tok); SetNextState(&Start);`
unfoldable pub finish : TokenType → LexState → Outcome LexState
finish tok s = do s' ← emit_token tok s; ok (set_next_state (some StateFn.start) s')

abbrev pub fail : LexError → LexState → Outcome LexState
fail err s = ok (emit_fatal err s)

-- `state->begin + 1 == state->end && state->file->At(state->begin) == '0'`; the test reads the file
-- and changes nothing.
unfoldable pub leading_zero : LexState → Outcome Bool
leading_zero s =
    if s.begin + 1 == s.end then (at s.file s.begin >>= λ first. ok (first == b'0')) else ok false

-- The loop of `Integer`, with the emission after it.
unfoldable pub integer_loop : ℕ → LexState → Outcome LexState
integer_loop zero s = thrown Exn.out_of_fuel
integer_loop (suc fuel) s = if is_at_end s then finish TokenType.integer s else do
  c ← peek s
  zero_first ← leading_zero s
  if not (is_numeric c)
      then finish TokenType.integer s
      else if zero_first
      then fail (LexError.leading_zero_in_int_lit_error (pos_range s.fileid s.begin)) s
      else do s' ← advance 1 s; integer_loop fuel s'

unfoldable pub integer_fn : LexState → Outcome LexState
integer_fn s = integer_loop (bytes_left s) s

unfoldable pub whitespace_fn : LexState → Outcome LexState
whitespace_fn s = do s' ← skip_while is_whitespace (bytes_left s) s; finish TokenType.whitespace s'

unfoldable pub line_loop : ℕ → LexState → Outcome LexState
line_loop zero s = thrown Exn.out_of_fuel
line_loop (suc fuel) s =
    if is_at_end s
    then ok s
    else do next ← peek s; s' ← advance 1 s; if next == b'\n' then ok s' else line_loop fuel s'

unfoldable pub line_comment_fn : LexState → Outcome LexState
line_comment_fn s = do
  s₁ ← advance 2 s
  s₂ ← line_loop (bytes_left s₁) s₁
  finish TokenType.line_comment s₂

-- The loop of `BlockComment`, with the emission after it.
unfoldable pub block_loop : ℕ → Bool → LexState → Outcome LexState
block_loop zero prev_star s = thrown Exn.out_of_fuel
block_loop (suc fuel) prev_star s =
    if is_at_end s
    then fail
        (LexError.unclosed_block_comment_error
          (record { fileid = s.fileid; begin = s.begin; end = s.begin + 2 }))
        s
    else do
      next ← peek s
      s' ← advance 1 s
      if prev_star && next == b'/'
          then finish TokenType.block_comment s'
          else block_loop fuel (next == b'*') s'

unfoldable pub block_comment_fn : LexState → Outcome LexState
block_comment_fn s = do s' ← advance 2 s; block_loop (bytes_left s') false s'

unfoldable pub identifier_rest : LexState → Outcome LexState
identifier_rest s = do
  s₁ ← advance 1 s
  s₂ ← skip_while is_valid_identifier_char (bytes_left s₁) s₁
  finish (match_keywords s₂.file (range s₂)) s₂

unfoldable pub identifier_fn : LexState → Outcome LexState
identifier_fn s = if is_at_end s then thrown Exn.bad_identifier else do
  c ← peek s
  if not (is_valid_identifier_start_char c) then thrown Exn.bad_identifier else identifier_rest s
