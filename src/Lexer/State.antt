-- ===== src/Lexer/State.antt =====
-- lexer/lexer.cpp, lexer/lexer.h, lexer/lexer_error.h: tokens, the lexer's errors, and `LexState`.
-- `fs->Get(fileid)` is the state's own `file`, as `LexJoosFiles` sets it up. A cursor is a number:
-- no file is longer than an `int`. A state function is a name, `none` is `nullptr`.
use joosc.Common.{
  ℕ, suc, ◌+◌, ◌-◌, Bool, true, false, ◌&&◌, Option, none, some, List, [], ◌∷◌, ltb, leb, ◌==◌,
  if◌then◌else◌, length, get_elem?, concat, Outcome, ok, thrown, Exn, check, ◌>>◌,
}
use joosc.Base.{PosRange, File, at}
use joosc.Lexer.TokenType.{TokenType}

pub record Token : Type 0 where
  pub type : TokenType
  pub pos : PosRange

pub data LexError : Type 0 where
  non_ansi_char_error leading_zero_in_int_lit_error : PosRange → LexError
  unclosed_block_comment_error unclosed_string_lit_error unexpected_char_error : PosRange → LexError
  invalid_character_escape_error invalid_character_lit_error : PosRange → LexError
  unsupported_token_error : PosRange → LexError

pub data StateFn : Type 0 where
  start integer whitespace block_comment line_comment identifier char string : StateFn

pub record LexState : Type 0 where
  pub file : File
  pub fileid : ℕ
  pub begin : ℕ
  pub end : ℕ
  pub tokens : List Token
  pub errors : List LexError
  pub state_fn : Option StateFn

unfoldable pub is_at_end : LexState → Bool
is_at_end s = leb (length s.file) s.end

unfoldable pub advance : ℕ → LexState → Outcome LexState
unfolding is_at_end
advance n s = if is_at_end s then thrown Exn.weird_state else ok (record s { end = s.end + n })

unfoldable pub peek : LexState → Outcome ℕ
unfolding at
peek s = at s.file s.end

-- The byte loop of `HasPrefix` and of `PosRangeStringMatches`, at offset `i` of the file.
unfoldable pub matches_at : File → ℕ → List ℕ → Bool
matches_at file i [] = true
matches_at file i (c ∷ cs) =
    elim (get_elem? file i) [ some b ↦ b == c | none ↦ false ] && matches_at file (suc i) cs

unfoldable pub has_prefix : List ℕ → LexState → Bool
unfolding matches_at
has_prefix str s =
    if ltb (length s.file - s.end) (length str) then false else matches_at s.file s.end str

abbrev pub range : LexState → PosRange
range s = record { fileid = s.fileid; begin = s.begin; end = s.end }

unfoldable pub set_next_state : Option StateFn → LexState → LexState
set_next_state fn s = record s { state_fn = fn }

unfoldable pub emit_token : TokenType → LexState → Outcome LexState
emit_token tok s = do
  check (ltb s.begin s.end)
  ok (record s { tokens = concat s.tokens (record { type = tok; pos = range s }); begin = s.end })

unfoldable pub emit_fatal : LexError → LexState → LexState
unfolding set_next_state
emit_fatal err s = set_next_state none (record s { errors = concat s.errors err })
