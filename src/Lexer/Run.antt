-- ===== src/Lexer/Run.antt =====
-- lexer/lexer.cpp: `LexState::Run`, `LexJoosFile`, `LexJoosFiles`, and the passes over tokens.
-- `Run` takes fuel: two rounds for each byte (`Start` and the state function that it chose) and two
-- more.
use joosc.Common.{
  ℕ, zero, suc, ◌+◌, ◌*◌, Bool, true, false, not, ◌&&◌, Option, none, some, List, [], ◌∷◌, ◌++◌,
  ltb, ◌==◌, if◌then◌else◌, length, Outcome, ok, thrown, Exn, ◌>>=◌,
}
use joosc.Base.{pos_range, File}
use joosc.Lexer.Literals.{char_fn, string_fn}
use joosc.Lexer.State.{
  Token, LexError, StateFn, start, integer, whitespace, block_comment, line_comment, identifier,
  char, string, LexState,
}
use joosc.Lexer.Step.{
  start_fn, integer_fn, whitespace_fn, line_comment_fn, block_comment_fn, identifier_fn,
}
use joosc.Lexer.TokenType.{is_skippable, is_supported, from_token_type}

-- `stateFn(this)`.
unfoldable pub call_state_fn : StateFn → LexState → Outcome LexState
call_state_fn start s = start_fn s
call_state_fn integer s = integer_fn s
call_state_fn whitespace s = whitespace_fn s
call_state_fn block_comment s = block_comment_fn s
call_state_fn line_comment s = line_comment_fn s
call_state_fn identifier s = identifier_fn s
call_state_fn char s = char_fn s
call_state_fn string s = string_fn s

-- Two function pointers are equal.
unfoldable pub same_fn : StateFn → Option StateFn → Bool
same_fn start (some start) = true
same_fn integer (some integer) = true
same_fn whitespace (some whitespace) = true
same_fn block_comment (some block_comment) = true
same_fn line_comment (some line_comment) = true
same_fn identifier (some identifier) = true
same_fn char (some char) = true
same_fn string (some string) = true
same_fn _ _ = false

-- The check behind each round.
unfoldable pub check_progress : StateFn → LexState → LexState → Outcome LexState
check_progress prev_fn prev s =
    if same_fn prev_fn s.state_fn && s.begin == prev.begin && s.end == prev.end
    then thrown Exn.no_progress
    else ok s

unfoldable pub round : StateFn → LexState → Outcome LexState
round fn s = do s' ← call_state_fn fn s; check_progress fn s s'

unfoldable pub run : ℕ → LexState → Outcome LexState
run zero s = thrown Exn.out_of_fuel
run (suc fuel) s = elim s.state_fn [ none ↦ ok s | some fn ↦ round fn s >>= λ s'. run fuel s' ]

-- "Remove anything with non-ANSI characters": the first one from index `i` on.
unfoldable pub find_non_ansi : ℕ → List ℕ → Option ℕ
find_non_ansi i [] = none
find_non_ansi i (c ∷ cs) = let rest = find_non_ansi (i + 1) cs in if ltb 127 c then some i else rest

abbrev pub initial : File → ℕ → LexState
initial file fileid = record {
  file = file;
  fileid = fileid;
  begin = 0;
  end = 0;
  tokens = [];
  errors = [];
  state_fn = some start;
}

abbrev pub run_fuel : File → ℕ
run_fuel file = 2 * length file + 2

-- The tokens and the errors of one file.
unfoldable pub lex_joos_file : File → ℕ → Outcome (List Token × List LexError)
lex_joos_file file fileid = elim (find_non_ansi 0 file) [
  | some i ↦ ok ([], LexError.non_ansi_char_error (pos_range fileid i) ∷ [])
  | none ↦ run (run_fuel file) (initial file fileid) >>= λ s. ok (s.tokens, s.errors)
]

-- The loop of `LexJoosFiles` from file `fileid` on; the errors of all files go to one list.
unfoldable pub lex_joos_files_from : ℕ → List File → Outcome (List (List Token) × List LexError)
lex_joos_files_from fileid [] = ok ([], [])
lex_joos_files_from fileid (file ∷ rest) = do
  (tokens, errors) ← lex_joos_file file fileid
  (more_tokens, more_errors) ← lex_joos_files_from (fileid + 1) rest
  ok (tokens ∷ more_tokens, errors ++ more_errors)

unfoldable pub lex_joos_files : List File → Outcome (List (List Token) × List LexError)
unfolding lex_joos_files_from
lex_joos_files = lex_joos_files_from 0

unfoldable pub strip_skippable_tokens : List Token → Outcome (List Token)
strip_skippable_tokens [] = ok []
strip_skippable_tokens (token ∷ tokens) = do
  info ← from_token_type token.type
  out ← strip_skippable_tokens tokens
  ok (if is_skippable info then out else token ∷ out)

unfoldable pub find_unsupported_tokens : List Token → Outcome (List LexError)
find_unsupported_tokens [] = ok []
find_unsupported_tokens (tok ∷ tokens) = do
  info ← from_token_type tok.type
  errors ← find_unsupported_tokens tokens
  ok (if not (is_supported info) then LexError.unsupported_token_error tok.pos ∷ errors else errors)
