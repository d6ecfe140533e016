-- ===== src/Lexer/Tests.antt =====
-- The lexer on small inputs.
use joosc.Common.{
  ℕ, zero, suc, sym, some_injective, none, false, not, ◌&&◌, ◌||◌, ◌==◌, ◌⊎◌, ◌≤◌, ◌≡◌, refl, ◌↔◌,
  true, codes, ok, map, length, some, Outcome, List, ◌∷◌, [], ◌>>=◌, if◌then◌else◌, arith,
  get_elem?,
}
use mathlib.Core.List.{Memᴰ}
use joosc.Lexer.TokenType.{TokenType, TokenTypeInfo, index, k_entries, from_token_type, is_bin_op}
use joosc.Lexer.State.{
  Token, LexError, LexState, matches_at, has_prefix, set_next_state, emit_token, emit_fatal,
  advance, peek, is_at_end,
}
use joosc.Base.{at, File, PosRange}
use joosc.Lexer.Chars.{
  is_whitespace, is_numeric, is_octal, is_alpha, is_valid_identifier_start_char,
  is_valid_identifier_char, is_string_escapable,
}
use joosc.Lexer.Step.{
  pos_range_string_matches, match_keywords_in, match_keywords, match_symbol_in, start_symbol,
  start_char, start_fn, skip_while, finish, integer_loop, leading_zero, integer_fn, whitespace_fn,
  line_loop, line_comment_fn, block_loop, block_comment_fn, identifier_rest, identifier_fn,
}
use joosc.Lexer.Literals.{
  octal_loop, after_backslash, advance_escaped_char, char_close, char_escaped, char_body, char_fn,
  string_escape_error, string_loop, string_fn,
}
use joosc.Lexer.Loops.{move}
use joosc.Lexer.Run.{
  call_state_fn, same_fn, check_progress, round, run, find_non_ansi, lex_joos_file, initial,
  strip_skippable_tokens,
}
use joosc.Lexer.Escapes.{convert_string_escapes, convert_char_escape}
use joosc.Lexer.Lexeme.{SymbolAt, StringItems, StringItem, Escape}
use joosc.Lexer.Sound.{FileLexed, lex_joos_file-FileLexed}
use joosc.Lexer.Symbols.{match_symbol_in-longest}
use joosc.Lexer.Tables.{
  NoneSpelled, match_keywords-keyword, match_keywords-identifier, from_token_type-type,
}
use joosc.Lexer.Converted.{Values, convert_string_escapes-Values, convert_char_escape_overflow}
use joosc.Lexer.Passes.{strip_skippable_tokens-without_trivia}
use joosc.Lexer.Operators.{classes, bin_op-classes}

abbrev source : File
source = codes "if(a1<=12)x='\\n';/*a*/"

abbrev types : File → Outcome (List TokenType)
types f = lex_joos_file f 0 >>= λ (ts, es). ok (map (λ (t : Token). t.type) ts)

source-types :
    types source
    ≡ ok (
        TokenType.k_if ∷ TokenType.lparen ∷ TokenType.identifier ∷ TokenType.le ∷ TokenType.integer
        ∷ TokenType.rparen ∷ TokenType.identifier ∷ TokenType.assg ∷ TokenType.char ∷ TokenType.semi
        ∷ TokenType.block_comment ∷ [])
unfolding from_token_type index k_entries matches_at has_prefix set_next_state emit_token emit_fatal
    advance peek is_at_end at is_whitespace is_numeric is_octal is_alpha
    is_valid_identifier_start_char is_valid_identifier_char is_string_escapable
    pos_range_string_matches match_keywords_in match_keywords match_symbol_in start_symbol
    start_char start_fn skip_while finish integer_loop leading_zero integer_fn whitespace_fn
    line_loop line_comment_fn block_loop block_comment_fn identifier_rest identifier_fn octal_loop
    after_backslash advance_escaped_char char_close char_escaped char_body char_fn
    string_escape_error string_loop string_fn call_state_fn same_fn check_progress round run
    find_non_ansi lex_joos_file
source-types = refl

lex_joos_file-FileLexed_example :
    (tokens : List Token) × (errors : List LexError) × (lex_joos_file source 0
      ≡ ok (tokens, errors))
    × FileLexed source 0 tokens errors
lex_joos_file-FileLexed_example = lex_joos_file-FileLexed source 0

abbrev word : PosRange
word = record { fileid = 0; begin = 0; end = 2 }

from_token_type-type_example :
    (info : TokenTypeInfo) × (from_token_type TokenType.k_if ≡ ok info)
    × (info.type ≡ TokenType.k_if)
from_token_type-type_example = from_token_type-type TokenType.k_if

match_keywords-identifier_example :
    (match_keywords source word ≡ TokenType.identifier) ↔ NoneSpelled source word k_entries
match_keywords-identifier_example = match_keywords-identifier source word

strip_skippable_tokens-without_trivia_example :
    strip_skippable_tokens (record { type = TokenType.whitespace; pos = word } ∷ []) ≡ ok []
strip_skippable_tokens-without_trivia_example =
    strip_skippable_tokens-without_trivia (record { type = TokenType.whitespace; pos = word } ∷ [])

bin_op-classes_example :
    (info : TokenTypeInfo) × (from_token_type TokenType.assg ≡ ok info)
    × (classes TokenType.assg ≡ (
        if is_bin_op info
          && not (
              index TokenType.assg == index TokenType.assg
              || index TokenType.assg == index TokenType.k_instanceof)
        then 1
        else 0))
bin_op-classes_example = bin_op-classes TokenType.assg

get_elem?-Memᴰ :
    (xs : List TokenTypeInfo) (i : ℕ) {x : TokenTypeInfo} → get_elem? xs i ≡ some x → Memᴰ x xs
get_elem?-Memᴰ [] i h = cc
get_elem?-Memᴰ (y ∷ ys) zero h = Memᴰ.head (sym (some_injective h))
get_elem?-Memᴰ (y ∷ ys) (suc i) h = Memᴰ.tail (get_elem?-Memᴰ ys i h)

abbrev if_info : TokenTypeInfo
if_info = record {
  type = TokenType.k_if;
  kind = 3;
  precedence = none;
  modifier = none;
  value = codes "if";
}

if_info-Memᴰ : Memᴰ if_info k_entries
unfolding k_entries
if_info-Memᴰ = get_elem?-Memᴰ k_entries 38 refl

match_keywords-keyword_example :
    (match_keywords source word ≡ TokenType.k_if)
    ↔ (pos_range_string_matches source word (codes "if") ≡ true)
match_keywords-keyword_example = match_keywords-keyword source word if_info if_info-Memᴰ refl

abbrev le_info : TokenTypeInfo
le_info = record {
  type = TokenType.le;
  kind = 69;
  precedence = some 7;
  modifier = none;
  value = codes "<=";
}

abbrev at_le : LexState
at_le = initial (codes "<=1") 0

at_le-symbol : match_symbol_in k_entries at_le ≡ some le_info
unfolding match_symbol_in k_entries has_prefix matches_at
at_le-symbol = refl

match_symbol_in-longest_example :
    ((info : TokenTypeInfo) × (match_symbol_in k_entries at_le ≡ some info)
      × SymbolAt at_le.file at_le.end info
      × ((other : TokenTypeInfo)
          → SymbolAt at_le.file at_le.end other
          → length other.value ≤ length info.value))
    ⊎ ((match_symbol_in k_entries at_le ≡ none)
        × ((other : TokenTypeInfo) → ¬ (SymbolAt at_le.file at_le.end other)))
match_symbol_in-longest_example = match_symbol_in-longest at_le

-- The body of the literal "a\n".
abbrev body : File
body = codes "a\\n"

n_escapes : is_string_escapable b'n' ≡ true
unfolding is_string_escapable is_octal
n_escapes = refl

n_no_octal : is_octal b'n' ≡ false
unfolding is_octal
n_no_octal = refl

body_items : StringItems body 0 (length body)
body_items =
    StringItems.item {m = 1}
      (StringItem.plain {c = b'a'} refl (omega arith) (omega arith) (omega arith))
      (StringItems.item {m = 3}
        (StringItem.escape (Escape.single {c = b'n'} refl refl n_escapes n_no_octal))
        StringItems.end)

convert_string_escapes-Values_example :
    (out : List ℕ) × (convert_string_escapes body ≡ ok out) × Values body_items out
convert_string_escapes-Values_example = convert_string_escapes-Values body body_items

-- The body "\777".
abbrev sevens : File
sevens = codes "\\777"

seven_octal : is_octal b'7' ≡ true
unfolding is_octal
seven_octal = refl

-- The cursor stands at the backslash.
abbrev at_sevens : LexState
at_sevens = initial sevens 0

convert_char_escape_overflow_example :
    (advance_escaped_char (move at_sevens 0) ≡ ok (move at_sevens 3, true))
    × (convert_char_escape sevens 0 ≡ ok (511, 3))
convert_char_escape_overflow_example =
    convert_char_escape_overflow at_sevens 0 b'7' b'7' b'7' refl refl refl refl seven_octal
      seven_octal seven_octal (omega arith)
