-- ===== src/Lexer/Starting.antt =====
-- lexer/lexer.cpp: the state function `Start`, which stops, emits a symbol, reports a byte, or chooses
-- a state function, and what the chosen one needs at the cursor.
use joosc.Common.{
  ◌∙◌, false, List, ◌≢◌, ℕ, suc, ◌+◌, ◌≤◌, ◌<◌, ◌≡◌, refl, sym, subst, inl, inr, true, not, ◌||◌,
  some, none, [], ◌∷◌, length, ◌==◌, get_elem?, Bool-cases, Option-cases, ltb, arith, Outcome, ok,
  lt→ltb, ==_iff, ltb→lt, codes, Option, all, all-mem,
}
use mathlib.Core.List.{Memᴰ}
use joosc.Base.{File, pos_range}
use joosc.Lexer.Chars.{is_whitespace, is_numeric, is_valid_identifier_start_char}
use joosc.Lexer.Lexeme.{HasAt, ByteAt, starts_no_word, Fault, Lexeme, NoComment, StandsAt}
use joosc.Lexer.Comments.{Opens}
use joosc.Lexer.Loops.{move, not-at_end, at_end, advance-ok, peek-ok, get_elem?_lt, cursor-cases}
use joosc.Lexer.Scan.{Done, Done-fail, from_begin, emit_at}
use joosc.Lexer.State.{
  LexState, LexError, StateFn, start, integer, whitespace, block_comment, line_comment, identifier,
  char, string, has_prefix, matches_at, set_next_state, emit_token,
}
use joosc.Lexer.Step.{start_fn, start_char, start_symbol, match_symbol_in}
use joosc.Lexer.Symbols.{
  StandsAt-has_prefix, StandsAt-fits, has_prefix-matches, match_symbol_in-longest,
}
use joosc.Lexer.TokenType.{TokenType, TokenTypeInfo, k_entries, is_symbol}

-- What a state function needs at the cursor.
abbrev pub Ready : StateFn → LexState → Type 0
Ready start s = Unit
Ready integer s = HasAt is_numeric s.file s.begin
Ready whitespace s = HasAt is_whitespace s.file s.begin
Ready block_comment s = Opens b'*' s
Ready line_comment s = Opens b'/' s
Ready identifier s = HasAt is_valid_identifier_start_char s.file s.begin
Ready char s = ByteAt b'\'' s.file s.begin
Ready string s = ByteAt b'"' s.file s.begin

abbrev pub choose : LexState → Option StateFn → LexState
choose s fn = record s { end = s.begin; state_fn = fn }

pub data Started (s : LexState) : Outcome LexState → Type 0 where
  stopped : s.begin ≡ length s.file → Started s (ok (choose s none))
  chosen : (fn : StateFn) → fn ≢ start → Ready fn s → Started s (ok (choose s (some fn)))
  done : {o : Outcome LexState} → Done s o → Started s o

==_refl : (a : ℕ) → (a == a) ≡ true
==_refl a = ground arith

matches_at-two :
    (file : File) (i c d : ℕ)
    → matches_at file i (c ∷ d ∷ []) ≡ true
    → ByteAt c file i × ByteAt d file (i + 1)
unfolding matches_at
matches_at-two file i c d h = elim (Option-cases (get_elem? file i)) [
  | inl past ↦ ground arith
  | inr (x, first) ↦ elim (Option-cases (get_elem? file (suc i))) [
    | inl past ↦ ground arith
    | inr (y, second) ↦ ground arith
  ]
]

-- Every symbol of the table has a spelling.
symbols_spelled : all (λ info. not (is_symbol info) || ltb 0 (length info.value)) k_entries ≡ true
unfolding k_entries
symbols_spelled = refl

symbol_spelled :
    (info : TokenTypeInfo) → Memᴰ info k_entries → is_symbol info ≡ true → 0 < length info.value
symbol_spelled info m h =
    let test =
      all-mem (λ (i : TokenTypeInfo). not (is_symbol i) || ltb 0 (length i.value)) k_entries
        symbols_spelled m in
    let spelled : ltb 0 (length info.value) ≡ true = rw h at test in
    ltb→lt 0 (length info.value) spelled

Done-emit :
    (s : LexState) (tok : TokenType) (e : ℕ)
    → s.state_fn ≡ some start
    → s.begin < e
    → e ≤ length s.file
    → Lexeme s.file s.begin tok e
    → Done s (emit_token tok (move s e))
unfolding emit_token
Done-emit s tok e fn h k l = rw (lt→ltb s.begin e h) (
    subst (λ (f : Option StateFn). Done s (ok (record (emit_at s tok e) { state_fn = f }))) (sym fn)
      (Done.emitted tok e h k l))

not_prefix :
    (text : List ℕ) (s : LexState) → has_prefix text s ≡ false → ¬ (StandsAt text s.file s.end)
not_prefix text s differs stands =
    let clash : true ≡ false = sym (StandsAt-has_prefix text s stands) ∙ differs in cc

start_symbol-Done :
    (s : LexState)
    → HasAt starts_no_word s.file s.begin
    → NoComment s.file s.begin
    → s.state_fn ≡ some start
    → Done s (start_symbol (match_symbol_in k_entries (from_begin s)) (from_begin s))
unfolding start_symbol emit_token
start_symbol-Done s no_word no_comment fn =
    let lt = get_elem?_lt s.file s.begin no_word.1 in
    elim (match_symbol_in-longest (from_begin s)) [
      | inr (missing, no_symbol) ↦ rw missing (
          Done-fail s (LexError.unexpected_char_error (pos_range s.fileid s.begin)) s.begin
            (omega arith) (Fault.unexpected no_word no_symbol))
      | inl (info, found, (m, symbol, stands), longest) ↦
          let spelled = symbol_spelled info m symbol in
          let fits = StandsAt-fits info.value s.file s.begin stands in
          rw (found, advance-ok (length info.value) s s.begin lt)
            (Done-emit s info.type (s.begin + length info.value) fn (omega arith) (omega arith)
              (Lexeme.symbol info (m, symbol, stands) no_comment longest))
    ]

start_char-Started :
    (s : LexState) (c : ℕ)
    → ByteAt c s.file s.begin
    → NoComment s.file s.begin
    → s.state_fn ≡ some start
    → Started s (start_char c (from_begin s))
unfolding start_char set_next_state
start_char-Started s c byte no_comment fn = elim (Bool-cases (c == b'\'')) [
  | inl quote ↦ rw quote (chosen char (λ q. cc) (rw (← (==_iff c b'\'').0 quote) byte))
  | inr not_char ↦ elim (Bool-cases (c == b'"')) [
    | inl quote ↦
        rw (not_char, quote) (chosen string (λ q. cc) (rw (← (==_iff c b'"').0 quote) byte))
    | inr not_string ↦ elim (Bool-cases (is_whitespace c)) [
      | inl space ↦ rw (not_char, not_string, space) (chosen whitespace (λ q. cc) (c, byte, space))
      | inr not_space ↦ elim (Bool-cases (is_numeric c)) [
        | inl digit ↦
            rw (not_char, not_string, not_space, digit) (chosen integer (λ q. cc) (c, byte, digit))
        | inr not_digit ↦ elim (Bool-cases (is_valid_identifier_start_char c)) [
          | inl letter ↦
              rw (not_char, not_string, not_space, not_digit, letter)
                (chosen identifier (λ q. cc) (c, byte, letter))
          | inr other ↦
              rw (not_char, not_string, not_space, not_digit, other)
                (done (start_symbol-Done s (c, byte, ground arith) no_comment fn))
        ]
      ]
    ]
  ]
]

pub start_fn-Started :
    (s : LexState)
    → s.begin ≤ length s.file
    → s.state_fn ≡ some start
    → Started s (start_fn (from_begin s))
unfolding start_fn set_next_state
start_fn-Started s le fn = rw (==_refl s.begin) (elim (cursor-cases s.file s.begin) [
  | inl past ↦ rw (at_end s s.begin past) (stopped (omega arith))
  | inr (c, byte, lt) ↦ elim (Bool-cases (has_prefix (codes "//") (from_begin s))) [
    | inl line ↦
        rw (not-at_end s s.begin lt, line)
          (chosen line_comment (λ q. cc)
            (matches_at-two s.file s.begin b'/' b'/'
              (has_prefix-matches (codes "//") (from_begin s) line).0))
    | inr not_line ↦ elim (Bool-cases (has_prefix (codes "/*") (from_begin s))) [
      | inl block ↦
          rw (not-at_end s s.begin lt, not_line, block)
            (chosen block_comment (λ q. cc)
              (matches_at-two s.file s.begin b'/' b'*'
                (has_prefix-matches (codes "/*") (from_begin s) block).0))
      | inr not_block ↦
          rw (not-at_end s s.begin lt, not_line, not_block, peek-ok s s.begin byte)
            (start_char-Started s c byte
              (
                not_prefix (codes "//") (from_begin s) not_line,
                not_prefix (codes "/*") (from_begin s) not_block,
              )
              fn)
    ]
  ]
])
