-- ===== src/Lexer/Lexeme.antt =====
-- What each kind of token looks like in a file, told by positions and apart from the lexer's loops.
use mathlib.Core.List.{Memᴰ}
use joosc.Common.{
  ℕ, ◌+◌, ◌*◌, ◌≤◌, ◌<◌, ◌≡◌, ◌≢◌, Bool, true, false, not, ◌&&◌, ◌||◌, ◌⊎◌, List, [], ◌∷◌, some,
  length, get_elem?, codes, ◌==◌, ltb, suc, ◌-◌,
}
use joosc.Base.{File, pos_range}
use joosc.Lexer.Chars.{
  is_whitespace, is_numeric, is_octal, is_valid_identifier_start_char, is_valid_identifier_char,
  is_string_escapable,
}
use joosc.Lexer.State.{Token, LexError}
use joosc.Lexer.Step.{match_keywords}
use joosc.Lexer.TokenType.{TokenType, TokenTypeInfo, k_entries, is_symbol}

abbrev pub HasAt : (ℕ → Bool) → File → ℕ → Type 0
HasAt p file i = (c : ℕ) × (get_elem? file i ≡ some c) × (p c ≡ true)

abbrev pub AllIn : (ℕ → Bool) → File → ℕ → ℕ → Type 0
AllIn p file b e = (i : ℕ) → b ≤ i → i < e → HasAt p file i

-- The byte at `e`, if there is one, does not belong to the token.
abbrev pub StopsAt : (ℕ → Bool) → File → ℕ → Type 0
StopsAt p file e = (c : ℕ) → get_elem? file e ≡ some c → p c ≡ false

abbrev pub ByteAt : ℕ → File → ℕ → Type 0
ByteAt c file i = get_elem? file i ≡ some c

abbrev pub not_newline : ℕ → Bool
not_newline c = not (c == b'\n')

-- The digit `c` goes on an escape whose digits have the value `n` so far.
abbrev pub fits_octal : ℕ → ℕ → Bool
fits_octal n c = is_octal c && not (ltb 255 (n * 8 + (c - b'0')))

-- The octal digits from `b` to `e`, at most `rounds` of them and no fewer than fit, and the number
-- that they go on to from `n`.
pub data Octal (file : File) : ℕ → ℕ → ℕ → ℕ → ℕ → Type 0 where
  full : {b n : ℕ} → Octal file 0 b n b n
  stop : {rounds b n : ℕ} → StopsAt (fits_octal n) file b → Octal file rounds b n b n
  digit :
      {rounds b n e m c : ℕ}
      → ByteAt c file b
      → fits_octal n c ≡ true
      → Octal file rounds (b + 1) (n * 8 + (c - b'0')) e m
      → Octal file (suc rounds) b n e m

-- A backslash and what it escapes: one byte, or one to three octal digits of at most 255.
pub data Escape (file : File) (b : ℕ) : ℕ → Type 0 where
  single :
      {c : ℕ}
      → ByteAt b'\\' file b
      → ByteAt c file (b + 1)
      → is_string_escapable c ≡ true
      → is_octal c ≡ false
      → Escape file b (b + 2)
  octal :
      {e m : ℕ}
      → ByteAt b'\\' file b
      → b + 2 ≤ e
      → e ≤ b + 4
      → Octal file 3 (b + 1) 0 e m
      → Escape file b e

-- One character of a string literal.
pub data StringItem (file : File) (b : ℕ) : ℕ → Type 0 where
  plain : {c : ℕ} → ByteAt c file b → c ≢ b'\n' → c ≢ b'"' → c ≢ b'\\' → StringItem file b (b + 1)
  escape : {e : ℕ} → Escape file b e → StringItem file b e

pub data StringItems (file : File) : ℕ → ℕ → Type 0 where
  end : {b : ℕ} → StringItems file b b
  item : {b m e : ℕ} → StringItem file b m → StringItems file m e → StringItems file b e

pub data CharItem (file : File) (b : ℕ) : ℕ → Type 0 where
  plain : {c : ℕ} → ByteAt c file b → c ≢ b'\n' → c ≢ b'\'' → c ≢ b'\\' → CharItem file b (b + 1)
  escape : {e : ℕ} → Escape file b e → CharItem file b e

-- No `*/` stands between `b` and `e`.
abbrev pub NoClose : File → ℕ → ℕ → Type 0
NoClose file b e = (i : ℕ) → b ≤ i → i + 2 ≤ e → ByteAt b'*' file i → ByteAt b'/' file (i + 1) → ⊥

-- The spelling stands in the file from `i` on, byte for byte.
abbrev pub StandsAt : List ℕ → File → ℕ → Type 0
StandsAt text file i = (j c : ℕ) → get_elem? text j ≡ some c → get_elem? file (i + j) ≡ some c

-- An entry of the table is a symbol, and its spelling stands in the file from `i` on.
abbrev pub SymbolAt : File → ℕ → TokenTypeInfo → Type 0
SymbolAt file i info = Memᴰ info k_entries × (is_symbol info ≡ true) × StandsAt info.value file i

-- No comment opens at `i`.
abbrev pub NoComment : File → ℕ → Type 0
NoComment file i = ¬ (StandsAt (codes "//") file i) × ¬ (StandsAt (codes "/*") file i)

pub data Lexeme (file : File) (b : ℕ) : TokenType → ℕ → Type 0 where
  whitespace :
      {e : ℕ}
      → AllIn is_whitespace file b e
      → StopsAt is_whitespace file e
      → Lexeme file b TokenType.whitespace e
  integer :
      {e : ℕ}
      → AllIn is_numeric file b e
      → StopsAt is_numeric file e
      → (ByteAt b'0' file b → e ≡ b + 1)
      → Lexeme file b TokenType.integer e
  word :
      {e : ℕ} (fileid : ℕ)
      → HasAt is_valid_identifier_start_char file b
      → AllIn is_valid_identifier_char file (b + 1) e
      → StopsAt is_valid_identifier_char file e
      → Lexeme file b (match_keywords file (record { fileid = fileid; begin = b; end = e })) e
  symbol :
      (info : TokenTypeInfo)
      → SymbolAt file b info
      → NoComment file b
      → ((other : TokenTypeInfo) → SymbolAt file b other → length other.value ≤ length info.value)
      → Lexeme file b info.type (b + length info.value)
  line_comment :
      {e : ℕ}
      → ByteAt b'/' file b
      → ByteAt b'/' file (b + 1)
      → AllIn not_newline file (b + 2) e
      → ByteAt b'\n' file e
      → Lexeme file b TokenType.line_comment (e + 1)
  last_line_comment :
      {e : ℕ}
      → ByteAt b'/' file b
      → ByteAt b'/' file (b + 1)
      → AllIn not_newline file (b + 2) e
      → e ≡ length file
      → Lexeme file b TokenType.line_comment e
  block_comment :
      {m e : ℕ}
      → ByteAt b'/' file b
      → ByteAt b'*' file (b + 1)
      → b + 2 ≤ m
      → ByteAt b'*' file m
      → ByteAt b'/' file (m + 1)
      → NoClose file (b + 2) (m + 1)
      → e ≡ m + 2
      → Lexeme file b TokenType.block_comment e
  char :
      {e : ℕ}
      → ByteAt b'\'' file b
      → CharItem file (b + 1) e
      → ByteAt b'\'' file e
      → Lexeme file b TokenType.char (e + 1)
  string :
      {e : ℕ}
      → ByteAt b'"' file b
      → StringItems file (b + 1) e
      → ByteAt b'"' file e
      → Lexeme file b TokenType.string (e + 1)

-- The tokens stand side by side from `b` to `e`, each a lexeme of its type.
abbrev pub Chain : File → ℕ → ℕ → List Token → ℕ → Type 0
Chain file fileid b [] e = b ≡ e
Chain file fileid b (t ∷ ts) e =
    (t.pos.fileid ≡ fileid)
    × (t.pos.begin ≡ b)
    × (b < t.pos.end)
    × Lexeme file b t.type t.pos.end
    × Chain file fileid t.pos.end ts e

-- A backslash with nothing behind it, or with a byte that is not to be escaped.
pub data BadEscape (file : File) (b : ℕ) : Type 0 where
  cut : ByteAt b'\\' file b → length file ≤ b + 1 → BadEscape file b
  unknown :
      {c : ℕ}
      → ByteAt b'\\' file b
      → ByteAt c file (b + 1)
      → is_string_escapable c ≡ false
      → BadEscape file b

-- The lexer does not take the byte for the start of a token other than a symbol.
abbrev pub starts_no_word : ℕ → Bool
starts_no_word c =
    not (c == b'\'')
    && not (c == b'"')
    && not (is_whitespace c)
    && not (is_numeric c)
    && not (is_valid_identifier_start_char c)

-- What stands in a file from `b` on where an error is reported, and where the error is placed.
pub data Fault (file : File) (fileid b : ℕ) : LexError → Type 0 where
  leading_zero :
      ByteAt b'0' file b
      → HasAt is_numeric file (b + 1)
      → Fault file fileid b (LexError.leading_zero_in_int_lit_error (pos_range fileid b))
  unclosed_comment :
      ByteAt b'/' file b
      → ByteAt b'*' file (b + 1)
      → NoClose file (b + 2) (length file)
      → Fault file fileid b (
          LexError.unclosed_block_comment_error
            (record { fileid = fileid; begin = b; end = b + 2 }))
  unclosed_string :
      {e : ℕ}
      → ByteAt b'"' file b
      → StringItems file (b + 1) e
      → (length file ≤ e) ⊎ ByteAt b'\n' file e
      → Fault file fileid b (LexError.unclosed_string_lit_error (pos_range fileid b))
  escape_in_string :
      {e : ℕ}
      → ByteAt b'"' file b
      → StringItems file (b + 1) e
      → BadEscape file e
      → Fault file fileid b (
          LexError.invalid_character_escape_error
            (record { fileid = fileid; begin = e; end = e + 1 }))
  escape_in_char :
      ByteAt b'\'' file b
      → BadEscape file (b + 1)
      → Fault file fileid b (
          LexError.invalid_character_escape_error
            (record { fileid = fileid; begin = b; end = b + 1 + 1 }))
  no_char :
      ByteAt b'\'' file b
      → (length file ≤ b + 1) ⊎ HasAt (λ c. c == b'\'' || c == b'\n') file (b + 1)
      → Fault file fileid b (
          LexError.invalid_character_lit_error (record { fileid = fileid; begin = b; end = b + 1 }))
  unclosed_char :
      {e : ℕ}
      → ByteAt b'\'' file b
      → CharItem file (b + 1) e
      → StopsAt (◌==◌ b'\'') file e
      → Fault file fileid b
          (LexError.invalid_character_lit_error (record { fileid = fileid; begin = b; end = e }))
  unexpected :
      HasAt starts_no_word file b
      → ((info : TokenTypeInfo) → ¬ (SymbolAt file b info))
      → Fault file fileid b (LexError.unexpected_char_error (pos_range fileid b))
