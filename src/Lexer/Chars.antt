-- ===== src/Lexer/Chars.antt =====
-- lexer/lexer.cpp: the tests on single bytes.
use joosc.Common.{ℕ, Bool, ◌&&◌, ◌||◌, leb, ◌==◌}

unfoldable pub is_whitespace : ℕ → Bool
is_whitespace c = c == b' ' || c == b'\n' || c == b'\r' || c == b'\t'

unfoldable pub is_numeric : ℕ → Bool
is_numeric c = leb b'0' c && leb c b'9'

unfoldable pub is_octal : ℕ → Bool
is_octal c = leb b'0' c && leb c b'7'

unfoldable pub is_alpha : ℕ → Bool
is_alpha c = leb b'a' c && leb c b'z' || leb b'A' c && leb c b'Z'

unfoldable pub is_alpha_numeric : ℕ → Bool
unfolding is_alpha is_numeric
is_alpha_numeric c = is_alpha c || is_numeric c

unfoldable pub is_valid_identifier_start_char : ℕ → Bool
unfolding is_alpha
is_valid_identifier_start_char c = is_alpha c || c == b'_' || c == b'$'

unfoldable pub is_valid_identifier_char : ℕ → Bool
unfolding is_valid_identifier_start_char is_numeric
is_valid_identifier_char c = is_valid_identifier_start_char c || is_numeric c

unfoldable pub is_string_escapable : ℕ → Bool
unfolding is_octal
is_string_escapable c =
    c == b'b'
    || c == b't'
    || c == b'n'
    || c == b'f'
    || c == b'r'
    || c == b'\''
    || c == b'"'
    || c == b'\\'
    || is_octal c
