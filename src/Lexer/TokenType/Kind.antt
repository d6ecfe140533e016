-- ===== src/Lexer/TokenType/Kind.antt =====
-- lexer/lexer.h: `enum Kind`, one bit each.
use joosc.Common.{ℕ}

abbrev pub supported : ℕ
supported = 1

abbrev pub keyword : ℕ
keyword = 2

abbrev pub bin_op : ℕ
bin_op = 4

abbrev pub unary_op : ℕ
unary_op = 8

abbrev pub primitive : ℕ
primitive = 16

abbrev pub literal : ℕ
literal = 32

abbrev pub symbol : ℕ
symbol = 64

abbrev pub skippable : ℕ
skippable = 128

abbrev pub modifier : ℕ
modifier = 256
