-- ===== src/Lexer/TokenType.antt =====
-- lexer/lexer.h, lexer/lexer.cpp: token types and the table `kEntries` that describes them.
-- `MOD` is spelled `modulo`, since `mod` is a reserved word. A `Kind` is its bit pattern. The
-- enumerator's spelling `repr_`, which only diagnostics print, is left out. The precedence -1 and
-- the modifier `NUM_MODIFIERS`, which mean that there is none, are `none`.
mod Kind
use joosc.Common.{
  ℕ, ◌+◌, ◌≡◌, refl, Bool, true, false, Option, none, some, List, [], ◌∷◌, bit_and, bit_or, ◌==◌,
  codes, get_elem?, Outcome, ok, thrown, Exn, check, ◌>>=◌, ◌>>◌, String,
}

pub data TokenType : Type 0 where
  line_comment block_comment whitespace le ge eq neq and or incr decr add sub mul div : TokenType
  modulo lt gt band bor xor not assg lparen rparen lbrace rbrace lbrack rbrack semi comma :
      TokenType
  dot integer identifier char string k_abstract k_default k_if k_private k_this k_bool : TokenType
  k_do k_implements k_protected k_throw k_break k_double k_import k_public k_throws : TokenType
  k_byte k_else k_instanceof k_return k_transient k_case k_extends k_int k_short k_try : TokenType
  k_catch k_final k_interface k_static k_void k_char k_finally k_long k_strictfp : TokenType
  k_volatile k_class k_float k_native k_super k_while k_const k_for k_new k_switch : TokenType
  k_continue k_goto k_package k_synchronized k_true k_false k_null : TokenType

-- The enumerator's value.
unfoldable pub index : TokenType → ℕ
index line_comment = 0
index block_comment = 1
index whitespace = 2
index le = 3
index ge = 4
index eq = 5
index neq = 6
index and = 7
index or = 8
index incr = 9
index decr = 10
index add = 11
index sub = 12
index mul = 13
index div = 14
index modulo = 15
index lt = 16
index gt = 17
index band = 18
index bor = 19
index xor = 20
index not = 21
index assg = 22
index lparen = 23
index rparen = 24
index lbrace = 25
index rbrace = 26
index lbrack = 27
index rbrack = 28
index semi = 29
index comma = 30
index dot = 31
index integer = 32
index identifier = 33
index char = 34
index string = 35
index k_abstract = 36
index k_default = 37
index k_if = 38
index k_private = 39
index k_this = 40
index k_bool = 41
index k_do = 42
index k_implements = 43
index k_protected = 44
index k_throw = 45
index k_break = 46
index k_double = 47
index k_import = 48
index k_public = 49
index k_throws = 50
index k_byte = 51
index k_else = 52
index k_instanceof = 53
index k_return = 54
index k_transient = 55
index k_case = 56
index k_extends = 57
index k_int = 58
index k_short = 59
index k_try = 60
index k_catch = 61
index k_final = 62
index k_interface = 63
index k_static = 64
index k_void = 65
index k_char = 66
index k_finally = 67
index k_long = 68
index k_strictfp = 69
index k_volatile = 70
index k_class = 71
index k_float = 72
index k_native = 73
index k_super = 74
index k_while = 75
index k_const = 76
index k_for = 77
index k_new = 78
index k_switch = 79
index k_continue = 80
index k_goto = 81
index k_package = 82
index k_synchronized = 83
index k_true = 84
index k_false = 85
index k_null = 86

pub data Modifier : Type 0 where
  public protected abstract static final native : Modifier

pub record TokenTypeInfo : Type 0 where
  pub type : TokenType
  pub kind : ℕ
  pub precedence : Option ℕ
  pub modifier : Option Modifier
  pub value : List ℕ

abbrev with_kind : TokenTypeInfo → ℕ → TokenTypeInfo
with_kind t k = record t { kind = bit_or t.kind k }

abbrev new : TokenType → String → TokenTypeInfo
new type value = record {
  type = type;
  kind = Kind.supported;
  precedence = none;
  modifier = none;
  value = codes value;
}

abbrev keyword : TokenTypeInfo → TokenTypeInfo
keyword t = with_kind t Kind.keyword

abbrev bin_op : ℕ → TokenTypeInfo → TokenTypeInfo
bin_op prec t =
    let ret = with_kind (with_kind t Kind.bin_op) Kind.symbol in
    record ret { precedence = some prec }

abbrev unary_op : TokenTypeInfo → TokenTypeInfo
unary_op t = with_kind (with_kind t Kind.unary_op) Kind.symbol

-- `kind_ & ~SUPPORTED`, in 32 bits.
abbrev unsupported : TokenTypeInfo → TokenTypeInfo
unsupported t = record t { kind = bit_and t.kind 0xffff_fffe }

abbrev symbol : TokenTypeInfo → TokenTypeInfo
symbol t = with_kind t Kind.symbol

abbrev primitive : TokenTypeInfo → TokenTypeInfo
primitive t = with_kind t Kind.primitive

abbrev literal : TokenTypeInfo → TokenTypeInfo
literal t = with_kind t Kind.literal

abbrev skippable : TokenTypeInfo → TokenTypeInfo
skippable t = with_kind t Kind.skippable

abbrev make_modifier : Modifier → TokenTypeInfo → TokenTypeInfo
make_modifier m t = let ret = with_kind t Kind.modifier in record ret { modifier = some m }

-- `(kind_ & K) == K`.
abbrev has_kind : ℕ → TokenTypeInfo → Bool
has_kind k t = bit_and t.kind k == k

abbrev pub is_supported : TokenTypeInfo → Bool
is_supported = has_kind Kind.supported

abbrev pub is_keyword : TokenTypeInfo → Bool
is_keyword = has_kind Kind.keyword

abbrev pub is_bin_op : TokenTypeInfo → Bool
is_bin_op = has_kind Kind.bin_op

abbrev pub is_unary_op : TokenTypeInfo → Bool
is_unary_op = has_kind Kind.unary_op

abbrev pub is_primitive : TokenTypeInfo → Bool
is_primitive = has_kind Kind.primitive

abbrev pub is_literal : TokenTypeInfo → Bool
is_literal = has_kind Kind.literal

abbrev pub is_symbol : TokenTypeInfo → Bool
is_symbol = has_kind Kind.symbol

abbrev pub is_skippable : TokenTypeInfo → Bool
is_skippable = has_kind Kind.skippable

abbrev pub is_modifier : TokenTypeInfo → Bool
is_modifier = has_kind Kind.modifier

unfoldable pub k_entries : List TokenTypeInfo
k_entries =
    (skippable (new line_comment "LINE_COMMENT"))
    ∷ (skippable (new block_comment "BLOCK_COMMENT"))
    ∷ (skippable (new whitespace "WHITESPACE"))
    ∷ (bin_op 7 (new le "<="))
    ∷ (bin_op 7 (new ge ">="))
    ∷ (bin_op 6 (new eq "=="))
    ∷ (bin_op 6 (new neq "!="))
    ∷ (bin_op 2 (new and "&&"))
    ∷ (bin_op 1 (new or "||"))
    ∷ (unsupported (unary_op (new incr "++")))
    ∷ (unsupported (unary_op (new decr "--")))
    ∷ (bin_op 8 (new add "+"))
    ∷ (unary_op (bin_op 8 (new sub "-")))
    ∷ (bin_op 9 (new mul "*"))
    ∷ (bin_op 9 (new div "/"))
    ∷ (bin_op 9 (new modulo "%"))
    ∷ (bin_op 7 (new lt "<"))
    ∷ (bin_op 7 (new gt ">"))
    ∷ (bin_op 5 (new band "&"))
    ∷ (bin_op 3 (new bor "|"))
    ∷ (bin_op 4 (new xor "^"))
    ∷ (unary_op (new not "!"))
    ∷ (bin_op 0 (new assg "="))
    ∷ (symbol (new lparen "("))
    ∷ (symbol (new rparen ")"))
    ∷ (symbol (new lbrace "{"))
    ∷ (symbol (new rbrace "}"))
    ∷ (symbol (new lbrack "["))
    ∷ (symbol (new rbrack "]"))
    ∷ (symbol (new semi ";"))
    ∷ (symbol (new comma ","))
    ∷ (symbol (new dot "."))
    ∷ (literal (new integer "INTEGER"))
    ∷ (new identifier "IDENTIFIER")
    ∷ (literal (new char "CHAR"))
    ∷ (literal (new string "STRING"))
    ∷ (make_modifier abstract (keyword (new k_abstract "abstract")))
    ∷ (unsupported (keyword (new k_default "default")))
    ∷ (keyword (new k_if "if"))
    ∷ (unsupported (keyword (new k_private "private")))
    ∷ (keyword (new k_this "this"))
    ∷ (primitive (keyword (new k_bool "boolean")))
    ∷ (unsupported (keyword (new k_do "do")))
    ∷ (keyword (new k_implements "implements"))
    ∷ (make_modifier protected (keyword (new k_protected "protected")))
    ∷ (unsupported (keyword (new k_throw "throw")))
    ∷ (unsupported (keyword (new k_break "break")))
    ∷ (unsupported (keyword (new k_double "double")))
    ∷ (keyword (new k_import "import"))
    ∷ (make_modifier public (keyword (new k_public "public")))
    ∷ (unsupported (keyword (new k_throws "throws")))
    ∷ (primitive (keyword (new k_byte "byte")))
    ∷ (keyword (new k_else "else"))
    ∷ (bin_op 7 (keyword (new k_instanceof "instanceof")))
    ∷ (keyword (new k_return "return"))
    ∷ (unsupported (keyword (new k_transient "transient")))
    ∷ (unsupported (keyword (new k_case "case")))
    ∷ (keyword (new k_extends "extends"))
    ∷ (primitive (keyword (new k_int "int")))
    ∷ (primitive (keyword (new k_short "short")))
    ∷ (unsupported (keyword (new k_try "try")))
    ∷ (unsupported (keyword (new k_catch "catch")))
    ∷ (make_modifier final (keyword (new k_final "final")))
    ∷ (keyword (new k_interface "interface"))
    ∷ (make_modifier static (keyword (new k_static "static")))
    ∷ (primitive (keyword (new k_void "void")))
    ∷ (primitive (keyword (new k_char "char")))
    ∷ (unsupported (keyword (new k_finally "finally")))
    ∷ (unsupported (keyword (new k_long "long")))
    ∷ (unsupported (keyword (new k_strictfp "strictfp")))
    ∷ (unsupported (keyword (new k_volatile "volatile")))
    ∷ (keyword (new k_class "class"))
    ∷ (keyword (new k_float "float"))
    ∷ (make_modifier native (keyword (new k_native "native")))
    ∷ (unsupported (keyword (new k_super "super")))
    ∷ (keyword (new k_while "while"))
    ∷ (unsupported (keyword (new k_const "const")))
    ∷ (keyword (new k_for "for"))
    ∷ (keyword (new k_new "new"))
    ∷ (unsupported (keyword (new k_switch "switch")))
    ∷ (unsupported (keyword (new k_continue "continue")))
    ∷ (unsupported (keyword (new k_goto "goto")))
    ∷ (keyword (new k_package "package"))
    ∷ (unsupported (keyword (new k_synchronized "synchronized")))
    ∷ (literal (keyword (new k_true "true")))
    ∷ (literal (keyword (new k_false "false")))
    ∷ (literal (keyword (new k_null "null")))
    ∷ []

-- `FromTokenType`: the entry at the enumerator's value.
unfoldable pub from_token_type : TokenType → Outcome TokenTypeInfo
unfolding index k_entries
from_token_type t = elim (get_elem? k_entries (index t)) [
  | some info ↦ ok info
  | none ↦ thrown Exn.check_failed
]

-- `BinOpPrec` and `GetModifier`.
unfoldable pub bin_op_prec : TokenTypeInfo → Outcome (Option ℕ)
bin_op_prec t = do check (is_bin_op t); ok t.precedence

unfoldable pub get_modifier : TokenTypeInfo → Outcome (Option Modifier)
get_modifier t = do check (is_modifier t); ok t.modifier
