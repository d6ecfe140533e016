-- ===== src/Lexer/Operators.antt =====
-- lexer/lexer.cpp: `IsBoolOp`, `IsRelationalOp`, `IsEqualityOp` and `IsNumericOp`, beside the table.
use joosc.Common.{◌+◌, ℕ, ◌≡◌, refl, Bool, true, false, not, ◌&&◌, ◌||◌, ◌==◌, if◌then◌else◌, ok}
use joosc.Lexer.TokenType.{TokenType, TokenTypeInfo, index, is_bin_op, from_token_type}

unfoldable pub is_bool_op : TokenType → Bool
is_bool_op TokenType.band = true
is_bool_op TokenType.bor = true
is_bool_op TokenType.and = true
is_bool_op TokenType.or = true
is_bool_op TokenType.xor = true
is_bool_op _ = false

unfoldable pub is_relational_op : TokenType → Bool
is_relational_op TokenType.le = true
is_relational_op TokenType.ge = true
is_relational_op TokenType.lt = true
is_relational_op TokenType.gt = true
is_relational_op _ = false

unfoldable pub is_equality_op : TokenType → Bool
is_equality_op TokenType.eq = true
is_equality_op TokenType.neq = true
is_equality_op _ = false

unfoldable pub is_numeric_op : TokenType → Bool
is_numeric_op TokenType.add = true
is_numeric_op TokenType.sub = true
is_numeric_op TokenType.mul = true
is_numeric_op TokenType.div = true
is_numeric_op TokenType.modulo = true
is_numeric_op _ = false

abbrev count : Bool → ℕ
count b = if b then 1 else 0

-- How many of the four tests accept a token type.
abbrev pub classes : TokenType → ℕ
classes t =
    count (is_bool_op t)
    + count (is_relational_op t)
    + count (is_equality_op t)
    + count (is_numeric_op t)

-- No token type is accepted by two of the four tests. One of them accepts exactly the token types that
-- the table calls binary operators, but for `=` and `instanceof`, which none accepts.
pub bin_op-classes :
    (t : TokenType)
    → (info : TokenTypeInfo) × (from_token_type t ≡ ok info)
      × (classes t ≡ (
          if is_bin_op info
            && not (index t == index TokenType.assg || index t == index TokenType.k_instanceof)
          then 1
          else 0))
unfolding from_token_type is_bool_op is_relational_op is_equality_op is_numeric_op
bin_op-classes TokenType.line_comment = (_, refl, refl)
bin_op-classes _ = (_, refl, refl)
