-- ===== src/Types/Folding.antt =====
-- types/constant_folding.cpp: the pass that replaces constant expressions by their values, and
-- collects the program's strings. The map from strings to ids is the list of its pairs, the last
-- one first; a computation of the visitor takes it and gives it back. A node that the pass builds
-- anew around unchanged children is the node itself here, where nodes have no identity.
pub mod Words
pub mod Steady
pub mod Ids
pub mod Faults
pub mod Decimal
use joosc.Ast.Ids.{TypeId, simple, same_type, bool_base, byte_base, char_base, short_base, int_base}
use joosc.Ast.Tree.{
  Expr, null_lit, bool_lit, int_lit, char_lit, string_lit, name, bin, unary, cast, const, type_of,
}
use joosc.Common.{
  ℕ, zero, suc, ◌+◌, ◌%◌, ◌^◌, Bool, true, false, not, ◌&&◌, ◌||◌, Option, none, some, List, [],
  ◌∷◌, ◌++◌, ◌==◌, if◌then◌else◌, Outcome, ok, thrown, Exn,
}
use joosc.Lexer.Operators.{is_relational_op, is_equality_op, is_numeric_op}
use joosc.Lexer.TokenType.{TokenType}
use joosc.Types.Conversions.{is_numeric, is_primitive}
use Words.{word_add, word_sub, word_mul, word_div, word_mod, word_neg, word_lt, word_le, decimal}

-- A `jstring`: 16-bit units.
abbrev pub JString : Type 0
JString = List ℕ

unfoldable pub same_string : JString → JString → Bool
same_string [] [] = true
same_string (a ∷ s) (b ∷ t) = a == b && same_string s t
same_string [] (b ∷ t) = false
same_string (a ∷ s) [] = false

unfoldable pub find : JString → List (JString × ℕ) → Option ℕ
unfolding same_string
find s [] = none
find s ((t, id) ∷ entries) = if same_string s t then some id else find s entries

-- `strings_` and `next_string_id_`.
pub record StringMap : Type 0 where
  pub entries : List (JString × ℕ)
  pub next_string_id : ℕ

abbrev pub no_strings : StringMap
no_strings = record { entries = []; next_string_id = 0 }

abbrev pub Folding : Type 0 → Type 0
Folding A = StringMap → Outcome (A × StringMap)

abbrev pub feed :
    {A B : Type 0} → (A → Folding B) → Outcome (A × StringMap) → Outcome (B × StringMap)
feed k (ok (a, s)) = k a s
feed k (thrown e) = thrown e

infixl 5 ◌>>=◌ ◌>>◌
unfoldable pub ◌>>=◌ : {A B : Type 0} → Folding A → (A → Folding B) → Folding B
(m >>= k) s = feed k (m s)

abbrev pub ◌>>◌ : {B : Type 0} → Folding (Unit {0}) → Folding B → Folding B
m >> k = m >>= λ _. k

unfoldable pub lift : {A : Type 0} → Outcome A → Folding A
lift (ok a) s = ok (a, s)
lift (thrown e) s = thrown e

abbrev pub pure : {A : Type 0} → A → Folding A
pure a = lift (ok a)

abbrev pub check : Bool → Folding (Unit {0})
check b = lift (if b then ok tt else thrown Exn.check_failed)

-- The map after `add_string`, when looking the string up gave this.
abbrev pub added : JString → StringMap → Option ℕ → StringMap
added str s none = record s {
  entries = (str, s.next_string_id) ∷ s.entries;
  next_string_id = suc s.next_string_id;
}
added str s (some id) = s

unfoldable pub add_string : JString → Folding (Unit {0})
unfolding find
add_string str s = ok (tt, added str s (find str s.entries))

-- The constructor of `ConstExpr`.
unfoldable pub const_expr : Expr → Expr → Folding Expr
unfolding same_type type_of
const_expr constant original =
    check (same_type (type_of constant) (type_of original)) >> pure (const constant original)

-- `dynamic_cast<const ConstExpr*>`, and the constant inside.
unfoldable pub constant_of : Expr → Option Expr
constant_of (const c o) = some c
constant_of null_lit = none
constant_of (bool_lit b) = none
constant_of (int_lit n t) = none
constant_of (char_lit c) = none
constant_of (string_lit s t) = none
constant_of (name v t) = none
constant_of (bin l op r t) = none
constant_of (unary op r t) = none
constant_of (cast e t) = none

-- A `dynamic_cast` to a literal, and the `CHECK` that it is one.
unfoldable pub bool_value : Expr → Outcome Bool
bool_value (bool_lit b) = ok b
bool_value _ = thrown Exn.check_failed

unfoldable pub int_value : Expr → Outcome ℕ
int_value (int_lit n t) = ok n
int_value _ = thrown Exn.check_failed

unfoldable pub char_value : Expr → Outcome ℕ
char_value (char_lit c) = ok c
char_value _ = thrown Exn.check_failed

unfoldable pub string_value : Expr → Outcome JString
string_value (string_lit s t) = ok s
string_value _ = thrown Exn.check_failed

unfoldable pub get_int_value : Expr → Outcome ℕ
unfolding type_of same_type char_value int_value
get_int_value e = if same_type (type_of e) (simple char_base) then char_value e else int_value e

abbrev pub map_ok : {A B : Type 0} → (A → B) → Outcome A → Outcome B
map_ok f (ok a) = ok (f a)
map_ok f (thrown e) = thrown e

-- "true" and "false".
abbrev pub bool_string : Bool → JString
bool_string true = 116 ∷ 114 ∷ 117 ∷ 101 ∷ []
bool_string false = 102 ∷ 97 ∷ 108 ∷ 115 ∷ 101 ∷ []

abbrev pub inside : Expr → Expr
inside e = elim (constant_of e) [ some c ↦ c | none ↦ e ]

-- `switch`es over an operator; a value that a case does not set keeps its initial one.
unfoldable pub bool_result : TokenType → Bool → Bool → Bool
bool_result TokenType.or a b = a || b
bool_result TokenType.and a b = a && b
bool_result TokenType.eq true b = b
bool_result TokenType.eq false b = not b
bool_result TokenType.neq true b = not b
bool_result TokenType.neq false b = b
bool_result _ a b = false

-- None: dividing by 0.
unfoldable pub numeric_result : TokenType → ℕ → ℕ → Outcome (Option ℕ)
unfolding word_add word_sub word_mul word_div word_mod
numeric_result TokenType.add a b = ok (some (word_add a b))
numeric_result TokenType.sub a b = ok (some (word_sub a b))
numeric_result TokenType.mul a b = ok (some (word_mul a b))
numeric_result TokenType.div a b = if b == 0 then ok none else map_ok (λ q. some q) (word_div a b)
numeric_result TokenType.modulo a b =
    if b == 0 then ok none else map_ok (λ r. some r) (word_mod a b)
numeric_result _ a b = ok (some 0)

unfoldable pub relational_result : TokenType → ℕ → ℕ → Bool
unfolding word_le word_lt
relational_result TokenType.le a b = word_le a b
relational_result TokenType.ge a b = word_le b a
relational_result TokenType.lt a b = word_lt a b
relational_result TokenType.gt a b = word_lt b a
relational_result TokenType.eq a b = a == b
relational_result TokenType.neq a b = not (a == b)
relational_result _ a b = false

abbrev pub is_add : TokenType → Bool
is_add TokenType.add = true
is_add _ = false

abbrev pub is_eq : TokenType → Bool
is_eq TokenType.eq = true
is_eq _ = false

abbrev pub is_neq : TokenType → Bool
is_neq TokenType.neq = true
is_neq _ = false

module _ (string_type : TypeId) where
  unfoldable pub stringify : Expr → Outcome JString
  unfolding constant_of type_of same_type string_value char_value is_numeric int_value decimal
      bool_value
  stringify expr =
      if same_type (type_of (inside expr)) string_type
      then string_value (inside expr)
      else if same_type (type_of (inside expr)) (simple char_base)
      then map_ok (λ c. c ∷ []) (char_value (inside expr))
      else if is_numeric (type_of (inside expr))
      then map_ok decimal (int_value (inside expr))
      else if same_type (type_of (inside expr)) (simple bool_base)
      then map_ok bool_string (bool_value (inside expr))
      else thrown Exn.check_failed

  -- A new string literal in place of `original`, which is in the map.
  unfoldable pub string_const : JString → Expr → Folding Expr
  unfolding add_string const_expr
  string_const str original = add_string str >> const_expr (string_lit str string_type) original

  unfoldable pub fold_bools : TokenType → Expr → Expr → Expr → Folding Expr
  unfolding bool_value bool_result const_expr
  fold_bools op original l r = do
    a ← lift (bool_value l)
    b ← lift (bool_value r)
    const_expr (bool_lit (bool_result op a b)) original

  unfoldable pub fold_strings : TokenType → Expr → Expr → Expr → Folding Expr
  unfolding stringify string_const
  fold_strings op original l r = do
    check (is_add op)
    a ← lift (stringify l)
    b ← lift (stringify r)
    string_const (a ++ b) original

  unfoldable pub fold_ints : TokenType → Expr → Expr → Expr → Folding Expr
  unfolding get_int_value numeric_result const_expr
  fold_ints op original l r = do
    a ← lift (get_int_value l)
    b ← lift (get_int_value r)
    result ← lift (numeric_result op a b)
    elim result [
      | none ↦ pure original
      | some n ↦ const_expr (int_lit n (simple int_base)) original
    ]

  unfoldable pub fold_string_equality : TokenType → Expr → Expr → Expr → Folding Expr
  unfolding stringify same_string const_expr
  fold_string_equality op original l r = do
    check (is_eq op || is_neq op)
    a ← lift (stringify l)
    b ← lift (stringify r)
    const_expr (bool_lit (same_string a b && is_eq op || not (same_string a b) && not (is_eq op)))
        original

  unfoldable pub fold_relation : TokenType → Expr → Expr → Expr → Folding Expr
  unfolding get_int_value relational_result const_expr
  fold_relation op original l r = do
    a ← lift (get_int_value l)
    b ← lift (get_int_value r)
    const_expr (bool_lit (relational_result op a b)) original

  -- Both operands are constants.
  unfoldable pub fold_consts : TokenType → Expr → Expr → Expr → Folding Expr
  unfolding type_of same_type is_numeric_op is_relational_op is_equality_op fold_bools fold_strings
      fold_ints fold_string_equality fold_relation
  fold_consts op original l r =
      if same_type (type_of l) (simple bool_base) && same_type (type_of r) (simple bool_base)
      then fold_bools op original l r
      else if is_numeric_op op
      then (if same_type (type_of l) string_type || same_type (type_of r) string_type
          then fold_strings op original l r
          else fold_ints op original l r)
      else check (is_relational_op op || is_equality_op op)
        >> (if same_type (type_of l) string_type && same_type (type_of r) string_type
            then fold_string_equality op original l r
            else fold_relation op original l r)

  unfoldable pub fold_bin : TokenType → Expr → Expr → Option Expr → Option Expr → Folding Expr
  unfolding fold_consts
  fold_bin op original rebuilt (some l) (some r) = fold_consts op original l r
  fold_bin op original rebuilt (some l) none = pure rebuilt
  fold_bin op original rebuilt none r = pure rebuilt

  unfoldable pub fold_unary : TokenType → Expr → Option Expr → Folding Expr
  unfolding get_int_value word_neg const_expr bool_value
  fold_unary op original none = pure original
  fold_unary TokenType.sub original (some r) = do
    value ← lift (get_int_value r)
    n ← lift (word_neg value)
    const_expr (int_lit n (simple int_base)) original
  fold_unary TokenType.not original (some r) = do
    b ← lift (bool_value r)
    const_expr (bool_lit (not b)) original
  fold_unary _ original (some r) = pure original

  -- The bits that a cast keeps.
  unfoldable pub cast_value : TypeId → ℕ → Outcome ℕ
  cast_value t n =
      if t.base == int_base
      then ok n
      else if t.base == char_base || t.base == short_base
      then ok (n % 2 ^ 16)
      else if t.base == byte_base
      then ok (n % 2 ^ 8)
      else thrown Exn.unreachable

  unfoldable pub fold_primitive_cast : TypeId → Expr → Expr → Folding Expr
  unfolding is_numeric get_int_value cast_value same_type const_expr
  fold_primitive_cast t original c = do
    check (is_numeric t)
    value ← lift (get_int_value c)
    n ← lift (cast_value t value)
    const_expr (if same_type t (simple char_base) then char_lit n else int_lit n t) original

  unfoldable pub fold_cast : TypeId → Expr → Expr → Option Expr → Folding Expr
  unfolding same_type type_of const_expr is_primitive fold_primitive_cast stringify string_const
  fold_cast t original inner none = pure (cast inner t)
  fold_cast t original inner (some c) =
      if same_type t (type_of inner)
      then const_expr c original
      else if is_primitive t
      then fold_primitive_cast t original c
      else if not (same_type t string_type)
      then pure (cast inner t)
      else do str ← lift (stringify c); string_const str original

  -- `Rewrite`, by the kind of the expression.
  unfoldable pub rewrite : Expr → Folding Expr
  unfolding const_expr add_string constant_of fold_bin fold_unary fold_cast
  rewrite (const constant original) = pure (const constant original)
  rewrite (int_lit n t) = const_expr (int_lit n t) (int_lit n t)
  rewrite (char_lit c) = const_expr (char_lit c) (char_lit c)
  rewrite (bool_lit b) = const_expr (bool_lit b) (bool_lit b)
  rewrite (string_lit s t) = add_string s >> const_expr (string_lit s t) (string_lit s t)
  rewrite null_lit = pure null_lit
  rewrite (name v t) = pure (name v t)
  rewrite (bin l op r t) = do
    lhs ← rewrite l
    rhs ← rewrite r
    fold_bin op (bin l op r t) (bin lhs op rhs t) (constant_of lhs) (constant_of rhs)
  rewrite (unary op e t) = do rhs ← rewrite e; fold_unary op (unary op e t) (constant_of rhs)
  rewrite (cast e t) = do inner ← rewrite e; fold_cast t (cast e t) inner (constant_of inner)
