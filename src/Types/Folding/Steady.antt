-- ===== src/Types/Folding/Steady.antt =====
-- types/constant_folding.cpp: the outcome of `Rewrite` apart from the strings that it is given.
pub mod Idempotent
pub mod Collected
use joosc.Ast.Ids.{TypeId, simple, same_type, bool_base, char_base, int_base}
use joosc.Ast.Tree.{
  Expr, null_lit, bool_lit, int_lit, char_lit, string_lit, name, bin, unary, cast, const, type_of,
}
use joosc.Common.{
  ap, ℕ, suc, ◌≡◌, refl, sym, ◌∙◌, Bool, true, false, not, ◌&&◌, ◌||◌, Option, none, some, List, [],
  ◌∷◌, ◌++◌, if◌then◌else◌, Outcome, ok, thrown, Exn, Option-cases, inl, inr, ok_injective,
}
use joosc.Lexer.Operators.{is_relational_op, is_equality_op, is_numeric_op}
use joosc.Lexer.TokenType.{TokenType}
use joosc.Types.Conversions.{is_primitive, is_numeric}
use joosc.Types.Folding.{
  JString, StringMap, Folding, ◌>>=◌, ◌>>◌, lift, pure, check, find, added, add_string, const_expr,
  constant_of, bool_value, get_int_value, bool_result, numeric_result, relational_result,
  same_string, is_add, is_eq, is_neq, stringify, string_const, fold_bools, fold_strings, fold_ints,
  fold_string_equality, fold_relation, fold_consts, fold_bin, fold_unary, cast_value,
  fold_primitive_cast, fold_cast, rewrite,
}
use joosc.Types.Folding.Ids.{
  Numbered, none_yet, Extends, Grows, same-Grows, then-Grows, added-Grows, find-bound,
  find_injective, find_onto,
}
use joosc.Types.Folding.Words.{word_neg}

abbrev pub finish : {A : Type 0} → Outcome A → StringMap → Outcome (A × StringMap)
finish (ok a) s = ok (a, s)
finish (thrown e) s = thrown e

pub finish-ok :
    {A : Type 0} (r : Outcome A) (s s' : StringMap) (a : A) → finish r s ≡ ok (a, s') → r ≡ ok a
finish-ok (ok b) s s' a h = ap (λ p. ok p.0) (ok_injective h)
finish-ok (thrown x) s s' a h = cc

pub finish-state :
    {A : Type 0} (r : Outcome A) (s s' : StringMap) (a : A) → finish r s ≡ ok (a, s') → s ≡ s'
finish-state (ok b) s s' a h = ap (λ p. p.1) (ok_injective h)
finish-state (thrown x) s s' a h = cc

-- The outcome is the same whatever the map is, which only the new map depends on; and it grows.
abbrev pub Separates : {A : Type 0} → Folding A → Type 0
Separates {A} f =
    (r : Outcome A) × (g : StringMap → StringMap) × Grows g
    × ((s : StringMap) → f s ≡ finish r (g s))

abbrev pub Fixed : Folding Expr → Expr → Type 0
Fixed f e = (g : StringMap → StringMap) × ((s : StringMap) → f s ≡ ok (e, g s))

lift-Separates : {A : Type 0} (r : Outcome A) → Separates (lift r)
unfolding lift
lift-Separates (ok a) = (ok a, (λ s. s), same-Grows, λ s. refl)
lift-Separates (thrown e) = (thrown e, (λ s. s), same-Grows, λ s. refl)

add_string-Separates : (str : JString) → Separates (add_string str)
unfolding add_string
add_string-Separates str =
    (ok tt, (λ s. added str s (find str s.entries)), added-Grows str, λ s. refl)

bind-Separates :
    {A B : Type 0} (m : Folding A) (k : A → Folding B)
    → Separates m
    → ((a : A) → Separates (k a))
    → Separates (m >>= k)
unfolding ◌>>=◌
bind-Separates m k (ok a, g, grows, same) each =
    let (r, g', grows', same') = each a in
    (r, (λ s. g' (g s)), then-Grows g g' grows grows', λ s. rw (same s, ◌>>=◌) (same' (g s)))
bind-Separates m k (thrown e, g, grows, same) each =
    (thrown e, g, grows, λ s. rw (same s, ◌>>=◌) refl)

if-Separates :
    {A : Type 0} (b : Bool) (f g : Folding A)
    → Separates f
    → Separates g
    → Separates (if b then f else g)
if-Separates true f g hf hg = hf
if-Separates false f g hf hg = hg

const_expr-Separates : (c o : Expr) → Separates (const_expr c o)
unfolding const_expr
const_expr-Separates c o =
    bind-Separates _ _ (lift-Separates _) λ _. lift-Separates (ok (const c o))

module _ (string_type : TypeId) where
  string_const-Separates : (str : JString) (o : Expr) → Separates (string_const string_type str o)
  unfolding string_const
  string_const-Separates str o =
      bind-Separates _ _ (add_string-Separates str) λ _. const_expr-Separates _ o

  fold_bools-Separates :
      (op : TokenType) (o l r : Expr) → Separates (fold_bools string_type op o l r)
  unfolding fold_bools
  fold_bools-Separates op o l r =
      bind-Separates _ _ (lift-Separates _)
        λ a. bind-Separates _ _ (lift-Separates _) λ b. const_expr-Separates _ o

  fold_strings-Separates :
      (op : TokenType) (o l r : Expr) → Separates (fold_strings string_type op o l r)
  unfolding fold_strings
  fold_strings-Separates op o l r = bind-Separates _ _ (lift-Separates _) λ _.
      bind-Separates _ _ (lift-Separates _)
        λ a. bind-Separates _ _ (lift-Separates _) λ b. string_const-Separates (a ++ b) o

  fold_ints-Separates : (op : TokenType) (o l r : Expr) → Separates (fold_ints string_type op o l r)
  unfolding fold_ints
  fold_ints-Separates op o l r = bind-Separates _ _ (lift-Separates _) λ a.
      bind-Separates _ _ (lift-Separates _) λ b.
        bind-Separates _ _ (lift-Separates (numeric_result op a b)) λ result.
          elim result
            as (λ x.
              Separates
                (elim x [ none ↦ pure o | some n ↦ const_expr (int_lit n (simple int_base)) o ])) [
                  | none ↦ lift-Separates (ok o)
                  | some n ↦ const_expr-Separates _ o
                ]

  fold_string_equality-Separates :
      (op : TokenType) (o l r : Expr) → Separates (fold_string_equality string_type op o l r)
  unfolding fold_string_equality
  fold_string_equality-Separates op o l r = bind-Separates _ _ (lift-Separates _) λ _.
      bind-Separates _ _ (lift-Separates _)
        λ a. bind-Separates _ _ (lift-Separates _) λ b. const_expr-Separates _ o

  fold_relation-Separates :
      (op : TokenType) (o l r : Expr) → Separates (fold_relation string_type op o l r)
  unfolding fold_relation
  fold_relation-Separates op o l r =
      bind-Separates _ _ (lift-Separates _)
        λ a. bind-Separates _ _ (lift-Separates _) λ b. const_expr-Separates _ o

  fold_consts-Separates :
      (op : TokenType) (o l r : Expr) → Separates (fold_consts string_type op o l r)
  unfolding fold_consts
  fold_consts-Separates op o l r =
      if-Separates
        (same_type (type_of l) (simple bool_base) && same_type (type_of r) (simple bool_base)) _ _
        (fold_bools-Separates op o l r)
        (if-Separates (is_numeric_op op) _ _
          (if-Separates (same_type (type_of l) string_type || same_type (type_of r) string_type) _ _
            (fold_strings-Separates op o l r) (fold_ints-Separates op o l r))
          (bind-Separates _ _
            (lift-Separates
              (if is_relational_op op || is_equality_op op then ok tt else thrown Exn.check_failed))
            λ _.
              if-Separates (same_type (type_of l) string_type && same_type (type_of r) string_type)
                _ _ (fold_string_equality-Separates op o l r) (fold_relation-Separates op o l r)))

  fold_bin-Separates :
      (op : TokenType) (o e : Expr) (l r : Option Expr)
      → Separates (fold_bin string_type op o e l r)
  unfolding fold_bin
  fold_bin-Separates op o e (some l) (some r) = fold_consts-Separates op o l r
  fold_bin-Separates op o e (some l) none = lift-Separates (ok e)
  fold_bin-Separates op o e none r = lift-Separates (ok e)

  fold_unary-Separates :
      (op : TokenType) (o : Expr) (r : Option Expr) → Separates (fold_unary string_type op o r)
  unfolding fold_unary
  fold_unary-Separates op o none = lift-Separates (ok o)
  fold_unary-Separates TokenType.sub o (some r) =
      bind-Separates _ _ (lift-Separates _)
        λ a. bind-Separates _ _ (lift-Separates _) λ n. const_expr-Separates _ o
  fold_unary-Separates TokenType.not o (some r) =
      bind-Separates _ _ (lift-Separates _) λ b. const_expr-Separates _ o
  fold_unary-Separates _ o (some r) = lift-Separates (ok o)

  fold_primitive_cast-Separates :
      (t : TypeId) (o c : Expr) → Separates (fold_primitive_cast string_type t o c)
  unfolding fold_primitive_cast
  fold_primitive_cast-Separates t o c = bind-Separates _ _ (lift-Separates _) λ _.
      bind-Separates _ _ (lift-Separates _)
        λ a. bind-Separates _ _ (lift-Separates _) λ n. const_expr-Separates _ o

  fold_cast-Separates :
      (t : TypeId) (o e : Expr) (c : Option Expr) → Separates (fold_cast string_type t o e c)
  unfolding fold_cast
  fold_cast-Separates t o e none = lift-Separates (ok (cast e t))
  fold_cast-Separates t o e (some c) =
      if-Separates (same_type t (type_of e)) _ _ (const_expr-Separates c o) (
        if-Separates (is_primitive t) _ _ (fold_primitive_cast-Separates t o c) (
          if-Separates (not (same_type t string_type)) _ _ (lift-Separates (ok (cast e t)))
            (bind-Separates _ _ (lift-Separates _) λ str. string_const-Separates str o)))

  pub rewrite-Separates : (e : Expr) → Separates (rewrite string_type e)
  unfolding rewrite
  rewrite-Separates (const c o) = lift-Separates _
  rewrite-Separates (int_lit n t) = const_expr-Separates _ _
  rewrite-Separates (char_lit c) = const_expr-Separates _ _
  rewrite-Separates (bool_lit b) = const_expr-Separates _ _
  rewrite-Separates (string_lit s t) =
      bind-Separates _ _ (add_string-Separates s) λ _. const_expr-Separates _ _
  rewrite-Separates null_lit = lift-Separates _
  rewrite-Separates (name v t) = lift-Separates _
  rewrite-Separates (bin l op r t) = bind-Separates _ _ (rewrite-Separates l) λ l'.
      bind-Separates _ _ (rewrite-Separates r) λ r'.
        fold_bin-Separates op (bin l op r t) (bin l' op r' t) (constant_of l') (constant_of r')
  rewrite-Separates (unary op e t) =
      bind-Separates _ _ (rewrite-Separates e)
        λ e'. fold_unary-Separates op (unary op e t) (constant_of e')
  rewrite-Separates (cast e t) =
      bind-Separates _ _ (rewrite-Separates e)
        λ e'. fold_cast-Separates t (cast e t) e' (constant_of e')
