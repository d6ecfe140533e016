-- ===== src/Types/Folding/Steady/Idempotent.antt =====
-- types/constant_folding.cpp: the shapes of the expressions that `Rewrite` gives, for rewriting them
-- again.
use joosc.Ast.Ids.{TypeId, simple, same_type, bool_base, int_base}
use joosc.Ast.Tree.{
  Expr, null_lit, bool_lit, int_lit, char_lit, string_lit, name, bin, unary, cast, const, type_of,
}
use joosc.Common.{
  ℕ, ◌≡◌, refl, sym, ap, subst, ◌∙◌, ◌⊎◌, inl, inr, Bool, true, false, not, ◌&&◌, ◌||◌, Option,
  none, some, List, ◌++◌, if◌then◌else◌, Outcome, ok, thrown, Exn, ok_injective,
}
use joosc.Lexer.Operators.{is_relational_op, is_equality_op, is_numeric_op}
use joosc.Lexer.TokenType.{TokenType}
use joosc.Types.Conversions.{is_primitive}
use joosc.Types.Folding.{
  StringMap, Folding, feed, ◌>>=◌, lift, pure, const_expr, constant_of, string_const, fold_bools,
  fold_strings, fold_ints, fold_string_equality, fold_relation, fold_consts, fold_bin, fold_unary,
  fold_primitive_cast, fold_cast, rewrite,
}
use joosc.Types.Folding.Steady.{finish, Fixed, rewrite-Separates, finish-ok}

abbrev pub IsConst : Expr → Type 0
IsConst e = (c : Expr) × (o : Expr) × (e ≡ const c o)

-- What the computation gives, whatever the map, has the property.
abbrev Yields : {A : Type 0} → (A → Type 0) → Folding A → Type 0
Yields {A} P f = (s s' : StringMap) (a : A) → f s ≡ ok (a, s') → P a

feed-inv :
    {A B : Type 0} (k : A → Folding B) (r : Outcome (A × StringMap)) {s' : StringMap} {b : B}
    → feed k r ≡ ok (b, s')
    → (a : A) × (s1 : StringMap) × (r ≡ ok (a, s1)) × (k a s1 ≡ ok (b, s'))
feed-inv k (ok (a, s1)) h = (a, s1, refl, h)
feed-inv k (thrown e) h = cc

-- Both parts of a sequence that gave a value gave one.
pub >>=-inv :
    {A B : Type 0} (m : Folding A) (k : A → Folding B) (s s' : StringMap) (b : B)
    → (m >>= k) s ≡ ok (b, s')
    → (a : A) × (s1 : StringMap) × (m s ≡ ok (a, s1)) × (k a s1 ≡ ok (b, s'))
unfolding ◌>>=◌
>>=-inv m k s s' b h = feed-inv k (m s) h

bind-Yields :
    {A B : Type 0} (P : B → Type 0) (m : Folding A) (k : A → Folding B)
    → ((a : A) → Yields P (k a))
    → Yields P (m >>= k)
bind-Yields P m k each s s' b h =
    let (a, s1, first, second) = >>=-inv m k s s' b h in each a s1 s' b second

if-Yields :
    {A : Type 0} (P : A → Type 0) (b : Bool) (f g : Folding A)
    → Yields P f
    → Yields P g
    → Yields P (if b then f else g)
if-Yields P true f g hf hg = hf
if-Yields P false f g hf hg = hg

-- The test's outcome is known in each branch.
split-Yields :
    {A : Type 0} (P : A → Type 0) (b : Bool) (f g : Folding A)
    → (b ≡ true → Yields P f)
    → (b ≡ false → Yields P g)
    → Yields P (if b then f else g)
split-Yields P true f g hf hg = hf refl
split-Yields P false f g hf hg = hg refl

lift-Yields : {A : Type 0} (P : A → Type 0) (a : A) → P a → Yields P (pure a)
unfolding lift
lift-Yields P a holds s s' b h = subst P (ap (λ p. p.0) (ok_injective h)) holds

const_expr-Yields : (c o : Expr) → Yields IsConst (const_expr c o)
unfolding const_expr
const_expr-Yields c o = bind-Yields _ _ _ λ _. lift-Yields _ _ (c, o, refl)

bind-Fixed :
    {a b : Expr} (m : Folding Expr) (k : Expr → Folding Expr)
    → Fixed m a
    → Fixed (k a) b
    → Fixed (m >>= k) b
unfolding ◌>>=◌
bind-Fixed m k (g, first) (g', second) = (λ s. g' (g s), λ s. rw (first s, ◌>>=◌) (second (g s)))

pure-Fixed : (f : Folding Expr) (e : Expr) → f ≡ pure e → Fixed f e
unfolding lift
pure-Fixed f e same = (λ s. s, λ s. rw same refl)

abbrev ConstOr : Expr → Expr → Type 0
ConstOr o e = IsConst e ⊎ (e ≡ o)

-- A constant is one of two things.
becomes : {o : Expr} {f : Folding Expr} → Yields IsConst f → Yields (ConstOr o) f
becomes y s s' e h = inl (y s s' e h)

module _ (string_type : TypeId) where
  string_const-Yields : (str : List ℕ) (o : Expr) → Yields IsConst (string_const string_type str o)
  unfolding string_const
  string_const-Yields str o = bind-Yields _ _ _ λ _. const_expr-Yields _ o

  fold_ints-Yields :
      (op : TokenType) (o l r : Expr) → Yields (ConstOr o) (fold_ints string_type op o l r)
  unfolding fold_ints
  fold_ints-Yields op o l r = bind-Yields _ _ _ λ a. bind-Yields _ _ _ λ b.
      bind-Yields _ _ _ λ result.
        elim result
          as (λ x.
            Yields (ConstOr o)
              (elim x [ none ↦ pure o | some n ↦ const_expr (int_lit n (simple int_base)) o ])) [
                | none ↦ lift-Yields (ConstOr o) o (inr refl)
                | some n ↦ λ s s' e h. inl (const_expr-Yields _ o s s' e h)
              ]

  fold_bools-Yields :
      (op : TokenType) (o l r : Expr) → Yields (ConstOr o) (fold_bools string_type op o l r)
  unfolding fold_bools
  fold_bools-Yields op o l r =
      becomes (bind-Yields _ _ _ λ a. bind-Yields _ _ _ λ b. const_expr-Yields _ o)

  fold_strings-Yields :
      (op : TokenType) (o l r : Expr) → Yields (ConstOr o) (fold_strings string_type op o l r)
  unfolding fold_strings
  fold_strings-Yields op o l r = becomes (
      bind-Yields _ _ _
        λ _. bind-Yields _ _ _ λ a. bind-Yields _ _ _ λ b. string_const-Yields (a ++ b) o)

  fold_string_equality-Yields :
      (op : TokenType) (o l r : Expr)
      → Yields (ConstOr o) (fold_string_equality string_type op o l r)
  unfolding fold_string_equality
  fold_string_equality-Yields op o l r =
      becomes
        (bind-Yields _ _ _ λ _. bind-Yields _ _ _ λ a. bind-Yields _ _ _ λ b. const_expr-Yields _ o)

  fold_relation-Yields :
      (op : TokenType) (o l r : Expr) → Yields (ConstOr o) (fold_relation string_type op o l r)
  unfolding fold_relation
  fold_relation-Yields op o l r =
      becomes (bind-Yields _ _ _ λ a. bind-Yields _ _ _ λ b. const_expr-Yields _ o)

  fold_consts-Yields :
      (op : TokenType) (o l r : Expr) → Yields (ConstOr o) (fold_consts string_type op o l r)
  unfolding fold_consts
  fold_consts-Yields op o l r =
      if-Yields _
        (same_type (type_of l) (simple bool_base) && same_type (type_of r) (simple bool_base)) _ _
        (fold_bools-Yields op o l r)
        (if-Yields _ (is_numeric_op op) _ _
          (if-Yields _ (same_type (type_of l) string_type || same_type (type_of r) string_type) _ _
            (fold_strings-Yields op o l r) (fold_ints-Yields op o l r))
          (bind-Yields _
            (lift
              (if is_relational_op op || is_equality_op op then ok tt else thrown Exn.check_failed))
            _
            λ _.
              if-Yields _ (same_type (type_of l) string_type && same_type (type_of r) string_type) _
                _ (fold_string_equality-Yields op o l r) (fold_relation-Yields op o l r)))

  fold_unary-Yields :
      (op : TokenType) (o : Expr) (r : Option Expr)
      → Yields (ConstOr o) (fold_unary string_type op o r)
  unfolding fold_unary
  fold_unary-Yields op o none = lift-Yields (ConstOr o) o (inr refl)
  fold_unary-Yields TokenType.sub o (some r) =
      becomes (bind-Yields _ _ _ λ a. bind-Yields _ _ _ λ n. const_expr-Yields _ o)
  fold_unary-Yields TokenType.not o (some r) =
      becomes (bind-Yields _ _ _ λ b. const_expr-Yields _ o)
  fold_unary-Yields _ o (some r) = lift-Yields (ConstOr o) o (inr refl)

  -- The pass leaves the node as it is built from its children.
  abbrev Kept : (Expr → Folding Expr) → Expr → Expr → Type 0
  Kept f rebuilt e = (e ≡ rebuilt) × ((o : Expr) → f o ≡ pure rebuilt)

  fold_bin-Yields :
      (op : TokenType) (o e : Expr) (l r : Option Expr)
      → Yields
          (λ x. ConstOr o x ⊎ Kept (λ o2. fold_bin string_type op o2 e l r) e x)
          (fold_bin string_type op o e l r)
  unfolding fold_bin
  fold_bin-Yields op o e (some l) (some r) s s' x h = inl (fold_consts-Yields op o l r s s' x h)
  fold_bin-Yields op o e (some l) none s s' x h =
      inr (lift-Yields (λ x. x ≡ e) e refl s s' x h, λ o. refl)
  fold_bin-Yields op o e none r s s' x h = inr (lift-Yields (λ x. x ≡ e) e refl s s' x h, λ o. refl)

  fold_primitive_cast-Yields :
      (t : TypeId) (o c : Expr) → Yields IsConst (fold_primitive_cast string_type t o c)
  unfolding fold_primitive_cast
  fold_primitive_cast-Yields t o c =
      bind-Yields _ _ _ λ _. bind-Yields _ _ _ λ a. bind-Yields _ _ _ λ n. const_expr-Yields _ o

  fold_cast-Yields :
      (t : TypeId) (o e : Expr) (c : Option Expr)
      → Yields
          (λ x. IsConst x ⊎ Kept (λ o2. fold_cast string_type t o2 e c) (cast e t) x)
          (fold_cast string_type t o e c)
  unfolding fold_cast
  fold_cast-Yields t o e none =
      λ s s' x h. inr (lift-Yields (λ x. x ≡ cast e t) (cast e t) refl s s' x h, λ o. refl)
  fold_cast-Yields t o e (some c) =
      split-Yields _ (same_type t (type_of e)) _ _
        (λ _ s s' x h. inl (const_expr-Yields c o s s' x h))
        λ differs.
          split-Yields _ (is_primitive t) _ _
            (λ _ s s' x h. inl (fold_primitive_cast-Yields t o c s s' x h))
            λ no_number.
              split-Yields _ (not (same_type t string_type)) _ _
                (λ no_string s s' x h. inr (
                  lift-Yields (λ x. x ≡ cast e t) (cast e t) refl s s' x h,
                  λ o2. rw (differs, no_number, no_string) refl,
                ))
                λ _ s s' x h.
                  inl (bind-Yields IsConst _ _ (λ str. string_const-Yields str o) s s' x h)

  const-Fixed : (e : Expr) → IsConst e → Fixed (rewrite string_type e) e
  unfolding rewrite lift
  const-Fixed e (c, o, same) = ((λ s. s), λ s. rw same refl)

  -- An expression that folds to itself under one map does so under every map.
  self-Fixed :
      (e : Expr) (s s' : StringMap)
      → rewrite string_type e s ≡ ok (e, s')
      → Fixed (rewrite string_type e) e
  self-Fixed e s s' h =
      let (r, g, grows, same) = rewrite-Separates string_type e in
      let result = finish-ok r (g s) s' e (sym (same s) ∙ h) in
      (g, λ s2. same s2 ∙ ap (λ o. finish o (g s2)) result)

  original-Fixed :
      (e e' : Expr) (s s' : StringMap)
      → rewrite string_type e s ≡ ok (e', s')
      → e' ≡ e
      → Fixed (rewrite string_type e') e'
  original-Fixed e e' s s' h same =
      subst (λ x. Fixed (rewrite string_type x) x) (sym same)
        (self-Fixed e s s' (subst (λ x. rewrite string_type e s ≡ ok (x, s')) same h))

  -- Where `Rewrite` gives an expression, rewriting that one gives it again, whatever strings are
  -- known then.
  pub rewrite_idempotent :
      (e e' : Expr) (s s' : StringMap)
      → rewrite string_type e s ≡ ok (e', s')
      → Fixed (rewrite string_type e') e'
  unfolding rewrite
  rewrite_idempotent (const c o) e' s s' h =
      const-Fixed e' (c, o, lift-Yields (λ x. x ≡ const c o) _ refl s s' e' h)
  rewrite_idempotent (int_lit n t) e' s s' h = const-Fixed e' (const_expr-Yields _ _ s s' e' h)
  rewrite_idempotent (char_lit c) e' s s' h = const-Fixed e' (const_expr-Yields _ _ s s' e' h)
  rewrite_idempotent (bool_lit b) e' s s' h = const-Fixed e' (const_expr-Yields _ _ s s' e' h)
  rewrite_idempotent (string_lit str t) e' s s' h =
      const-Fixed e' (bind-Yields IsConst _ _ (λ _. const_expr-Yields _ _) s s' e' h)
  rewrite_idempotent null_lit e' s s' h =
      original-Fixed _ e' s s' h (lift-Yields (λ x. x ≡ null_lit) _ refl s s' e' h)
  rewrite_idempotent (name v t) e' s s' h =
      original-Fixed _ e' s s' h (lift-Yields (λ x. x ≡ name v t) _ refl s s' e' h)
  rewrite_idempotent (bin l op r t) e' s s' h =
      let (l', s1, first, h1) = >>=-inv _ _ s s' e' h in
      let (r', s2, second, h2) = >>=-inv _ _ s1 s' e' h1 in
      elim (fold_bin-Yields op (bin l op r t) (bin l' op r' t) (constant_of l') (constant_of r') s2
        s' e' h2) [
          | inl (inl constant) ↦ const-Fixed e' constant
          | inl (inr same) ↦ original-Fixed (bin l op r t) e' s s' h same
          | inr (same, kept) ↦
              subst (λ x. Fixed (rewrite string_type x) x) (sym same)
                (bind-Fixed _ _ (rewrite_idempotent l l' s s1 first) (
                  bind-Fixed _ _ (rewrite_idempotent r r' s1 s2 second)
                    (pure-Fixed _ _ (kept (bin l' op r' t)))))
        ]
  rewrite_idempotent (unary op e t) e' s s' h =
      let (r', s1, first, h1) = >>=-inv _ _ s s' e' h in
      elim (fold_unary-Yields op (unary op e t) (constant_of r') s1 s' e' h1) [
        | inl constant ↦ const-Fixed e' constant
        | inr same ↦ original-Fixed (unary op e t) e' s s' h same
      ]
  rewrite_idempotent (cast e t) e' s s' h =
      let (r', s1, first, h1) = >>=-inv _ _ s s' e' h in
      elim (fold_cast-Yields t (cast e t) r' (constant_of r') s1 s' e' h1) [
        | inl constant ↦ const-Fixed e' constant
        | inr (same, kept) ↦
            subst (λ x. Fixed (rewrite string_type x) x) (sym same)
              (bind-Fixed _ _ (rewrite_idempotent e r' s s1 first)
                (pure-Fixed _ _ (kept (cast r' t))))
      ]
