-- ===== src/Types/Conversions.antt =====
-- types/typechecker_utils.cpp: which types are numeric, primitive or references, and which may be
-- assigned, cast and compared. The test `TypeInfoMap::IsAncestor` is an argument.
pub mod Laws
use joosc.Ast.Ids.{
  TypeId, simple, same_type, null_base, bool_base, byte_base, char_base, short_base, int_base,
  first_ref_type_base,
}
use joosc.Common.{
  ℕ, Bool, true, false, not, ◌&&◌, ◌||◌, List, [], ◌∷◌, leb, ltb, ◌==◌, if◌then◌else◌, Outcome, ok,
  thrown, Exn, check, ◌>>=◌, ◌>>◌,
}

unfoldable pub is_numeric : TypeId → Bool
is_numeric t =
    if not (t.ndims == 0)
    then false
    else t.base == byte_base || t.base == char_base || t.base == short_base || t.base == int_base

unfoldable pub is_primitive : TypeId → Bool
is_primitive t =
    if not (t.ndims == 0)
    then false
    else t.base == bool_base
      || t.base == byte_base
      || t.base == char_base
      || t.base == short_base
      || t.base == int_base

unfoldable pub is_reference : TypeId → Bool
unfolding is_primitive
is_reference t =
    if ltb 0 t.ndims
    then true
    else if is_primitive t
    then false
    else if t.base == null_base
    then true
    else leb first_ref_type_base t.base

unfoldable pub is_one_of : ℕ → List ℕ → Bool
is_one_of base [] = false
is_one_of base (b ∷ allowed) = b == base || is_one_of base allowed

unfoldable pub is_primitive_widening : TypeId → TypeId → Outcome Bool
unfolding is_numeric is_one_of
is_primitive_widening lhs rhs =
    if not (is_numeric lhs) || not (is_numeric rhs)
    then ok false
    else if rhs.base == byte_base
    then ok (is_one_of lhs.base (short_base ∷ int_base ∷ []))
    else if rhs.base == short_base || rhs.base == char_base
    then ok (lhs.base == int_base)
    else if rhs.base == int_base
    then ok false
    else thrown Exn.unreachable

unfoldable pub is_primitive_narrowing : TypeId → TypeId → Outcome Bool
unfolding is_numeric is_one_of
is_primitive_narrowing lhs rhs =
    if not (is_numeric lhs) || not (is_numeric rhs)
    then ok false
    else if rhs.base == byte_base
    then ok (lhs.base == char_base)
    else if rhs.base == short_base
    then ok (is_one_of lhs.base (byte_base ∷ char_base ∷ []))
    else if rhs.base == char_base
    then ok (is_one_of lhs.base (byte_base ∷ short_base ∷ []))
    else if rhs.base == int_base
    then ok (is_one_of lhs.base (byte_base ∷ char_base ∷ short_base ∷ []))
    else thrown Exn.unreachable

module _ (is_ancestor : TypeId → TypeId → Bool) where
  unfoldable pub is_reference_widening : TypeId → TypeId → Outcome Bool
  is_reference_widening lhs rhs =
      if not (is_reference lhs) || not (is_reference rhs)
      then ok false
      else if lhs.base == null_base
      then (check (lhs.ndims == 0) >> ok false)
      else if rhs.base == null_base
      then (check (rhs.ndims == 0) >> ok true)
      else ok (is_ancestor rhs lhs)

  -- The tests behind the one for arrays; arrays of one dimension come back here with none.
  unfoldable pub is_assignable_simple : TypeId → TypeId → Outcome Bool
  is_assignable_simple lhs rhs = do
    widens ← is_primitive_widening lhs rhs
    if widens then ok true else is_reference_widening lhs rhs

  unfoldable pub is_assignable : TypeId → TypeId → Outcome Bool
  is_assignable lhs rhs =
      if same_type lhs rhs
      then ok true
      else if lhs.ndims == rhs.ndims && ltb 0 lhs.ndims
      then (if is_primitive (simple lhs.base) || is_primitive (simple rhs.base)
          then ok false
          else if same_type (simple lhs.base) (simple rhs.base)
          then ok true
          else is_assignable_simple (simple lhs.base) (simple rhs.base))
      else is_assignable_simple lhs rhs

  -- `a || b`, where `b` is not run if `a` holds.
  abbrev or_else : Outcome Bool → Outcome Bool → Outcome Bool
  or_else a b = a >>= λ x. if x then ok true else b

  unfoldable pub is_castable : TypeId → TypeId → Outcome Bool
  is_castable lhs rhs =
      if same_type lhs rhs
      then ok true
      else if is_primitive lhs && is_primitive rhs
      then or_else (is_primitive_widening lhs rhs) (is_primitive_narrowing lhs rhs)
      else if is_reference lhs && is_reference rhs
      then or_else (is_assignable lhs rhs) (is_assignable rhs lhs)
      else ok false

  unfoldable pub is_comparable : TypeId → TypeId → Outcome Bool
  is_comparable lhs rhs =
      if same_type lhs rhs
      then ok true
      else if is_numeric lhs && is_numeric rhs
      then ok true
      else if is_numeric lhs || is_numeric rhs
      then ok false
      else do
        check (is_reference lhs && is_reference rhs)
        if same_type lhs (simple null_base) || same_type rhs (simple null_base)
            then ok true
            else or_else (is_assignable lhs rhs) (is_assignable rhs lhs)
