-- ===== src/Types/Conversions/Laws.antt =====
-- types/typechecker_utils.cpp: conversions beside the ranges of values, and casts and comparisons with
-- their operands exchanged.
use joosc.Ast.Ids.{TypeId, simple, same_type, null_base, byte_base, char_base, short_base}
use joosc.Common.{
  ℕ, ◌^◌, ◌-◌, ◌≡◌, refl, inl, inr, Bool, true, false, not, ◌&&◌, ◌||◌, leb, ltb, ◌==◌,
  if◌then◌else◌, Outcome, ok, check, ◌>>◌, arith, Bool-cases,
}
use joosc.Types.Conversions.{
  is_numeric, is_primitive, is_reference, is_primitive_widening, is_primitive_narrowing,
  is_reference_widening, is_assignable_simple, is_assignable, is_castable, is_comparable,
}

-- How far the values of a numeric type go below and above zero.
abbrev pub below : TypeId → ℕ
below t =
    if t.base == byte_base
    then 2 ^ 7
    else if t.base == short_base
    then 2 ^ 15
    else if t.base == char_base
    then 0
    else 2 ^ 31

abbrev pub above : TypeId → ℕ
above t =
    if t.base == byte_base
    then 2 ^ 7 - 1
    else if t.base == short_base
    then 2 ^ 15 - 1
    else if t.base == char_base
    then 2 ^ 16 - 1
    else 2 ^ 31 - 1

-- Every value of `rhs` is one of `lhs`.
abbrev pub within : TypeId → TypeId → Bool
within lhs rhs = leb (below rhs) (below lhs) && leb (above rhs) (above lhs)

-- A primitive widening goes exactly to another numeric type that has all the values.
pub is_primitive_widening-within :
    (lhs rhs : TypeId)
    → is_primitive_widening lhs rhs
      ≡ ok (is_numeric lhs && is_numeric rhs && not (same_type lhs rhs) && within lhs rhs)
unfolding is_primitive_widening same_type
is_primitive_widening-within lhs rhs = ground arith

-- A primitive narrowing goes exactly to another numeric type that lacks some of the values.
pub is_primitive_narrowing-within :
    (lhs rhs : TypeId)
    → is_primitive_narrowing lhs rhs
      ≡ ok (is_numeric lhs && is_numeric rhs && not (same_type lhs rhs) && not (within lhs rhs))
unfolding is_primitive_narrowing same_type
is_primitive_narrowing-within lhs rhs = ground arith

-- There are no arrays of the null type.
abbrev pub NullIsSimple : TypeId → Type 0
NullIsSimple t = t.base ≡ null_base → t.ndims ≡ 0

abbrev Returns : Outcome Bool → Type 0
Returns o = (b : Bool) × (o ≡ ok b)

if-Returns : (t : Bool) (x y : Outcome Bool) → Returns x → Returns y → Returns (if t then x else y)
if-Returns true x y h k = h
if-Returns false x y h k = k

check-Returns : (t b : Bool) → t ≡ true → Returns (check t >> ok b)
check-Returns t b h = (b, rw h)

null_check :
    (t : TypeId) (b : Bool) (o : Outcome Bool)
    → NullIsSimple t
    → Returns o
    → Returns (if t.base == null_base then check (t.ndims == 0) >> ok b else o)
null_check t b o h k = elim (Bool-cases (t.base == null_base)) [
  | inl null ↦ rw null (check-Returns (t.ndims == 0) b (ground (arith, h)))
  | inr other ↦ rw other k
]

module _ (is_ancestor : TypeId → TypeId → Bool) where
  is_reference_widening-ok :
      (lhs rhs : TypeId)
      → NullIsSimple lhs
      → NullIsSimple rhs
      → Returns (is_reference_widening is_ancestor lhs rhs)
  unfolding is_reference_widening
  is_reference_widening-ok lhs rhs hl hr =
      if-Returns (not (is_reference lhs) || not (is_reference rhs)) _ _ (false, refl)
        (null_check lhs false _ hl (null_check rhs true _ hr (is_ancestor rhs lhs, refl)))

  is_assignable_simple-ok :
      (lhs rhs : TypeId)
      → NullIsSimple lhs
      → NullIsSimple rhs
      → Returns (is_assignable_simple is_ancestor lhs rhs)
  unfolding is_assignable_simple
  is_assignable_simple-ok lhs rhs hl hr = rw (is_primitive_widening-within lhs rhs) (
      if-Returns (is_numeric lhs && is_numeric rhs && not (same_type lhs rhs) && within lhs rhs) _ _
        (true, refl) (is_reference_widening-ok lhs rhs hl hr))

  -- Assignability is always decided.
  is_assignable-ok :
      (lhs rhs : TypeId)
      → NullIsSimple lhs
      → NullIsSimple rhs
      → Returns (is_assignable is_ancestor lhs rhs)
  unfolding is_assignable
  is_assignable-ok lhs rhs hl hr =
      if-Returns (same_type lhs rhs) _ _ (true, refl)
        (if-Returns (lhs.ndims == rhs.ndims && ltb 0 lhs.ndims) _ _
          (if-Returns (is_primitive (simple lhs.base) || is_primitive (simple rhs.base)) _ _
            (false, refl)
            (if-Returns (same_type (simple lhs.base) (simple rhs.base)) _ _ (true, refl)
              (is_assignable_simple-ok (simple lhs.base) (simple rhs.base) (λ _. refl)
                (λ _. refl))))
          (is_assignable_simple-ok lhs rhs hl hr))

  same_type_comm : (a b : TypeId) → same_type a b ≡ same_type b a
  unfolding same_type
  same_type_comm a b = ground arith

  -- Between two types, of which neither is an array of nulls, casting is allowed in both directions or
  -- in neither.
  pub is_castable_comm :
      (lhs rhs : TypeId)
      → NullIsSimple lhs
      → NullIsSimple rhs
      → is_castable is_ancestor lhs rhs ≡ is_castable is_ancestor rhs lhs
  unfolding is_castable
  is_castable_comm lhs rhs hl hr =
      let (b, eq) = is_assignable-ok lhs rhs hl hr in
      let (c, eq') = is_assignable-ok rhs lhs hr hl in
      ground (
        arith,
        same_type_comm lhs rhs,
        is_primitive_widening-within lhs rhs,
        is_primitive_widening-within rhs lhs,
        is_primitive_narrowing-within lhs rhs,
        is_primitive_narrowing-within rhs lhs,
      )

  -- Two types, of which neither is an array of nulls, compare in both orders or in neither.
  pub is_comparable_comm :
      (lhs rhs : TypeId)
      → NullIsSimple lhs
      → NullIsSimple rhs
      → is_comparable is_ancestor lhs rhs ≡ is_comparable is_ancestor rhs lhs
  unfolding is_comparable
  is_comparable_comm lhs rhs hl hr =
      let (b, eq) = is_assignable-ok lhs rhs hl hr in
      let (c, eq') = is_assignable-ok rhs lhs hr hl in ground (arith, same_type_comm lhs rhs)
