-- ===== src/Ast/Ids.antt =====
-- ast/ids.h, ast/ids.cpp: type, variable, method and field ids.
use joosc.Common.{ℕ, ◌≡◌, ◌↔◌, Bool, true, ◌&&◌, ◌||◌, not, ltb, ◌==◌, arith}

pub record TypeId : Type 0 where
  pub base : ℕ
  pub ndims : ℕ

abbrev pub unassigned_base : ℕ
unassigned_base = 0

abbrev pub error_base : ℕ
error_base = 1

abbrev pub null_base : ℕ
null_base = 2

abbrev pub type_base : ℕ
type_base = 3

abbrev pub void_base : ℕ
void_base = 4

abbrev pub bool_base : ℕ
bool_base = 5

abbrev pub byte_base : ℕ
byte_base = 6

abbrev pub char_base : ℕ
char_base = 7

abbrev pub short_base : ℕ
short_base = 8

abbrev pub int_base : ℕ
int_base = 9

abbrev pub first_ref_type_base : ℕ
first_ref_type_base = 16

-- A type that is no array.
abbrev pub simple : ℕ → TypeId
simple base = record { base = base; ndims = 0 }

unfoldable pub is_unassigned : TypeId → Bool
is_unassigned t = t.base == unassigned_base

unfoldable pub is_error : TypeId → Bool
is_error t = t.base == error_base

unfoldable pub is_valid : TypeId → Bool
unfolding is_unassigned is_error
is_valid t = not (is_unassigned t) && not (is_error t)

-- `operator==` and `operator<`.
unfoldable pub same_type : TypeId → TypeId → Bool
same_type a b = a.base == b.base && a.ndims == b.ndims

unfoldable pub type_lt : TypeId → TypeId → Bool
type_lt a b = ltb a.base b.base || a.base == b.base && ltb a.ndims b.ndims

pub same_type_iff : (a b : TypeId) → (same_type a b ≡ true) ↔ (a ≡ b)
unfolding same_type
same_type_iff a b = ground arith

abbrev pub var_unassigned : ℕ
var_unassigned = 0

abbrev pub var_implicit_this : ℕ
var_implicit_this = 1

abbrev pub var_first : ℕ
var_first = 100

abbrev pub unassigned_method_id : ℕ
unassigned_method_id = 0

abbrev pub static_type_info_id : ℕ
static_type_info_id = 1

abbrev pub array_length_field_id : ℕ
array_length_field_id = 2
