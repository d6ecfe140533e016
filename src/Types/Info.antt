-- ===== src/Types/Info.antt =====
-- types/type_info_map.h: what is known of the program's types, methods and fields. A table's map of
-- members is the list of its values in the order of their ids. Positions are left out.
use joosc.Ast.Ids.{TypeId, type_lt}
use joosc.Ast.Modifiers.{ModifierList, TypeKind}
use joosc.Common.{ℕ, Bool, true, false, not, ◌&&◌, ◌||◌, List, [], ◌∷◌, ltb}

-- `std::lexicographical_compare`.
unfoldable pub lex_lt {ℓ} : {A : Type ℓ} → (A → A → Bool) → List A → List A → Bool
lex_lt lt [] [] = false
lex_lt lt [] (b ∷ bs) = true
lex_lt lt (a ∷ as') [] = false
lex_lt lt (a ∷ as') (b ∷ bs) = lt a b || not (lt b a) && lex_lt lt as' bs

pub record MethodSignature : Type 0 where
  pub is_constructor : Bool
  pub name : List ℕ
  pub param_types : List TypeId

abbrev bool_lt : Bool → Bool → Bool
bool_lt false true = true
bool_lt _ _ = false

-- `std::tie(...) < std::tie(...)`.
unfoldable pub signature_lt : MethodSignature → MethodSignature → Bool
unfolding lex_lt type_lt
signature_lt a b =
    bool_lt a.is_constructor b.is_constructor
    || not (bool_lt b.is_constructor a.is_constructor)
      && (lex_lt ltb a.name b.name
          || not (lex_lt ltb b.name a.name) && lex_lt type_lt a.param_types b.param_types)

unfoldable pub same_signature : MethodSignature → MethodSignature → Bool
unfolding signature_lt
same_signature a b = not (signature_lt a b) && not (signature_lt b a)

pub record MethodInfo : Type 0 where
  pub mid : ℕ
  pub class_type : TypeId
  pub mods : ModifierList
  pub return_type : TypeId
  pub signature : MethodSignature
  pub parent_mid : ℕ

pub record FieldInfo : Type 0 where
  pub fid : ℕ
  pub class_type : TypeId
  pub mods : ModifierList
  pub field_type : TypeId
  pub name : List ℕ

pub record TypeInfo : Type 0 where
  pub mods : ModifierList
  pub kind : TypeKind
  pub type : TypeId
  pub name : List ℕ
  pub package_name : List ℕ
  pub extends : List TypeId
  pub implements : List TypeId
  pub methods : List MethodInfo
  pub fields : List FieldInfo
  pub top_sort_index : ℕ
