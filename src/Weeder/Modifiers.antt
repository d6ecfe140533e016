-- ===== src/Weeder/Modifiers.antt =====
-- weeder/modifier_visitor.cpp: which modifiers a declaration may have. What a visitor appends to
-- `errors_` is its result. A body is `true` where it is not `;`.
pub mod Checks
pub mod Rules
use joosc.Ast.Modifiers.{
  ModifierList, has_modifier, get_modifier_token, TypeKind, class_kind, interface_kind,
}
use joosc.Common.{
  Bool, true, false, not, ◌&&◌, ◌||◌, Option, none, some, List, [], ◌∷◌, ◌++◌, if◌then◌else◌,
  Outcome, ok, thrown, Exn, ◌>>=◌,
}
use joosc.Lexer.State.{Token}
use joosc.Lexer.TokenType.{Modifier, public, protected, abstract, static, final, native}

pub data ModifierError : Type 0 where
  interface_field interface_constructor interface_method_impl : Token → ModifierError
  interface_method_modifier interface_method_no_access_mod : Token → ModifierError
  conflicting_access_mod class_member_no_access_mod interface_no_access_mod : Token → ModifierError
  class_no_access_mod class_field_modifier class_method_empty : Token → ModifierError
  class_method_not_empty class_method_abstract_modifier : Token → ModifierError
  class_method_static_final class_method_native_not_static : Token → ModifierError
  class_modifier abstract_final_class interface_modifier : Token → ModifierError
  class_constructor_modifier class_constructor_empty : Token → ModifierError

abbrev pub Errors : Type 0
Errors = Outcome (List ModifierError)

-- One check after another.
infixl 5 ◌and_then◌
unfoldable pub ◌and_then◌ : Errors → Errors → Errors
a and_then b = a >>= λ es. b >>= λ more. ok (es ++ more)

unfoldable pub report_if : Bool → ModifierError → Errors
report_if b e = if b then ok (e ∷ []) else ok []

unfoldable pub verify_none_of : ModifierList → (Token → ModifierError) → List Modifier → Errors
unfolding has_modifier get_modifier_token
verify_none_of mods error_maker [] = ok []
verify_none_of mods error_maker (m ∷ disallowed) =
    (if has_modifier mods m
      then (get_modifier_token mods m >>= λ t. ok (error_maker t ∷ []))
      else ok [])
    and_then verify_none_of mods error_maker disallowed

unfoldable pub verify_one_of :
    ModifierList → Token → (Token → ModifierError) → List Modifier → Errors
unfolding has_modifier
verify_one_of mods token error_maker [] = ok (error_maker token ∷ [])
verify_one_of mods token error_maker (m ∷ oneof) =
    let rest = verify_one_of mods token error_maker oneof in
    if has_modifier mods m then ok [] else rest

unfoldable pub verify_no_conflicting_access_mods : ModifierList → Errors
unfolding has_modifier get_modifier_token
verify_no_conflicting_access_mods mods =
    if not (has_modifier mods public) || not (has_modifier mods protected)
    then ok []
    else get_modifier_token mods public >>= λ t. get_modifier_token mods protected >>= λ u.
        ok (conflicting_access_mod t ∷ conflicting_access_mod u ∷ [])

pub record FieldDecl : Type 0 where
  pub mods : ModifierList
  pub name_token : Token

-- A constructor has no type.
pub record MethodDecl : Type 0 where
  pub mods : ModifierList
  pub constructor : Bool
  pub name_token : Token
  pub has_body : Bool

-- `GetModifierToken` under the test that there is such a modifier.
unfoldable pub report_token_if : Bool → ModifierList → Modifier → (Token → ModifierError) → Errors
unfolding get_modifier_token
report_token_if b mods m error_maker =
    if b then (get_modifier_token mods m >>= λ t. ok (error_maker t ∷ [])) else ok []

-- `ClassModifierVisitor`.
unfoldable pub class_field : FieldDecl → Errors
class_field decl =
    verify_no_conflicting_access_mods decl.mods
    and_then verify_one_of decl.mods decl.name_token class_member_no_access_mod
        (public ∷ protected ∷ [])
    and_then verify_none_of decl.mods class_field_modifier (abstract ∷ final ∷ native ∷ [])

unfoldable pub class_body : MethodDecl → Errors
class_body decl =
    if not decl.has_body
    then report_if (not (has_modifier decl.mods abstract) && not (has_modifier decl.mods native))
        (class_method_empty decl.name_token)
    else report_if (has_modifier decl.mods abstract || has_modifier decl.mods native)
        (class_method_not_empty decl.name_token)

unfoldable pub class_method : MethodDecl → Errors
unfolding class_body
class_method decl =
    verify_no_conflicting_access_mods decl.mods
    and_then verify_one_of decl.mods decl.name_token class_member_no_access_mod
        (public ∷ protected ∷ [])
    and_then (if not decl.constructor then class_body decl else ok [])
    and_then (if decl.constructor
        then verify_none_of decl.mods class_constructor_modifier
            (abstract ∷ static ∷ final ∷ native ∷ [])
        else ok [])
    and_then report_if (decl.constructor && not decl.has_body)
        (class_constructor_empty decl.name_token)
    and_then (if not decl.constructor && has_modifier decl.mods abstract
        then verify_none_of decl.mods class_method_abstract_modifier (static ∷ final ∷ [])
        else ok [])
    and_then report_token_if
        (not decl.constructor && (has_modifier decl.mods static && has_modifier decl.mods final))
        decl.mods final class_method_static_final
    and_then report_token_if
        (not decl.constructor
          && (has_modifier decl.mods native && not (has_modifier decl.mods static)))
        decl.mods native class_method_native_not_static

-- `InterfaceModifierVisitor`.
unfoldable pub interface_field_decl : FieldDecl → Errors
interface_field_decl decl = ok (interface_field decl.name_token ∷ [])

unfoldable pub interface_method : MethodDecl → Errors
interface_method decl =
    if decl.constructor
    then ok (interface_constructor decl.name_token ∷ [])
    else verify_none_of decl.mods interface_method_modifier
        (protected ∷ static ∷ final ∷ native ∷ [])
      and_then verify_one_of decl.mods decl.name_token interface_method_no_access_mod (public ∷ [])
      and_then report_if decl.has_body (interface_method_impl decl.name_token)

pub data Member : Type 0 where
  field : FieldDecl → Member
  method : MethodDecl → Member

pub record TypeDecl : Type 0 where
  pub mods : ModifierList
  pub kind : TypeKind
  pub name_token : Token
  pub members : List Member

unfoldable pub class_member : Member → Errors
unfolding class_field class_method
class_member (field decl) = class_field decl
class_member (method decl) = class_method decl

unfoldable pub interface_member : Member → Errors
unfolding interface_field_decl interface_method
interface_member (field decl) = interface_field_decl decl
interface_member (method decl) = interface_method decl

-- `visitor.Rewrite(declptr)`, which visits the members in turn.
unfoldable pub each_member : (Member → Errors) → List Member → Errors
each_member visit [] = ok []
each_member visit (m ∷ members) = visit m and_then each_member visit members

-- `ModifierVisitor`, on the declaration's kind.
unfoldable pub type_decl_of : TypeKind → TypeDecl → Errors
unfolding each_member
type_decl_of class_kind decl =
    verify_none_of decl.mods class_modifier (protected ∷ static ∷ native ∷ [])
    and_then verify_one_of decl.mods decl.name_token class_no_access_mod (public ∷ [])
    and_then report_if (has_modifier decl.mods abstract && has_modifier decl.mods final)
        (abstract_final_class decl.name_token)
    and_then each_member class_member decl.members
type_decl_of interface_kind decl =
    verify_none_of decl.mods interface_modifier (protected ∷ static ∷ final ∷ native ∷ [])
    and_then verify_one_of decl.mods decl.name_token interface_no_access_mod (public ∷ [])
    and_then each_member interface_member decl.members

unfoldable pub type_decl : TypeDecl → Errors
unfolding type_decl_of
type_decl decl = type_decl_of decl.kind decl
