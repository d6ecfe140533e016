-- ===== src/Ast/Modifiers.antt =====
-- ast/ast.h: `ModifierList` and `TypeKind`. A token of the list that is no modifier, which stands where
-- there is none, is `none`.
use joosc.Common.{Bool, true, false, Option, none, some, Outcome, ok, thrown, Exn}
use joosc.Lexer.State.{Token}
use joosc.Lexer.TokenType.{Modifier}

abbrev pub ModifierList : Type 0
ModifierList = Modifier → Option Token

abbrev pub is_some : Option Token → Bool
is_some (some t) = true
is_some none = false

unfoldable pub has_modifier : ModifierList → Modifier → Bool
has_modifier mods m = is_some (mods m)

unfoldable pub get_modifier_token : ModifierList → Modifier → Outcome Token
get_modifier_token mods m = elim (mods m) [ some t ↦ ok t | none ↦ thrown Exn.check_failed ]

pub data TypeKind : Type 0 where
  class_kind interface_kind : TypeKind
