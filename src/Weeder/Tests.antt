-- ===== src/Weeder/Tests.antt =====
-- The weeder on a small class, and on integers.
use joosc.Common.{◌^◌, ◌<◌, ◌↔◌, codes, arith}
use joosc.Types.Folding.Decimal.{read}
use joosc.Types.Folding.Words.{digits, magnitude, negative}
use joosc.Weeder.IntRange.{convert_int, convert_int-magnitude, limit, convert_int-limit}
use joosc.Common.{◌≡◌, refl, false, none, some, [], ◌∷◌, ok}
use joosc.Lexer.State.{Token}
use joosc.Lexer.TokenType.{TokenType, Modifier}
use joosc.Ast.Modifiers.{ModifierList, TypeKind, has_modifier}
use joosc.Weeder.Modifiers.{
  ModifierError, Member, TypeDecl, type_decl, verify_none_of, verify_one_of,
  verify_no_conflicting_access_mods, report_if, report_token_if, ◌and_then◌, class_member,
}
use joosc.Weeder.Modifiers.Checks.{Decides}
use joosc.Weeder.Modifiers.Rules.{type_rules, type_decl-Decides}

abbrev token : Token
token = record { type = TokenType.k_public; pos = record { fileid = 0; begin = 0; end = 6 } }

abbrev only_public : ModifierList
only_public Modifier.public = some token
only_public _ = none

-- A class with one method that has no body.
abbrev decl : TypeDecl
decl = record {
  mods = only_public;
  kind = TypeKind.class_kind;
  name_token = token;
  members =
      Member.method
        (record { mods = only_public; constructor = false; name_token = token; has_body = false })
      ∷ [];
}

decl-errors : type_decl decl ≡ ok (ModifierError.class_method_empty token ∷ [])
unfolding type_decl class_member has_modifier verify_none_of verify_one_of
    verify_no_conflicting_access_mods report_if report_token_if ◌and_then◌
decl-errors = refl

type_decl-Decides_example : Decides (type_decl decl) (type_rules TypeKind.class_kind decl)
type_decl-Decides_example = type_decl-Decides decl

-- The magnitude of the smallest `int`, which only a minus sign admits.
convert_int-magnitude_example :
    convert_int (digits 10 (magnitude (2 ^ 31)) []) (negative (2 ^ 31)) ≡ some (2 ^ 31)
convert_int-magnitude_example = convert_int-magnitude (2 ^ 31) (omega arith)

convert_int-limit_example :
    (convert_int (codes "2147483648") false ≡ none) ↔ (limit false < read 0 (codes "2147483648"))
convert_int-limit_example = convert_int-limit (codes "2147483648") false

too_large : convert_int (codes "2147483648") false ≡ none
unfolding convert_int
too_large = refl
