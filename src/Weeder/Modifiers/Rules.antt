-- ===== src/Weeder/Modifiers/Rules.antt =====
-- weeder/modifier_visitor.cpp beside the rules that the comments of weeder/modifier_visitor.h number.
use joosc.Common.{
  ◌≡◌, refl, ◌∙◌, Bool, true, false, not, ◌&&◌, ◌||◌, List, [], ◌∷◌, if◌then◌else◌, arith, all,
}
use joosc.Lexer.TokenType.{public, protected, abstract, static, final, native}
use joosc.Ast.Modifiers.{ModifierList, has_modifier, TypeKind}
use joosc.Weeder.Modifiers.{
  ModifierError, Errors, FieldDecl, MethodDecl, class_field, class_body, class_method,
  interface_field_decl, interface_method, Member, TypeDecl, class_member, interface_member,
  each_member, type_decl_of, type_decl,
}
use joosc.Weeder.Modifiers.Checks.{
  Decides, and_then-Decides, if-Decides, nothing-Decides, report_if-Decides,
  report_token_if-Decides, verify_none_of-Decides, verify_one_of-Decides, conflicts-Decides,
}

-- A member is public or protected, and not both.
abbrev pub one_access : ModifierList → Bool
one_access mods =
    (has_modifier mods public || has_modifier mods protected)
    && not (has_modifier mods public && has_modifier mods protected)

-- No field is final, abstract or native.
abbrev pub field_rules : FieldDecl → Bool
field_rules d =
    one_access d.mods
    && not (has_modifier d.mods final || has_modifier d.mods abstract || has_modifier d.mods native)

-- A constructor has a body and is not abstract, static, final or native. Another method has a body if
-- and only if it is neither abstract nor native; an abstract method is not static or final, a static
-- one not final, and a native one static.
abbrev pub method_rules : MethodDecl → Bool
method_rules d =
    one_access d.mods
    && (if d.constructor
        then d.has_body
          && not (
              has_modifier d.mods abstract
              || has_modifier d.mods static
              || has_modifier d.mods final
              || has_modifier d.mods native)
        else (if has_modifier d.mods abstract || has_modifier d.mods native
            then not d.has_body
            else d.has_body)
          && not (
              has_modifier d.mods abstract
              && (has_modifier d.mods static || has_modifier d.mods final))
          && not (has_modifier d.mods static && has_modifier d.mods final)
          && (not (has_modifier d.mods native) || has_modifier d.mods static))

-- The rule is another way to write the test.
rule : {o : Errors} {p q : Bool} → Decides o p → p ≡ q → Decides o q
rule (es, ran, holds) same = (es, ran, holds ∙ same)

field_test :
    (u p a f n : Bool)
    → ((not u || not p) && (u || (p || false)) && (not a && (not f && (not n && true))))
      ≡ ((u || p) && not (u && p) && not (f || a || n))
field_test u p a f n = ground arith

class_field-Decides : (d : FieldDecl) → Decides (class_field d) (field_rules d)
unfolding class_field
class_field-Decides d =
    rule
      (and_then-Decides
        (and_then-Decides (conflicts-Decides d.mods)
          (verify_one_of-Decides d.mods d.name_token _ _))
        (verify_none_of-Decides d.mods _ _))
      (field_test (has_modifier d.mods public) (has_modifier d.mods protected)
        (has_modifier d.mods abstract) (has_modifier d.mods final) (has_modifier d.mods native))

class_body-Decides :
    (d : MethodDecl)
    → Decides (class_body d) (
        if has_modifier d.mods abstract || has_modifier d.mods native
        then not d.has_body
        else d.has_body)
unfolding class_body
class_body-Decides d =
    rule (if-Decides (not d.has_body) (report_if-Decides _ _) (report_if-Decides _ _))
      (body_test d.has_body (has_modifier d.mods abstract) (has_modifier d.mods native))
  where
    body_test :
        (b a n : Bool)
        → (if not b then not (not a && not n) else not (a || n)) ≡ (if a || n then not b else b)
    body_test b a n = ground arith

second : (c p q : Bool) → (not c && (p && q)) ≡ true → q ≡ true
second c p q h = ground arith

first : (c p q : Bool) → (not c && (p && q)) ≡ true → p ≡ true
first c p q h = ground arith

method_test :
    (u p c b a s f n r : Bool)
    → ((not u || not p)
        && (u || (p || false))
        && (if not c then r else true)
        && (if c then not a && (not s && (not f && (not n && true))) else true)
        && not (c && not b)
        && (if not c && a then not s && (not f && true) else true)
        && not (not c && (s && f))
        && not (not c && (n && not s)))
      ≡ ((u || p)
          && not (u && p)
          && (if c
              then b && not (a || s || f || n)
              else r && not (a && (s || f)) && not (s && f) && (not n || s)))
method_test u p c b a s f n r = ground arith

class_method-Decides : (d : MethodDecl) → Decides (class_method d) (method_rules d)
unfolding class_method
class_method-Decides d =
    rule
      (and_then-Decides
        (and_then-Decides
          (and_then-Decides
            (and_then-Decides
              (and_then-Decides
                (and_then-Decides
                  (and_then-Decides (conflicts-Decides d.mods)
                    (verify_one_of-Decides d.mods d.name_token _ _))
                  (if-Decides (not d.constructor) (class_body-Decides d) nothing-Decides))
                (if-Decides d.constructor (verify_none_of-Decides d.mods _ _) nothing-Decides))
              (report_if-Decides _ _))
            (if-Decides (not d.constructor && has_modifier d.mods abstract)
              (verify_none_of-Decides d.mods _ _) nothing-Decides))
          (report_token_if-Decides _ d.mods final _
            (second d.constructor (has_modifier d.mods static) (has_modifier d.mods final))))
        (report_token_if-Decides _ d.mods native _
          (first d.constructor (has_modifier d.mods native) (not (has_modifier d.mods static)))))
      (method_test (has_modifier d.mods public) (has_modifier d.mods protected) d.constructor
        d.has_body (has_modifier d.mods abstract) (has_modifier d.mods static)
        (has_modifier d.mods final) (has_modifier d.mods native) _)

-- An interface method is no constructor, is public, has no body, and is not protected, static, final
-- or native.
abbrev pub interface_method_rules : MethodDecl → Bool
interface_method_rules d =
    not d.constructor
    && has_modifier d.mods public
    && not d.has_body
    && not (
        has_modifier d.mods protected
        || has_modifier d.mods static
        || has_modifier d.mods final
        || has_modifier d.mods native)

interface_test :
    (c u b p s f n : Bool)
    → (if c
        then false
        else (not p && (not s && (not f && (not n && true)))) && (u || false) && not b)
      ≡ (not c && u && not b && not (p || s || f || n))
interface_test c u b p s f n = ground arith

interface_method-Decides :
    (d : MethodDecl) → Decides (interface_method d) (interface_method_rules d)
unfolding interface_method
interface_method-Decides d =
    rule
      (if-Decides d.constructor (ModifierError.interface_constructor d.name_token ∷ [], refl, refl)
        (and_then-Decides
          (and_then-Decides (verify_none_of-Decides d.mods _ _)
            (verify_one_of-Decides d.mods d.name_token _ _))
          (report_if-Decides _ _)))
      (interface_test d.constructor (has_modifier d.mods public) d.has_body
        (has_modifier d.mods protected) (has_modifier d.mods static) (has_modifier d.mods final)
        (has_modifier d.mods native))

abbrev pub class_member_rules : Member → Bool
class_member_rules (Member.field d) = field_rules d
class_member_rules (Member.method d) = method_rules d

-- An interface has no fields.
abbrev pub interface_member_rules : Member → Bool
interface_member_rules (Member.field d) = false
interface_member_rules (Member.method d) = interface_method_rules d

class_member-Decides : (m : Member) → Decides (class_member m) (class_member_rules m)
unfolding class_member
class_member-Decides (Member.field d) = class_field-Decides d
class_member-Decides (Member.method d) = class_method-Decides d

interface_member-Decides : (m : Member) → Decides (interface_member m) (interface_member_rules m)
unfolding interface_member interface_field_decl
interface_member-Decides (Member.field d) =
    (ModifierError.interface_field d.name_token ∷ [], refl, refl)
interface_member-Decides (Member.method d) = interface_method-Decides d

each_member-Decides :
    (visit : Member → Errors) (rules : Member → Bool)
    → ((m : Member) → Decides (visit m) (rules m))
    → (ms : List Member) → Decides (each_member visit ms) (all rules ms)
unfolding each_member
each_member-Decides visit rules each [] = ([], refl, refl)
each_member-Decides visit rules each (m ∷ ms) =
    and_then-Decides (each m) (each_member-Decides visit rules each ms)

-- A class is public, not protected, static or native, and not both abstract and final. An interface is
-- public, and not protected, static, final or native.
abbrev pub type_rules : TypeKind → TypeDecl → Bool
type_rules TypeKind.class_kind d =
    has_modifier d.mods public
    && not
        (has_modifier d.mods protected || has_modifier d.mods static || has_modifier d.mods native)
    && (not (has_modifier d.mods abstract && has_modifier d.mods final)
        && all class_member_rules d.members)
type_rules TypeKind.interface_kind d =
    has_modifier d.mods public
    && not
        (has_modifier d.mods protected || has_modifier d.mods static || has_modifier d.mods native)
    && (not (has_modifier d.mods final) && all interface_member_rules d.members)

class_test :
    (u p s n a f r : Bool)
    → ((not p && (not s && (not n && true))) && (u || false) && not (a && f) && r)
      ≡ (u && not (p || s || n) && (not (a && f) && r))
class_test u p s n a f r = ground arith

interface_decl_test :
    (u p s f n r : Bool)
    → ((not p && (not s && (not f && (not n && true)))) && (u || false) && r)
      ≡ (u && not (p || s || n) && (not f && r))
interface_decl_test u p s f n r = ground arith

type_decl_of-Decides : (k : TypeKind) (d : TypeDecl) → Decides (type_decl_of k d) (type_rules k d)
unfolding type_decl_of
type_decl_of-Decides TypeKind.class_kind d =
    rule
      (and_then-Decides
        (and_then-Decides
          (and_then-Decides (verify_none_of-Decides d.mods _ _)
            (verify_one_of-Decides d.mods d.name_token _ _))
          (report_if-Decides _ _))
        (each_member-Decides class_member class_member_rules class_member-Decides d.members))
      (class_test (has_modifier d.mods public) (has_modifier d.mods protected)
        (has_modifier d.mods static) (has_modifier d.mods native) (has_modifier d.mods abstract)
        (has_modifier d.mods final) _)
type_decl_of-Decides TypeKind.interface_kind d =
    rule
      (and_then-Decides
        (and_then-Decides (verify_none_of-Decides d.mods _ _)
          (verify_one_of-Decides d.mods d.name_token _ _))
        (each_member-Decides interface_member interface_member_rules interface_member-Decides
          d.members))
      (interface_decl_test (has_modifier d.mods public) (has_modifier d.mods protected)
        (has_modifier d.mods static) (has_modifier d.mods final) (has_modifier d.mods native) _)

-- The weeder fails no check on a declaration's modifiers, and reports no error exactly if the
-- declaration and each of its members keep the rules of classes, or of interfaces.
pub type_decl-Decides : (d : TypeDecl) → Decides (type_decl d) (type_rules d.kind d)
unfolding type_decl
type_decl-Decides d = type_decl_of-Decides d.kind d
