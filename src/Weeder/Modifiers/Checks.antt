-- ===== src/Weeder/Modifiers/Checks.antt =====
-- What each of the checks that the modifier visitors share decides.
use joosc.Common.{
  ◌≡◌, refl, Bool, true, false, not, ◌&&◌, ◌||◌, Option, none, some, List, [], ◌∷◌, ◌++◌,
  if◌then◌else◌, ok, thrown, Exn, ◌>>=◌,
}
use joosc.Lexer.State.{Token}
use joosc.Lexer.TokenType.{Modifier, public, protected}
use joosc.Ast.Modifiers.{ModifierList, is_some, has_modifier}
use joosc.Weeder.Modifiers.{
  ModifierError, Errors, ◌and_then◌, report_if, report_token_if, verify_none_of, verify_one_of,
  verify_no_conflicting_access_mods,
}

abbrev pub is_empty_list : List ModifierError → Bool
is_empty_list [] = true
is_empty_list (e ∷ es) = false

-- The check fails no `CHECK`, and reports no error exactly if the rule holds.
abbrev pub Decides : Errors → Bool → Type 0
Decides o rule = (es : List ModifierError) × (o ≡ ok es) × (is_empty_list es ≡ rule)

append-is_empty_list :
    (xs ys : List ModifierError) → is_empty_list (xs ++ ys) ≡ (is_empty_list xs && is_empty_list ys)
append-is_empty_list [] ys = refl
append-is_empty_list (x ∷ xs) ys = refl

pub and_then-Decides :
    {a b : Errors} {p q : Bool} → Decides a p → Decides b q → Decides (a and_then b) (p && q)
unfolding ◌and_then◌
and_then-Decides (es, ran, holds) (fs, ran', holds') =
    (es ++ fs, rw (ran, ran', ◌and_then◌) refl, rw (append-is_empty_list es fs, holds, holds') refl)

pub if-Decides :
    (c : Bool) {a b : Errors} {p q : Bool}
    → Decides a p
    → Decides b q
    → Decides (if c then a else b) (if c then p else q)
if-Decides true x y = x
if-Decides false x y = y

pub nothing-Decides : Decides (ok []) true
nothing-Decides = ([], refl, refl)

pub report_if-Decides : (b : Bool) (e : ModifierError) → Decides (report_if b e) (not b)
unfolding report_if
report_if-Decides true e = (e ∷ [], refl, refl)
report_if-Decides false e = ([], refl, refl)

known-Decides :
    (o : Option Token) (f : Token → ModifierError)
    → is_some o ≡ true
    → Decides
        (elim o [ some t ↦ ok t | none ↦ thrown Exn.check_failed ] >>= λ t. ok (f t ∷ []))
        false
known-Decides none f h = cc
known-Decides (some t) f h = (f t ∷ [], refl, refl)

pub report_token_if-Decides :
    (b : Bool) (mods : ModifierList) (m : Modifier) (f : Token → ModifierError)
    → (b ≡ true → has_modifier mods m ≡ true)
    → Decides (report_token_if b mods m f) (not b)
unfolding report_token_if has_modifier
report_token_if-Decides true mods m f h = known-Decides (mods m) f (h refl)
report_token_if-Decides false mods m f h = ([], refl, refl)

-- None of the modifiers is there.
abbrev pub none_of : ModifierList → List Modifier → Bool
none_of mods [] = true
none_of mods (m ∷ ms) = not (has_modifier mods m) && none_of mods ms

abbrev pub one_of : ModifierList → List Modifier → Bool
one_of mods [] = false
one_of mods (m ∷ ms) = has_modifier mods m || one_of mods ms

token-Decides :
    (o : Option Token) (f : Token → ModifierError)
    → Decides
        (if is_some o
          then (elim o [ some t ↦ ok t | none ↦ thrown Exn.check_failed ] >>= λ t. ok (f t ∷ []))
          else ok [])
        (not (is_some o))
token-Decides none f = ([], refl, refl)
token-Decides (some t) f = (f t ∷ [], refl, refl)

pub verify_none_of-Decides :
    (mods : ModifierList) (f : Token → ModifierError) (ms : List Modifier)
    → Decides (verify_none_of mods f ms) (none_of mods ms)
unfolding verify_none_of
verify_none_of-Decides mods f [] = ([], refl, refl)
verify_none_of-Decides mods f (m ∷ ms) =
    and_then-Decides (token-Decides (mods m) f) (verify_none_of-Decides mods f ms)

pub verify_one_of-Decides :
    (mods : ModifierList) (t : Token) (f : Token → ModifierError) (ms : List Modifier)
    → Decides (verify_one_of mods t f ms) (one_of mods ms)
unfolding verify_one_of
verify_one_of-Decides mods t f [] = (f t ∷ [], refl, refl)
verify_one_of-Decides mods t f (m ∷ ms) =
    elim (has_modifier mods m)
      as (λ b. Decides (if b then ok [] else verify_one_of mods t f ms) (b || one_of mods ms)) [
        | true ↦ ([], refl, refl)
        | false ↦ verify_one_of-Decides mods t f ms
      ]

-- `has_modifier` on what the list holds for two modifiers.
both-Decides :
    (o p : Option Token) (f : Token → ModifierError)
    → Decides
        (if not (is_some o) || not (is_some p)
          then ok []
          else elim o [ some t ↦ ok t | none ↦ thrown Exn.check_failed ] >>= λ t.
              elim p [ some u ↦ ok u | none ↦ thrown Exn.check_failed ] >>= λ u.
              ok (f t ∷ f u ∷ []))
        (not (is_some o) || not (is_some p))
both-Decides none p f = ([], refl, refl)
both-Decides (some t) none f = ([], refl, refl)
both-Decides (some t) (some u) f = (f t ∷ f u ∷ [], refl, refl)

pub conflicts-Decides :
    (mods : ModifierList)
    → Decides
        (verify_no_conflicting_access_mods mods)
        (not (has_modifier mods public) || not (has_modifier mods protected))
unfolding verify_no_conflicting_access_mods
conflicts-Decides mods =
    both-Decides (mods public) (mods protected) ModifierError.conflicting_access_mod
