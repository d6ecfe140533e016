-- ===== src/Types/Folding/Steady/Collected.antt =====
-- types/constant_folding.cpp: the string map after a sequence of expressions, as `Rewrite` meets
-- them in a program.
use joosc.Ast.Ids.{TypeId}
use joosc.Ast.Tree.{Expr}
use joosc.Common.{ℕ, ◌<◌, ◌≡◌, sym, subst, ◌∙◌, some, List, [], ◌∷◌, ok}
use joosc.Types.Folding.{JString, StringMap, no_strings, Folding, ◌>>=◌, pure, find, rewrite}
use joosc.Types.Folding.Ids.{Numbered, none_yet, find-bound, find_injective, find_onto}
use joosc.Types.Folding.Steady.{
  Separates, finish-state, rewrite-Separates, bind-Separates, lift-Separates,
}

-- The ids are the numbers below `next_string_id`, each the id of exactly one string.
pub record OneEach (s : StringMap) : Type 0 where
  pub bound : (str : JString) (id : ℕ) → find str s.entries ≡ some id → id < s.next_string_id
  pub injective :
      (str1 str2 : JString) (id : ℕ)
      → find str1 s.entries ≡ some id
      → find str2 s.entries ≡ some id
      → str1 ≡ str2
  pub onto : (id : ℕ) → id < s.next_string_id → (str : JString) × (find str s.entries ≡ some id)

Numbered-OneEach : (s : StringMap) → Numbered s.entries s.next_string_id → OneEach s
Numbered-OneEach s nums = record {
  bound = find-bound nums;
  injective = find_injective nums;
  onto = find_onto nums;
}

module _ (string_type : TypeId) where
  -- The expressions of a program, one after the other.
  unfoldable pub rewrite_each : List Expr → Folding (List Expr)
  unfolding rewrite
  rewrite_each [] = pure []
  rewrite_each (e ∷ es) = do e' ← rewrite string_type e; es' ← rewrite_each es; pure (e' ∷ es')

  rewrite_each-Separates : (es : List Expr) → Separates (rewrite_each es)
  unfolding rewrite_each
  rewrite_each-Separates [] = lift-Separates _
  rewrite_each-Separates (e ∷ es) =
      bind-Separates _ _ (rewrite-Separates string_type e)
        λ e'. bind-Separates _ _ (rewrite_each-Separates es) λ es'. lift-Separates _

  -- Where rewriting a sequence of expressions, from no strings, gives a result, the ids of the
  -- collected strings are exactly the numbers below `next_string_id`, each the id of one string.
  pub rewrite_each-OneEach :
      (es es' : List Expr) (s : StringMap) → rewrite_each es no_strings ≡ ok (es', s) → OneEach s
  rewrite_each-OneEach es es' s h =
      let (r, g, grows, same) = rewrite_each-Separates es in
      let last = finish-state r (g no_strings) s es' (sym (same no_strings) ∙ h) in
      subst OneEach last (Numbered-OneEach (g no_strings) (grows no_strings none_yet).0)
