-- ===== src/Common/Ends.antt =====
-- What a stateful computation ends in, where it does not throw: one rule for each way to build it.
use mathlib.Core.Path.{◌≡◌, subst}
use mathlib.Core.Bool.{Bool, true}
use joosc.Common.Outcomes.{Outcome, ok, ok_injective}
use joosc.Common.States.{
  Stateful, ◌>>=◌, pure, check_that, modify, gets, lift, >>=-eq-ok, check_that-eq-ok, lift-eq-ok,
  modify-eq-ok,
}

module _ {S A : Type 0} where
  -- From `s`, a value and a state that `m` gives satisfy `Q`.
  pub record Ends (m : Stateful S A) (s : S) (Q : A → S → Type 0) : Type 0 where
    pub at_end : (a : A) (s' : S) → m s ≡ ok (a, s') → Q a s'

  pub Ends-pure : (a : A) (s : S) (Q : A → S → Type 0) → Q a s → Ends (pure a) s Q
  unfolding pure
  Ends-pure a s Q h = record { at_end = λ b s' e. subst (λ p. Q p.0 p.1) (ok_injective e) h }

  pub Ends-gets : (f : S → A) (s : S) (Q : A → S → Type 0) → Q (f s) s → Ends (gets f) s Q
  unfolding gets
  Ends-gets f s Q h = record { at_end = λ b s' e. subst (λ p. Q p.0 p.1) (ok_injective e) h }

  pub Ends-lift :
      (o : Outcome A) (s : S) (Q : A → S → Type 0)
      → ((a : A) → o ≡ ok a → Q a s)
      → Ends (lift o) s Q
  Ends-lift o s Q h = record {
    at_end = λ a s' e. let (e1, e2) = lift-eq-ok o s s' a e in subst (Q a) e2 (h a e1);
  }

module _ {S : Type 0} where
  pub Ends-modify :
      (f : S → S) (s : S) (Q : Unit {0} → S → Type 0) → Q tt (f s) → Ends (modify f) s Q
  Ends-modify f s Q h = record { at_end = λ u s' e. subst (Q u) (modify-eq-ok f s s' u e) h }

  pub Ends-check_that :
      (p : S → Bool) (s : S) (Q : Unit {0} → S → Type 0)
      → (p s ≡ true → Q tt s)
      → Ends (check_that p) s Q
  Ends-check_that p s Q h = record {
    at_end = λ u s' e. let (e1, e2) = check_that-eq-ok p s s' u e in subst (Q u) e2 (h e1);
  }

module _ {S A B : Type 0} where
  pub Ends->>= :
      (m : Stateful S A) (k : A → Stateful S B) (s : S) (Q : B → S → Type 0)
      → Ends m s (λ a s1. Ends (k a) s1 Q)
      → Ends (m >>= k) s Q
  Ends->>= m k s Q h = record {
    at_end =
        λ b s' e. let (a, s1, e1, e2) = >>=-eq-ok m k s s' b e in (h.at_end a s1 e1).at_end b s' e2;
  }
