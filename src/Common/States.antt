-- ===== src/Common/States.antt =====
-- C++ code that changes an object and may throw: a computation takes the object's state and gives it
-- back, or the exception.
use mathlib.Core.Path.{◌≡◌, refl, ap}
use mathlib.Core.Bool.{Bool, true, false}
use joosc.Common.Tests.{if◌then◌else◌}
use joosc.Common.Outcomes.{Outcome, ok, thrown, check_failed, ok_injective}

abbrev pub Stateful : Type 0 → Type 0 → Type 0
Stateful S A = S → Outcome (A × S)

module _ {S : Type 0} where
  abbrev pub feed : {A B : Type 0} → (A → Stateful S B) → Outcome (A × S) → Outcome (B × S)
  feed k (ok (a, s)) = k a s
  feed k (thrown e) = thrown e

  infixl 5 ◌>>=◌ ◌>>◌
  unfoldable pub ◌>>=◌ : {A B : Type 0} → Stateful S A → (A → Stateful S B) → Stateful S B
  (m >>= k) s = feed k (m s)

  abbrev pub ◌>>◌ : {B : Type 0} → Stateful S (Unit {0}) → Stateful S B → Stateful S B
  m >> k = m >>= λ _. k

  unfoldable pub pure : {A : Type 0} → A → Stateful S A
  pure a s = ok (a, s)

  unfoldable pub check_that : (S → Bool) → Stateful S (Unit {0})
  check_that p s = if p s then ok (tt, s) else thrown check_failed

  unfoldable pub modify : (S → S) → Stateful S (Unit {0})
  modify f s = ok (tt, f s)

  unfoldable pub gets : {A : Type 0} → (S → A) → Stateful S A
  gets f s = ok (f s, s)

  -- What may throw, but leaves the state.
  unfoldable pub lift : {A : Type 0} → Outcome A → Stateful S A
  lift (ok a) s = ok (a, s)
  lift (thrown e) s = thrown e

  feed-eq-ok :
      {A B : Type 0} (k : A → Stateful S B) (o : Outcome (A × S)) {b : B} {s' : S}
      → feed k o ≡ ok (b, s')
      → (a : A) × (s1 : S) × (o ≡ ok (a, s1)) × (k a s1 ≡ ok (b, s'))
  feed-eq-ok k (ok (a, s)) h = (a, s, refl, h)
  feed-eq-ok k (thrown e) h = cc

  pub >>=-eq-ok :
      {A B : Type 0} (m : Stateful S A) (k : A → Stateful S B) (s s' : S) (b : B)
      → (m >>= k) s ≡ ok (b, s')
      → (a : A) × (s1 : S) × (m s ≡ ok (a, s1)) × (k a s1 ≡ ok (b, s'))
  unfolding ◌>>=◌
  >>=-eq-ok m k s s' b h = feed-eq-ok k (m s) h

  checked-eq-ok :
      (b : Bool) {s s' : S} {u : Unit {0}}
      → if◌then◌else◌ {A = Outcome (Unit {0} × S)} b (ok (tt, s)) (thrown check_failed) ≡ ok (u, s')
      → (b ≡ true) × (s ≡ s')
  checked-eq-ok true h = (refl, ap (λ p. p.1) (ok_injective h))
  checked-eq-ok false h = cc

  pub check_that-eq-ok :
      (p : S → Bool) (s s' : S) (u : Unit {0})
      → check_that p s ≡ ok (u, s')
      → (p s ≡ true) × (s ≡ s')
  unfolding check_that
  check_that-eq-ok p s s' u h = checked-eq-ok (p s) h

  pub lift-eq-ok :
      {A : Type 0} (o : Outcome A) (s s' : S) (a : A)
      → lift o s ≡ ok (a, s')
      → (o ≡ ok a) × (s ≡ s')
  unfolding lift
  lift-eq-ok (ok b) s s' a h =
      (ap ok (ap (λ p. p.0) (ok_injective h)), ap (λ p. p.1) (ok_injective h))
  lift-eq-ok (thrown e) s s' a h = cc

  pub modify-eq-ok : (f : S → S) (s s' : S) (u : Unit {0}) → modify f s ≡ ok (u, s') → f s ≡ s'
  unfolding modify
  modify-eq-ok f s s' u h = ap (λ p. p.1) (ok_injective h)

  pub gets-eq-ok :
      {A : Type 0} (f : S → A) (s s' : S) (a : A) → gets f s ≡ ok (a, s') → (f s ≡ a) × (s ≡ s')
  unfolding gets
  gets-eq-ok f s s' a h = (ap (λ p. p.0) (ok_injective h), ap (λ p. p.1) (ok_injective h))
