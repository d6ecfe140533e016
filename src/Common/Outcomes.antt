-- ===== src/Common/Outcomes.antt =====
-- C++ code that may throw: a value, or the exception that leaves the function.
use mathlib.Core.Path.{◌≡◌, refl}
use mathlib.Core.Bool.{Bool, true, false}

-- The ways the modelled code throws: a failed `CHECK`, `UNREACHABLE()` or range assertion, a
-- thrown string, fuel that ran out (of the model, never of the program), and undefined behaviour.
pub data Exn : Type 0 where
  check_failed unreachable out_of_range : Exn
  weird_state no_progress partial_lexeme bad_identifier : Exn
  out_of_fuel undefined : Exn

pub data Outcome {ℓ} (A : Type ℓ) : Type ℓ where
  ok : A → Outcome A
  thrown : Exn → Outcome A

infixl 5 ◌>>=◌ ◌>>◌
abbrev pub ◌>>=◌ {ℓ κ} : {A : Type ℓ} {B : Type κ} → Outcome A → (A → Outcome B) → Outcome B
ok a >>= f = f a
thrown e >>= f = thrown e

abbrev pub ◌>>◌ {ℓ} : {B : Type ℓ} → Outcome (Unit {0}) → Outcome B → Outcome B
m >> k = m >>= λ _. k

-- The macro `CHECK(cond)`.
abbrev pub check : Bool → Outcome (Unit {0})
check true = ok tt
check false = thrown check_failed

pub ok_injective {ℓ} : {A : Type ℓ} {a b : A} → ok a ≡ ok b → a ≡ b
ok_injective h = cc

-- Both parts of a sequence that gave a value gave one.
module _ {ℓ κ} {V : Type ℓ} {W : Type κ} where
  pub >>=-eq-ok :
      (first : Outcome V) (next : V → Outcome W) {w : W}
      → first >>= next ≡ ok w
      → (v : V) × (first ≡ ok v) × (next v ≡ ok w)
  >>=-eq-ok (thrown e) next stopped = cc
  >>=-eq-ok (ok v) next passed = (v, refl, passed)
