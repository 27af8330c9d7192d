-- ===== src/Base/Fallible.antt =====
-- The result of Go code that returns a value and an error.
use mathlib.Core.Path.{◌≡◌, refl}
use mathlib.Core.Logic.{◌⊎◌, inl, inr}
use mathlib.Core.Bool.{Bool, true, false}

pub data Result (E : Type 0) (A : Type 0) : Type 0 where
  ok : A → Result E A
  err : E → Result E A

module _ {E : Type 0} where
  infixl 5 ◌>>=◌ ◌>>◌
  abbrev pub ◌>>=◌ : {A B : Type 0} → Result E A → (A → Result E B) → Result E B
  ok a >>= f = f a
  err e >>= f = err e

  abbrev pub ◌>>◌ : {B : Type 0} → Result E (Unit {0}) → Result E B → Result E B
  m >> k = m >>= λ _. k

  -- `if bad { return err }`.
  abbrev pub fail_if : Bool → E → Result E (Unit {0})
  fail_if true e = err e
  fail_if false e = ok tt

  pub Result-cases :
      {A : Type 0} (r : Result E A) → ((a : A) × (r ≡ ok a)) ⊎ ((e : E) × (r ≡ err e))
  Result-cases (ok a) = inl (a, refl)
  Result-cases (err e) = inr (e, refl)

  -- A predicate on the value of a result that has one.
  abbrev pub OnOk : {A : Type 0} → (A → Type 0) → Result E A → Type 0
  OnOk Holds (ok a) = Holds a
  OnOk Holds (err e) = Unit

  pub OnOk-bind :
      {A B : Type 0} (Holds : B → Type 0) (m : Result E A) (f : A → Result E B)
      → ((a : A) → m ≡ ok a → OnOk Holds (f a))
      → OnOk Holds (m >>= f)
  OnOk-bind Holds (ok a) f h = h a refl
  OnOk-bind Holds (err e) f h = tt
