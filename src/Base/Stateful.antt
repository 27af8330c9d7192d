-- ===== src/Base/Stateful.antt =====
-- Calls on a state that give a result or an error, and leave the state as they found or made it.
use mathlib.Core.Bool.{Bool}
use stable_bank.Base.Fallible.{Result, ok, err}
use stable_bank.Base.Tests.{if◌then◌else◌}

abbrev pub Stateful : Type 0 → Type 0 → Type 0 → Type 0
Stateful S E A = S → Result E A × S

module _ {S E : Type 0} where
  abbrev pub pure : {A : Type 0} → A → Stateful S E A
  pure a s = (ok a, s)

  abbrev pub fail : {A : Type 0} → E → Stateful S E A
  fail e s = (err e, s)

  abbrev pub gets : {A : Type 0} → (S → A) → Stateful S E A
  gets f s = (ok (f s), s)

  abbrev pub lift : {A : Type 0} → Result E A → Stateful S E A
  lift r s = (r, s)

  abbrev pub fail_when : Bool → E → Stateful S E (Unit {0})
  fail_when b e s = (if b then err e else ok tt, s)

  infixl 5 ◌>>=◌ ◌>>◌
  abbrev pub ◌>>=◌ : {A B : Type 0} → Stateful S E A → (A → Stateful S E B) → Stateful S E B
  ◌>>=◌ m f s = let (r, s') = m s in elim r [ ok a ↦ f a s' | err e ↦ (err e, s') ]

  abbrev pub ◌>>◌ : {A B : Type 0} → Stateful S E A → Stateful S E B → Stateful S E B
  m >> k = m >>= λ _. k

-- An error of a part, as an error of the whole.
abbrev pub wrap_error : {E F A : Type 0} → (E → F) → Result E A → Result F A
wrap_error f (ok a) = ok a
wrap_error f (err e) = err (f e)
