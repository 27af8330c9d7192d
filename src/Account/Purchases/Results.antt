-- ===== src/Account/Purchases/Results.antt =====
-- Reasoning about calls of internal/account/service.go: what they give, and the bank that they leave,
-- where they do not fail.
use stable_bank.Base.{◌≡◌, refl, Bool, true, false, Result, ok, err}
use stable_bank.Base.Stateful.{pure, fail, gets, lift, fail_when, ◌>>=◌, ◌>>◌, wrap_error}
use stable_bank.Ledger.Types.{LedgerError}
use stable_bank.Bank.{Bank, on_ledger}
use stable_bank.Ledger.Action.{Action}
use stable_bank.Account.Service.{AccountError, ledger_failed, Call}

-- A relation of what a call gives and of the bank afterwards, where it does not fail.
abbrev pub OnGiven : {A : Type 0} → (A → Bank → Type 0) → Result AccountError A → Bank → Type 0
OnGiven Holds (ok a) c = Holds a c
OnGiven Holds (err e) c = Unit

-- A call from one bank.
pub record From {A : Type 0} (b : Bank) (Holds : A → Bank → Type 0) (m : Call A) : Type 0 where
  pub at : OnGiven Holds (m b).0 (m b).1

-- How a call goes on after what it has been given.
abbrev follow :
    {A B : Type 0} → (A → Call B) → Result AccountError A → Bank → Result AccountError B × Bank
follow {A} {B} f r c = elim r as (λ _. Result AccountError B × Bank) [
  | ok a ↦ f a c
  | err e ↦ (err e, c)
]

module _ {B : Type 0} {Holds : B → Bank → Type 0} (b : Bank) where
  pub From-pure : (x : B) → Holds x b → From b Holds (pure x)
  From-pure x h = record { at = h }

  pub From-fail : (e : AccountError) → From b Holds (fail e)
  From-fail e = record { at = tt }

  pub From-check :
      (t : Bool) (e : AccountError) {k : Call B}
      → (t ≡ false → From b Holds k)
      → From b Holds (fail_when t e >> k)
  From-check true e h = record { at = tt }
  From-check false e h = record { at = (h refl).at }

  pub From-ledger :
      {A : Type 0} (m : Action A) {f : A → Call B}
      → ((a : A) → (m b.world).0 ≡ ok a → From (record b { world = (m b.world).1 }) Holds (f a))
      → From b Holds (on_ledger ledger_failed m >>= f)
  From-ledger {A} m {f} h = record { at = by_result (m b.world).0 h }
    where
      by_result :
          (r : Result LedgerError A)
          → ((a : A) → r ≡ ok a → From (record b { world = (m b.world).1 }) Holds (f a))
          → let after =
              follow f (wrap_error ledger_failed r) (record b { world = (m b.world).1 }) in
            OnGiven Holds after.0 after.1
      by_result (ok a) k = (k a refl).at
      by_result (err e) k = tt

  pub From-gets :
      {A : Type 0} (g : Bank → A) (f : A → Call B)
      → From b Holds (f (g b))
      → From b Holds (gets g >>= f)
  From-gets g f h = record { at = h.at }

  pub From-lift :
      {A : Type 0} (r : Result LedgerError A) {f : A → Call B}
      → ((a : A) → r ≡ ok a → From b Holds (f a))
      → From b Holds (lift (wrap_error ledger_failed r) >>= f)
  From-lift (ok a) h = record { at = (h a refl).at }
  From-lift (err e) h = record { at = tt }

  pub From-then :
      {A : Type 0} {Given : A → Bank → Type 0} {m : Call A} {f : A → Call B}
      → From b Given m
      → ((a : A) (c : Bank) → Given a c → From c Holds (f a))
      → From b Holds (m >>= f)
  From-then {A} {Given} {m} {f} g h = record { at = by_result (m b).0 (m b).1 g.at }
    where
      by_result :
          (r : Result AccountError A) (c : Bank)
          → OnGiven Given r c
          → OnGiven Holds (follow f r c).0 (follow f r c).1
      by_result (ok a) c k = (h a c k).at
      by_result (err e) c k = tt

  pub From-weaken :
      {Given : B → Bank → Type 0} {m : Call B}
      → From b Given m
      → ((x : B) (c : Bank) → Given x c → Holds x c)
      → From b Holds m
  From-weaken {Given} {m} g h = record { at = weaker (m b).0 (m b).1 g.at }
    where
      weaker : (r : Result AccountError B) (c : Bank) → OnGiven Given r c → OnGiven Holds r c
      weaker (ok x) c k = h x c k
      weaker (err e) c k = tt
