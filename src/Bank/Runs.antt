-- ===== src/Bank/Runs.antt =====
-- A call of a service of the bank runs through steps of the ledger (internal/ledger/service.go).
use stable_bank.Base.{String, Bool, true, false, Result, ok, err, if◌then◌else◌}
use stable_bank.Base.Stateful.{Stateful, pure, fail, gets, lift, fail_when, ◌>>=◌}
use stable_bank.Value.{Fields}
use stable_bank.Ledger.Types.{LedgerError}
use stable_bank.Ledger.Action.{World, Env, Action}
use stable_bank.Ledger.Sync.{InSync}
use stable_bank.Ledger.Steps.{Steps, here, Steps-trans}
use stable_bank.Ledger.Steps.Sync.{Steps-InSync}
use stable_bank.Ledger.Steps.Runs.{Runs}
use stable_bank.Rules.Documents.{RuleError}
use stable_bank.Bank.{BankEnv, world_of, on_ledger, on_rules}

-- From a ledger in sync the call goes through steps of the ledger, whether it succeeds or fails;
-- `world` is the ledger in the state.
pub record Follows (env : Env) {S E : Type 0} (world : S → World) {A : Type 0} (m : Stateful S E A)
    : Type 0 where
  pub at : (s : S) → InSync (world s) → Steps env (world s) (world (m s).1)

module _ {env : Env} {S E : Type 0} {world : S → World} where
  pub Follows-pure : {A : Type 0} (a : A) → Follows env {E = E} world (pure a)
  Follows-pure a = record { at = λ s h. here }

  pub Follows-fail : {A : Type 0} (e : E) → Follows env world {A = A} (fail e)
  Follows-fail e = record { at = λ s h. here }

  pub Follows-gets : {A : Type 0} (f : S → A) → Follows env {E = E} world (gets f)
  Follows-gets f = record { at = λ s h. here }

  pub Follows-lift : {A : Type 0} (r : Result E A) → Follows env world (lift r)
  Follows-lift r = record { at = λ s h. here }

  pub Follows-fail_when : (b : Bool) (e : E) → Follows env world (fail_when b e)
  Follows-fail_when b e = record { at = λ s h. here }

  pub Follows-bind :
      {A B : Type 0} {m : Stateful S E A} {f : A → Stateful S E B}
      → Follows env world m
      → ((a : A) → Follows env world (f a))
      → Follows env world (m >>= f)
  Follows-bind {A} {B} {m} {f} rm rf = record {
    at = λ s h. by_result s (m s).0 (m s).1 (rm.at s h) (Steps-InSync (rm.at s h) h);
  }
    where
      by_result :
          (s : S) (r : Result E A) (t : S)
          → Steps env (world s) (world t)
          → InSync (world t)
          → Steps env
              (world s)
              (world (elim r as (λ _. Result E B × S) [ ok a ↦ f a t | err e ↦ (err e, t) ]).1)
      by_result s (ok a) t st h = Steps-trans st ((rf a).at t h)
      by_result s (err x) t st h = st

  pub Follows-if :
      {A : Type 0} (b : Bool) {m n : Stateful S E A}
      → Follows env world m
      → Follows env world n
      → Follows env world (if b then m else n)
  Follows-if true p q = p
  Follows-if false p q = q

  pub ruleset follows_rules = (
    Follows-pure, Follows-fail, Follows-gets, Follows-lift, Follows-fail_when, Follows-bind,
    Follows-if,
  )

-- The calls of the ledger and of the rules engine.
module _ {env : Env} {E : Type 0} where
  pub Follows-on_ledger :
      {A : Type 0} (wrap : LedgerError → E) {m : Action A}
      → Runs env m
      → Follows env world_of (on_ledger wrap m)
  Follows-on_ledger wrap r = record { at = λ b h. r.at b.world h }

  pub Follows-on_rules :
      (wrap : RuleError → E) (bank : BankEnv) (id kind entity : String) (input : Fields)
      → Follows env world_of (on_rules wrap bank id kind entity input)
  Follows-on_rules wrap bank id kind entity input = record { at = λ b h. here }
