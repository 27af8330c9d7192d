-- ===== src/Ledger/Steps/Runs.antt =====
-- Every method of ledger.Service (internal/ledger/service.go) runs through steps.
use stable_bank.Base.{
  ◌≡◌, refl, String, Bool, true, false, Option, List, [], ◌∷◌, inl, inr, arith, str_eq, Result, ok,
  err, Bool-cases, Option-cases, Result-cases, if◌then◌else◌,
}
use stable_bank.Base.Int.{ℤ}
use stable_bank.Base.Dict.{lookup}
use stable_bank.Ledger.Types.{
  Account, Transaction, Status, pending, settled, final, currency_of, LedgerError,
}
use stable_bank.Ledger.Projection.{event_tx_settled, event_tx_finalized}
use stable_bank.Ledger.Action.{
  World, Env, Action, pure, gets, lift, or_fail, fail_when, refresh, ◌>>=◌,
}
use stable_bank.Ledger.Accounts.{open_account, ensure_accounts, ensure_system_accounts}
use stable_bank.Ledger.Posting.{
  validate, post, prepared, settle, finalize, post_and_finalize, same_status, seed_capital,
  seed_refreshed,
}
use stable_bank.Ledger.Sync.{InSync, refresh-InSync}
use stable_bank.Ledger.Steps.{opens, posts, settles, finalizes, Steps, here, Steps-trans, Steps-one}
use stable_bank.Ledger.Steps.Calls.{
  post-refused, post-accepted, transition-missing, transition-refused, transition-accepted,
  open_account-no_id, open_account-no_currency, open_account-known, open_account-accepted,
}
use stable_bank.Ledger.Steps.Sync.{Steps-InSync}

-- From a ledger in sync the call goes through steps, whether it succeeds or fails.
pub record Runs (env : Env) {A : Type 0} (m : Action A) : Type 0 where
  pub at : (w : World) → InSync w → Steps env w (m w).1

-- The premise of `transition`, read back from the Boolean test.
same_status-eq : (a b : Status) → same_status a b ≡ true → a ≡ b
same_status-eq a b e = ground arith

module _ {env : Env} where
  pub Runs-gets : {A : Type 0} (f : World → A) → Runs env (gets f)
  Runs-gets f = record { at = λ w h. here }

  pub Runs-pure : {A : Type 0} (a : A) → Runs env (pure a)
  Runs-pure a = record { at = λ w h. here }

  pub Runs-lift : {A : Type 0} (r : Result LedgerError A) → Runs env (lift r)
  Runs-lift r = record { at = λ w h. here }

  pub Runs-or_fail : {A : Type 0} (o : Option A) (e : LedgerError) → Runs env (or_fail o e)
  Runs-or_fail o e = record { at = λ w h. here }

  pub Runs-fail_when : (b : Bool) (e : LedgerError) → Runs env (fail_when b e)
  Runs-fail_when b e = record { at = λ w h. here }

  pub Runs-refresh : Runs env refresh
  Runs-refresh = record { at = λ w h. rw (refresh-InSync w h) here }

  pub Runs-bind :
      {A B : Type 0} {m : Action A} {f : A → Action B}
      → Runs env m
      → ((a : A) → Runs env (f a))
      → Runs env (m >>= f)
  Runs-bind {A} {B} {m} {f} rm rf = record {
    at = λ w h. by_result w (m w).0 (m w).1 (rm.at w h) (Steps-InSync (rm.at w h) h);
  }
    where
      by_result :
          (w : World) (r : Result LedgerError A) (v : World)
          → Steps env w v
          → InSync v
          → Steps env w
              (elim r as (λ _. Result LedgerError B × World) [
                | ok a ↦ f a v
                | err e ↦ (err e, v)
              ]).1
      by_result w (ok a) v s h = Steps-trans s ((rf a).at v h)
      by_result w (err x) v s h = s

  pub Runs-if :
      {A : Type 0} (b : Bool) {m n : Action A}
      → Runs env m
      → Runs env n
      → Runs env (if b then m else n)
  Runs-if true p q = p
  Runs-if false p q = q

  pub Runs-post : (tx : Transaction) → Runs env (post env tx)
  Runs-post tx = record {
    at = λ w h. elim (Result-cases (validate w.proj.accounts tx)) [
      | inl (u, good) ↦ rw (post-accepted env w h tx good) (
          Steps-one (
            posts (prepared env w.log.seq tx) (unfold validate prepared in good)
              (unfold prepared in refl)))
      | inr (e, bad) ↦ rw (post-refused env w h tx bad) here
    ];
  }

  pub Runs-settle : (id : String) → Runs env (settle env id)
  unfolding settle
  Runs-settle id = record {
    at = λ w h. elim (Option-cases (lookup id w.proj.txs)) [
      | inl missing ↦
          rw (transition-missing env w h id pending settled event_tx_settled missing) here
      | inr (tx, found) ↦ elim (Bool-cases (same_status tx.status pending)) [
        | inl stands ↦
            rw (transition-accepted env w h id pending settled event_tx_settled tx found stands)
              (Steps-one (settles id tx found (same_status-eq _ _ stands)))
        | inr elsewhere ↦
            rw (transition-refused env w h id pending settled event_tx_settled tx found elsewhere)
              here
      ]
    ];
  }

  pub Runs-finalize : (id : String) → Runs env (finalize env id)
  unfolding finalize
  Runs-finalize id = record {
    at = λ w h. elim (Option-cases (lookup id w.proj.txs)) [
      | inl missing ↦
          rw (transition-missing env w h id settled final event_tx_finalized missing) here
      | inr (tx, found) ↦ elim (Bool-cases (same_status tx.status settled)) [
        | inl stands ↦
            rw (transition-accepted env w h id settled final event_tx_finalized tx found stands)
              (Steps-one (finalizes id tx found (same_status-eq _ _ stands)))
        | inr elsewhere ↦
            rw (transition-refused env w h id settled final event_tx_finalized tx found elsewhere)
              here
      ]
    ];
  }

  pub Runs-open_account : (a : Account) → Runs env (open_account env a)
  Runs-open_account a = record {
    at = λ w h. elim (Bool-cases (str_eq a.id "")) [
      | inl nameless ↦ rw (open_account-no_id env w h a nameless) here
      | inr named ↦ elim (Option-cases (currency_of a.currency)) [
        | inl unknown ↦ rw (open_account-no_currency env w h a named unknown) here
        | inr (c, known) ↦ elim (Option-cases (lookup a.id w.proj.accounts)) [
          | inl new ↦
              rw (open_account-accepted env w h a c named known new) (Steps-one (opens _ new))
          | inr (b, old) ↦ rw (open_account-known env w h a c named known (ground arith)) here
        ]
      ]
    ];
  }

  pub ruleset runs_rules = (
    Runs-gets, Runs-pure, Runs-lift, Runs-or_fail, Runs-fail_when, Runs-refresh, Runs-bind, Runs-if,
    Runs-post, Runs-settle, Runs-finalize, Runs-open_account,
  )

  pub Runs-post_and_finalize : (tx : Transaction) → Runs env (post_and_finalize env tx)
  unfolding post_and_finalize
  Runs-post_and_finalize tx = search runs_rules

  Runs-ensure_accounts : (specs : List Account) → Runs env (ensure_accounts env specs)
  unfolding ensure_accounts
  Runs-ensure_accounts [] = search runs_rules
  Runs-ensure_accounts (spec ∷ specs) =
      let rest : Runs env (ensure_accounts env specs) = Runs-ensure_accounts specs in
      Runs-bind (Runs-gets _)
        λ exists. Runs-if exists rest (Runs-bind (Runs-open_account spec) (λ _. rest))

  pub Runs-ensure_system_accounts : Runs env (ensure_system_accounts env)
  unfolding ensure_system_accounts
  Runs-ensure_system_accounts = search (runs_rules, Runs-ensure_accounts)

  pub Runs-seed_capital : (cents : ℤ) → Runs env (seed_capital env cents)
  unfolding seed_capital seed_refreshed
  Runs-seed_capital cents = search (runs_rules, Runs-post_and_finalize)
