-- ===== src/Ledger/Fx/Runs.antt =====
-- `Convert` of internal/ledger/fx.go runs through steps of the ledger.
use stable_bank.Base.{Option, not, str_eq}
use stable_bank.Base.Dict.{lookup}
use stable_bank.Ledger.Types.{Account, Transaction, account_missing, entry_currency_mismatch}
use stable_bank.Ledger.Action.{Env}
use stable_bank.Ledger.Steps.Runs.{
  Runs, Runs-bind, Runs-gets, Runs-or_fail, Runs-fail_when, Runs-lift, Runs-pure, Runs-post,
  Runs-settle, Runs-finalize, runs_rules,
}
use stable_bank.Ledger.Fx.{RateProvider, FxRequest, FxQuote, quote}
use stable_bank.Ledger.Fx.Convert.{
  from_transaction, to_transaction, post_both, convert, convert_refreshed,
}

module _ {env : Env} where
  Runs-post_both :
      (q : FxQuote) (from_tx to_tx : Transaction) → Runs env (post_both env q from_tx to_tx)
  unfolding post_both
  Runs-post_both q from_tx to_tx = Runs-bind (Runs-post from_tx) λ _.
      Runs-bind (Runs-post to_tx) λ _. Runs-bind (Runs-settle _) λ _.
        Runs-bind (Runs-finalize _)
          λ _. Runs-bind (Runs-settle _) (λ _. Runs-bind (Runs-finalize _) (λ _. Runs-pure _))

  Runs-convert_refreshed :
      (rates : Option RateProvider) (req : FxRequest) → Runs env (convert_refreshed env rates req)
  unfolding convert_refreshed
  Runs-convert_refreshed rates req =
      Runs-bind (Runs-gets (λ w. lookup req.from_account_id w.proj.accounts)) λ from_found.
        Runs-bind (Runs-or_fail from_found (account_missing req.from_account_id))
          λ (from_acc : Account).
            Runs-bind (Runs-gets (λ w. lookup req.to_account_id w.proj.accounts)) λ to_found.
              Runs-bind (Runs-or_fail to_found (account_missing req.to_account_id))
                λ (to_acc : Account).
                  Runs-bind
                    (Runs-fail_when (not (str_eq from_acc.currency req.from.currency))
                      (entry_currency_mismatch from_acc.currency req.from.currency))
                    λ _.
                      Runs-bind
                        (Runs-lift (quote rates req.from.currency to_acc.currency req.from.minor))
                        λ q. Runs-bind (Runs-gets (λ w. env.new_id w.log.seq 1)) λ from_id.
                          Runs-bind (Runs-gets (λ w. env.new_id w.log.seq 2)) λ to_id.
                            Runs-post_both q (from_transaction req q from_id to_id)
                              (to_transaction req q to_acc.currency to_id from_id)

  pub Runs-convert :
      (rates : Option RateProvider) (req : FxRequest) → Runs env (convert env rates req)
  unfolding convert
  Runs-convert rates req = search (runs_rules, Runs-convert_refreshed)
