-- ===== src/Account/Calls.antt =====
-- Every call of account.Service (internal/account/service.go) runs through steps of the ledger.
use stable_bank.Base.{String, none, some, List, [], ◌∷◌, Option}
use stable_bank.Base.Int.{ℤ}
use stable_bank.Value.{Value, mapping, Values, none_left, item}
use stable_bank.Ledger.Types.{Account, Amount}
use stable_bank.Ledger.Accounts.{get_account, get_refreshed, list_accounts}
use stable_bank.Ledger.Balances.{balance, balance_refreshed}
use stable_bank.Ledger.Posting.{TxFilter, list_transactions}
use stable_bank.Ledger.Steps.Runs.{Runs, runs_rules, Runs-open_account, Runs-post_and_finalize}
use stable_bank.Bank.{BankEnv, world_of}
use stable_bank.Bank.Runs.{
  Follows, follows_rules, Follows-bind, Follows-pure, Follows-on_ledger, Follows-on_rules,
}
use stable_bank.Account.Service.{
  Call, find_account, add_usd, add_usdc, View, get_view, view_all, list_views, deposit,
  open_missing, open_customer_account, deposit_if_empty, seed_account, Receipt,
}
use stable_bank.Account.History.{list_purchases}
use stable_bank.Account.Purchases.{
  Order, PurchaseRequest, post_leg, post_usdc_leg, fund, fund_leg, fund_legs, fund_approved,
  carry_out, decide_purchase, purchase,
}

module _ (env : BankEnv) where
  abbrev pub Keeps : {A : Type 0} → Call A → Type 0
  Keeps m = Follows env.ledger world_of m

  Runs-get_account : (id : String) → Runs env.ledger (get_account id)
  unfolding get_account get_refreshed
  Runs-get_account id = search runs_rules

  pub Runs-balance : (id : String) → Runs env.ledger (balance id)
  unfolding balance balance_refreshed
  Runs-balance id = search runs_rules

  Runs-list_accounts : Runs env.ledger list_accounts
  unfolding list_accounts
  Runs-list_accounts = search runs_rules

  pub Runs-list_transactions : (f : TxFilter) → Runs env.ledger (list_transactions f)
  unfolding list_transactions
  Runs-list_transactions f = search runs_rules

  Follows-find_account : (id : String) → Keeps (find_account id)
  unfolding find_account
  Follows-find_account id = record { at = λ b h. (Runs-get_account id).at b.world h }

  ruleset call_rules = (
    follows_rules, Follows-on_ledger, Follows-on_rules, Follows-find_account, Runs-balance,
    Runs-list_accounts, Runs-list_transactions, Runs-open_account, Runs-post_and_finalize,
  )

  pub Follows-deposit : (id : String) (amt : Amount) → Keeps (deposit env id amt)
  unfolding deposit
  Follows-deposit id amt = search call_rules depth 14

  Follows-add_usd : (id : String) (a : Option Account) (v : View) → Keeps (add_usd id a v)
  unfolding add_usd
  Follows-add_usd id none v = search call_rules
  Follows-add_usd id (some a) v = search call_rules

  Follows-add_usdc : (id : String) (a : Option Account) (v : View) → Keeps (add_usdc env id a v)
  unfolding add_usdc
  Follows-add_usdc id none v = search call_rules
  Follows-add_usdc id (some a) v = search call_rules

  pub Follows-get_view : (id : String) → Keeps (get_view env id)
  unfolding get_view
  Follows-get_view id = search (call_rules, Follows-add_usd, Follows-add_usdc) depth 14

  Follows-view_all : (ids : List String) → Keeps (view_all env ids)
  unfolding view_all
  Follows-view_all [] = search call_rules
  Follows-view_all (id ∷ ids) =
      let rest : Keeps (view_all env ids) = Follows-view_all ids in
      Follows-bind (Follows-get_view id) λ v. Follows-bind rest (λ vs. Follows-pure (v ∷ vs))

  pub Follows-list_views : Keeps (list_views env)
  unfolding list_views
  Follows-list_views = search (call_rules, Follows-view_all)

  Follows-open_missing : (id owner currency : String) → Keeps (open_missing env id owner currency)
  unfolding open_missing
  Follows-open_missing id owner currency = search call_rules depth 14

  Follows-open_customer_account : (id owner : String) → Keeps (open_customer_account env id owner)
  unfolding open_customer_account
  Follows-open_customer_account id owner = search (call_rules, Follows-open_missing)

  pub Follows-list_purchases : (id : String) → Keeps (list_purchases env id)
  unfolding list_purchases
  Follows-list_purchases id = search call_rules depth 14

  Follows-deposit_if_empty : (id : String) (amt : Amount) → Keeps (deposit_if_empty env id amt)
  unfolding deposit_if_empty
  Follows-deposit_if_empty id amt = search (call_rules, Follows-deposit) depth 14

  pub Follows-seed_account : Keeps (seed_account env)
  unfolding seed_account
  Follows-seed_account =
      search (call_rules, Follows-open_customer_account, Follows-deposit_if_empty) depth 14

  Follows-post_leg :
      (o : Order) (currency : String) (amt : Amount) (cents pct : ℤ)
      → Keeps (post_leg env o currency amt cents pct)
  unfolding post_leg
  Follows-post_leg o currency amt cents pct = search call_rules depth 14

  Follows-post_usdc_leg : (o : Order) (cents pct : ℤ) → Keeps (post_usdc_leg env o cents pct)
  unfolding post_usdc_leg
  Follows-post_usdc_leg o cents pct = search (call_rules, Follows-post_leg) depth 14

  Follows-fund :
      (o : Order) (currency : String) (cents pct : ℤ) → Keeps (fund env o currency cents pct)
  unfolding fund
  Follows-fund o currency cents pct =
      search (call_rules, Follows-post_leg, Follows-post_usdc_leg) depth 14

  Follows-fund_leg : (o : Order) (v : Value) → Keeps (fund_leg env o v)
  unfolding fund_leg
  Follows-fund_leg o (mapping fs) = search (call_rules, Follows-fund) depth 14
  Follows-fund_leg o _ = search call_rules

  Follows-fund_legs : (o : Order) (vs : Values) → Keeps (fund_legs env o vs)
  unfolding fund_legs
  Follows-fund_legs o none_left = search call_rules
  Follows-fund_legs o (item v vs) =
      let rest : Keeps (fund_legs env o vs) = Follows-fund_legs o vs in
      Follows-bind (Follows-fund_leg o v)
        λ first. Follows-bind rest (λ others. Follows-pure (first ∷ others))

  Follows-fund_approved :
      (o : Order) (r : Receipt) (legs : Values) → Keeps (fund_approved env o r legs)
  unfolding fund_approved
  Follows-fund_approved o r legs = search (call_rules, Follows-fund_legs) depth 14

  Follows-carry_out : (o : Order) → Keeps (carry_out env o)
  unfolding carry_out
  Follows-carry_out o = search (call_rules, Follows-fund_approved) depth 14

  Follows-decide_purchase :
      (req : PurchaseRequest) (usd usdc : ℤ) → Keeps (decide_purchase env req usd usdc)
  unfolding decide_purchase
  Follows-decide_purchase req usd usdc = search call_rules depth 14

  pub Follows-purchase : (req : PurchaseRequest) → Keeps (purchase env req)
  unfolding purchase
  Follows-purchase req = search (call_rules, Follows-decide_purchase, Follows-carry_out) depth 20
