-- ===== src/Ledger/Accounts.antt =====
-- The accounts of ledger.Service (internal/ledger/service.go): opening, reading, the system
-- accounts.
use stable_bank.Base.{String, List, [], ◌∷◌, str_eq, if◌then◌else◌}
use stable_bank.Base.Dict.{lookup, contains, is_none, values}
use stable_bank.Base.Sort.{ltb_str, sort_slice}
use stable_bank.Store.Events.{Event}
use stable_bank.Ledger.Types.{
  Account, account, treasury_cash, treasury_fx, merchant_settlement, interest_income, fee_income,
  loan_loss_expense, equity_capital, currency_of, account_id_required, unknown_currency,
  account_exists, not_found, Payload,
}
use stable_bank.Ledger.Projection.{event_account_opened}
use stable_bank.Ledger.Action.{
  Env, Action, pure, gets, or_fail, fail_when, refresh, append_event, ◌>>=◌, ◌>>◌,
}

-- The event of a new account: the store fills in `seq`, `id` and `recorded_at`.
abbrev pub opened_event : Account → Event Payload
opened_event a = record {
  id = "";
  seq = 0;
  kind = event_account_opened;
  aggregate_id = a.id;
  occurred_at = a.opened_at;
  recorded_at = 0;
  payload = account a;
}

-- `OpenAccount` once it has refreshed.
unfoldable pub open_refreshed : Env → Account → Action Account
open_refreshed env a = do
  known ← gets (λ w. contains a.id w.proj.accounts)
  fail_when known (account_exists a.id)
  now ← gets (λ w. env.now w.log.seq)
  let opened = record a { opened_at = now }
  append_event env (opened_event opened)
  pure opened

unfoldable pub open_account : Env → Account → Action Account
open_account env a = do
  fail_when (str_eq a.id "") account_id_required
  fail_when (is_none (currency_of a.currency)) (unknown_currency a.currency)
  refresh >> open_refreshed env a

unfoldable pub get_refreshed : String → Action Account
get_refreshed id = do found ← gets (λ w. lookup id w.proj.accounts); or_fail found not_found

unfoldable pub get_account : String → Action Account
get_account id = refresh >> get_refreshed id

unfoldable pub list_accounts : Action (List Account)
list_accounts =
    refresh >> gets (λ w. sort_slice (λ a b. ltb_str a.id b.id) (values w.proj.accounts))

abbrev pub system_account : String → String → String → String → Account
system_account id kind currency name = record {
  id = id;
  owner_id = "system";
  account_type = kind;
  currency = currency;
  name = name;
  opened_at = 0;
}

-- The table `systemAccounts`.
abbrev pub system_accounts : List Account
system_accounts =
    system_account "treasury-cash-usd" treasury_cash "USD" "Treasury Cash (USD)"
    ∷ system_account "treasury-cash-usdc" treasury_cash "USDC" "Treasury Cash (USDC)"
    ∷ system_account "treasury-fx-usd" treasury_fx "USD" "Treasury FX (USD)"
    ∷ system_account "treasury-fx-usdc" treasury_fx "USDC" "Treasury FX (USDC)"
    ∷ system_account "merchant-settlement-usd" merchant_settlement "USD" "Merchant Settlement (USD)"
    ∷ system_account "merchant-settlement-usdc" merchant_settlement "USDC"
        "Merchant Settlement (USDC)"
    ∷ system_account "interest-income-usd" interest_income "USD" "Interest Income (USD)"
    ∷ system_account "fee-income-usd" fee_income "USD" "Fee Income (USD)"
    ∷ system_account "loan-loss-expense-usd" loan_loss_expense "USD" "Loan Loss Expense (USD)"
    ∷ system_account "equity-capital-usd" equity_capital "USD" "Equity Capital (USD)"
    ∷ []

-- The loop of `EnsureSystemAccounts`.
unfoldable pub ensure_accounts : Env → List Account → Action (Unit {0})
ensure_accounts env [] = pure tt
ensure_accounts env (spec ∷ specs) = do
  exists ← gets (λ w. contains spec.id w.proj.accounts)
  let rest = ensure_accounts env specs
  if exists then rest else open_account env spec >> rest

unfoldable pub ensure_system_accounts : Env → Action (Unit {0})
ensure_system_accounts env = refresh >> ensure_accounts env system_accounts
