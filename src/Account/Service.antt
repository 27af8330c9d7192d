-- ===== src/Account/Service.antt =====
-- account.Service (internal/account/service.go, internal/account/types.go): the accounts of a
-- customer, deposits, and the demo account. Purchases are in Account.Purchases.
use Prim.Native.String.{◌++◌ as str_append}
use stable_bank.Base.{
  String, Bool, true, false, not, ◌&&◌, Option, none, some, List, [], ◌∷◌, str_eq, map, Result, ok,
  err, if◌then◌else◌,
}
use stable_bank.Base.Int.{ℤ, pos, leb_ℤ}
use stable_bank.Base.Int64.{add64}
use stable_bank.Base.Dict.{Dict, insert, is_none}
use stable_bank.Base.Sort.{ltb_str, sort_slice}
use stable_bank.Base.Stateful.{Stateful, pure, gets, lift, fail_when, ◌>>=◌, ◌>>◌, wrap_error}
use stable_bank.Ledger.Types.{
  Account, Amount, Transaction, customer_deposit, debit, credit, unset, currency_of, LedgerError,
  not_found,
}
use stable_bank.Ledger.Amount.{parse_amount}
use stable_bank.Ledger.Accounts.{open_account, list_accounts}
use stable_bank.Ledger.Posting.{post_and_finalize, TxFilter, list_transactions}
use stable_bank.Ledger.Balances.{balance}
use stable_bank.Ledger.Fx.{quote}
use stable_bank.Ledger.Fx.Convert.{lower_code}
use stable_bank.Ledger.Accounts.{get_account}
use stable_bank.Store.Events.{Time}
use stable_bank.Rules.Documents.{RuleError}
use stable_bank.Bank.{Bank, BankEnv, rates_of, on_ledger}

pub record Funding : Type 0 where
  pub currency : String
  pub amount_minor : ℤ
  pub amount_display : String
  pub usd_equivalent_cents : ℤ
  pub share_pct : ℤ

pub record WaterfallInfo : Type 0 where
  pub rule_id : String
  pub version : ℤ
  pub matched_rule : String
  pub application_id : String

pub record Receipt : Type 0 where
  pub purchase_id : String
  pub account_id : String
  pub status : String
  pub amount_cents : ℤ
  pub merchant : String
  pub funded_by : List Funding
  pub waterfall : WaterfallInfo
  pub ledger_transaction_ids : List String
  pub decline_reason : String
  pub occurred_at : Time

-- The errors that the package returns; `ErrDeclined` comes with its receipt.
pub data AccountError : Type 0 where
  invalid_request : String → AccountError
  no_account : String → AccountError
  no_currency_account : String → String → AccountError
  ledger_failed : LedgerError → AccountError
  rules_failed : RuleError → AccountError
  no_funding_legs : AccountError
  malformed_leg : AccountError
  bad_number : String → AccountError
  unknown_funding_currency : String → AccountError
  purchase_declined : Receipt → AccountError

abbrev pub Call : Type 0 → Type 0
Call A = Stateful Bank AccountError A

abbrev pub ledger_account_id : String → String → String
ledger_account_id customer currency = str_append customer (str_append "-" (lower_code currency))

-- `GetAccount`, with `store.ErrNotFound` as no account.
abbrev pub as_optional : Result LedgerError Account → Result AccountError (Option Account)
as_optional (ok a) = ok (some a)
as_optional (err not_found) = ok none
as_optional (err e) = err (ledger_failed e)

unfoldable pub find_account : String → Call (Option Account)
find_account id b = let (r, w) = get_account id b.world in (as_optional r, record b { world = w })

pub record View : Type 0 where
  pub id : String
  pub owner_id : String
  pub balances : Dict Amount
  pub ledger_account_ids : Dict String
  pub usd_equivalent_cents : ℤ

abbrev pub new_view : String → View
new_view id = record {
  id = id;
  owner_id = "";
  balances = [];
  ledger_account_ids = [];
  usd_equivalent_cents = pos 0;
}

abbrev pub with_leg : View → String → String → String → Amount → ℤ → View
with_leg v owner currency ledger_id amount cents = record v {
  owner_id = if str_eq v.owner_id "" then owner else v.owner_id;
  balances = insert currency amount v.balances;
  ledger_account_ids = insert currency ledger_id v.ledger_account_ids;
  usd_equivalent_cents = add64 v.usd_equivalent_cents cents;
}

-- The two parts of `Get`, for an account that may be missing.
unfoldable pub add_usd : String → Option Account → View → Call View
add_usd usd_id none v = pure v
add_usd usd_id (some acc) v = do
  bal ← on_ledger ledger_failed (balance usd_id)
  pure (with_leg v acc.owner_id "USD" usd_id bal bal.minor)

unfoldable pub add_usdc : BankEnv → String → Option Account → View → Call View
add_usdc env usdc_id none v = pure v
add_usdc env usdc_id (some acc) v = do
  bal ← on_ledger ledger_failed (balance usdc_id)
  rates ← gets (rates_of env)
  quoted ← lift (wrap_error ledger_failed (quote rates "USDC" "USD" bal.minor))
  pure (with_leg v acc.owner_id "USDC" usdc_id bal quoted.to.minor)

unfoldable pub get_view : BankEnv → String → Call View
get_view env id = do
  let usd_id = ledger_account_id id "USD"
  let usdc_id = ledger_account_id id "USDC"
  usd ← find_account usd_id
  usdc ← find_account usdc_id
  fail_when (is_none usd && is_none usdc) (no_account id)
  with_usd ← add_usd usd_id usd (new_view id)
  add_usdc env usdc_id usdc with_usd

-- `strings.HasSuffix` and `strings.TrimSuffix` together.
unfoldable pub trim_suffix : String → String → Option String
trim_suffix suffix String.[] = if str_eq suffix "" then some "" else none
trim_suffix suffix (String.◌∷◌ c s) =
    let rest = trim_suffix suffix s in
    if str_eq suffix (String.◌∷◌ c s)
    then some ""
    else elim rest [ none ↦ none | some r ↦ some (String.◌∷◌ c r) ]

-- One turn of the loop of `ListAccounts`, on the ids seen.
abbrev pub seen_id : Account → Dict (Unit {0}) → Dict (Unit {0})
seen_id a seen =
    if not (str_eq a.account_type customer_deposit) then seen else elim (trim_suffix "-usd" a.id) [
      | some id ↦ insert id tt seen
      | none ↦ elim (trim_suffix "-usdc" a.id) [ some id ↦ insert id tt seen | none ↦ seen ]
    ]

unfoldable pub customer_ids : List Account → Dict (Unit {0}) → Dict (Unit {0})
customer_ids [] seen = seen
customer_ids (a ∷ others) seen = customer_ids others (seen_id a seen)

unfoldable pub view_all : BankEnv → List String → Call (List View)
view_all env [] = pure []
view_all env (id ∷ ids) = do v ← get_view env id; vs ← view_all env ids; pure (v ∷ vs)

unfoldable pub list_views : BankEnv → Call (List View)
list_views env = do
  accounts ← on_ledger ledger_failed list_accounts
  view_all env (sort_slice ltb_str (map (λ kv. kv.0) (customer_ids accounts [])))

-- A transaction of two entries, from a debit to a credit.
abbrev pub transfer :
    String → String → String → String → String → Amount → Dict String → Transaction
transfer kind description currency from to amount meta = record {
  id = "";
  kind = kind;
  description = description;
  currency = currency;
  entries =
      record { account_id = from; direction = debit; amount = amount }
      ∷ record { account_id = to; direction = credit; amount = amount }
      ∷ [];
  status = unset;
  linked_tx_id = "";
  metadata = meta;
  occurred_at = 0;
}

abbrev pub treasury_of : String → String
treasury_of currency = str_append "treasury-cash-" (lower_code currency)

unfoldable pub deposit_transaction : String → Amount → Transaction
deposit_transaction id amt =
    transfer "deposit" (str_append "Deposit to " id) amt.currency (treasury_of amt.currency)
      (ledger_account_id id amt.currency) amt (("account_id", id) ∷ [])

unfoldable pub deposit : BankEnv → String → Amount → Call Transaction
deposit env id amt = do
  fail_when (leb_ℤ amt.minor (pos 0)) (invalid_request "deposit amount must be positive")
  fail_when (is_none (currency_of amt.currency)) (invalid_request "unknown currency")
  found ← find_account (ledger_account_id id amt.currency)
  fail_when (is_none found) (no_currency_account id amt.currency)
  on_ledger ledger_failed (post_and_finalize env.ledger (deposit_transaction id amt))

abbrev pub customer_account : String → String → String → Account
customer_account id owner currency = record {
  id = ledger_account_id id currency;
  owner_id = owner;
  account_type = customer_deposit;
  currency = currency;
  name = str_append id (str_append " (" (str_append currency ")"));
  opened_at = 0;
}

-- One turn of the loop of `openCustomerAccount`.
unfoldable pub open_missing : BankEnv → String → String → String → Call (Unit {0})
open_missing env id owner currency = do
  found ← find_account (ledger_account_id id currency)
  let opening =
      on_ledger ledger_failed (open_account env.ledger (customer_account id owner currency))
  if is_none found then opening >> pure tt else pure tt

unfoldable pub open_customer_account : BankEnv → String → String → Call (Unit {0})
open_customer_account env id owner =
    open_missing env id owner "USD" >> open_missing env id owner "USDC"

abbrev pub kind_filter : String → String → TxFilter
kind_filter account kind = record {
  account_id = account;
  kind = kind;
  from = 0;
  to = 0;
  status = unset;
}

abbrev pub has_some : List Transaction → Bool
has_some [] = false
has_some (tx ∷ txs) = true

unfoldable pub deposit_if_empty : BankEnv → String → Amount → Call (Unit {0})
deposit_if_empty env id amt = do
  txs ←
      on_ledger ledger_failed
        (list_transactions (kind_filter (ledger_account_id id amt.currency) "deposit"))
  if has_some txs then pure tt else deposit env id amt >> pure tt

unfoldable pub seed_account : BankEnv → Call (Unit {0})
seed_account env = do
  open_customer_account env "demo-account-1" "demo-user"
  usd ← lift (wrap_error ledger_failed (parse_amount "USD" "1500.00"))
  usdc ← lift (wrap_error ledger_failed (parse_amount "USDC" "800.000000"))
  deposit_if_empty env "demo-account-1" usd
  deposit_if_empty env "demo-account-1" usdc
