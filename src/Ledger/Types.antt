-- ===== src/Ledger/Types.antt =====
-- internal/ledger/account.go, internal/ledger/transaction.go, the currencies and amounts of
-- internal/ledger/amount.go, and the event payloads of internal/ledger/projection.go.
use stable_bank.Base.{ℕ, String, ◌||◌, Option, List, [], ◌∷◌, str_eq, if◌then◌else◌}
use stable_bank.Base.Int.{ℤ}
use stable_bank.Base.Dict.{Dict, lookup}
use stable_bank.Store.Events.{Time}
use stable_bank.Loan.Documents.{LoanDocument}

pub record Currency : Type 0 where
  pub code : String
  pub decimals : ℕ

-- The map `Currencies`.
abbrev pub currencies : Dict Currency
currencies =
    ("USD", record { code = "USD"; decimals = 2 })
    ∷ ("USDC", record { code = "USDC"; decimals = 6 })
    ∷ []

unfoldable pub currency_of : String → Option Currency
unfolding lookup
currency_of code = lookup code currencies

-- `minor` is an int64.
pub record Amount : Type 0 where
  pub currency : String
  pub minor : ℤ

-- A direction is a string in the source; `other` is any string but the two constants.
pub data Direction : Type 0 where
  debit credit : Direction
  other : String → Direction

-- The constants of type AccountType.
abbrev pub customer_deposit : String
customer_deposit = "customer_deposit"

abbrev pub loan_receivable : String
loan_receivable = "loan_receivable"

abbrev pub treasury_cash : String
treasury_cash = "treasury_cash"

abbrev pub treasury_fx : String
treasury_fx = "treasury_fx"

abbrev pub merchant_settlement : String
merchant_settlement = "merchant_settlement"

abbrev pub interest_income : String
interest_income = "interest_income"

abbrev pub fee_income : String
fee_income = "fee_income"

abbrev pub loan_loss_expense : String
loan_loss_expense = "loan_loss_expense"

abbrev pub equity_capital : String
equity_capital = "equity_capital"

unfoldable pub normal_balance : String → Direction
normal_balance t =
    if str_eq t loan_receivable
      || str_eq t treasury_cash
      || str_eq t treasury_fx
      || str_eq t loan_loss_expense
    then debit
    else credit

pub record Account : Type 0 where
  pub id : String
  pub owner_id : String
  pub account_type : String
  pub currency : String
  pub name : String
  pub opened_at : Time

pub record Entry : Type 0 where
  pub account_id : String
  pub direction : Direction
  pub amount : Amount

-- `unset` is the empty string, the zero value of a transaction that is not posted yet.
pub data Status : Type 0 where
  unset pending settled final : Status

pub record Transaction : Type 0 where
  pub id : String
  pub kind : String
  pub description : String
  pub currency : String
  pub entries : List Entry
  pub status : Status
  pub linked_tx_id : String
  pub metadata : Dict String
  pub occurred_at : Time

-- The JSON of an event's payload: an account, a transaction, a document of internal/loan, or one of
-- another package.
pub data Payload : Type 0 where
  account : Account → Payload
  transaction : Transaction → Payload
  loan : LoanDocument → Payload
  foreign : String → Payload

-- The errors that the package returns, by their texts.
pub data LedgerError : Type 0 where
  account_id_required : LedgerError
  unknown_currency : String → LedgerError
  account_exists : String → LedgerError
  not_found : LedgerError
  too_few_entries : LedgerError
  entry_currency_mismatch : String → String → LedgerError
  amount_not_positive : LedgerError
  account_missing : String → LedgerError
  account_currency_mismatch : String → String → LedgerError
  invalid_direction : String → LedgerError
  unbalanced : ℤ → ℤ → LedgerError
  total_not_positive : LedgerError
  bad_transition : String → Status → Status → LedgerError
  decode_failed : String → LedgerError
  accounts_required : LedgerError
  no_rate_provider : LedgerError
  no_rate : LedgerError
  invalid_amount : LedgerError
  amount_overflow : LedgerError
  unknown_rounding : String → LedgerError
  zero_rate : LedgerError
  wrong_type : String → LedgerError
  pairs_missing : LedgerError
  no_pair : String → String → LedgerError
  invalid_decimal : String → LedgerError
