-- ===== src/Account/Purchases.antt =====
-- The purchases of account.Service (internal/account/service.go): one purchase, with the
-- evaluator that decides it.
pub mod Results
pub mod Legs
pub mod Silence
pub mod Declines
pub mod Payments
pub mod Funded
use Prim.Native.String.{◌++◌ as str_append}
use stable_bank.Base.{
  ℕ, zero, suc, ◌+◌, String, Bool, true, false, not, ◌&&◌, ◌||◌, Option, none, some, List, [], ◌∷◌,
  ◌++◌, str_eq, ltb, reverse, Result, ok, err, if◌then◌else◌,
}
use stable_bank.Base.Int.{ℤ, pos, leb_ℤ, ltb_ℤ}
use stable_bank.Base.Int64.{add64, sub64}
use stable_bank.Base.Dict.{Dict, lookup, insert}
use stable_bank.Base.Sort.{ltb_str, sort_slice}
use stable_bank.Base.Stateful.{pure, fail, gets, lift, fail_when, ◌>>=◌, ◌>>◌, wrap_error}
use stable_bank.Value.{
  Value, number, text, sequence, mapping, Values, none_left, item, Fields, no_fields, field, get,
}
use stable_bank.Ledger.Types.{Amount, Entry, Transaction}
use stable_bank.Ledger.Amount.{codes, format_int, text_of, parse_int64, display}
use stable_bank.Ledger.Posting.{post_and_finalize, list_transactions}
use stable_bank.Ledger.Balances.{balance}
use stable_bank.Ledger.Fx.{quote}
use stable_bank.Rules.Documents.{str_of, items_of}
use stable_bank.Rules.Engine.{Decision, Evaluator}
use stable_bank.Bank.{Bank, BankEnv, time_now, applications, rates_of, on_ledger, on_rules}
use stable_bank.Account.Waterfall.{WaterfallError, Leg, Outcome, num_field, evaluate_waterfall}
use stable_bank.Account.Service.{
  Funding, WaterfallInfo, Receipt, AccountError, invalid_request, ledger_failed, rules_failed,
  no_funding_legs, malformed_leg, bad_number, unknown_funding_currency, purchase_declined, Call,
  ledger_account_id, transfer, kind_filter,
}

-- The evaluator's output as the map that it returns, and the evaluator as it is registered.
abbrev pub leg_value : Leg → Value
leg_value l = mapping (
    field "currency" (text l.currency) (
      field "usd_equivalent_cents" (number l.usd_equivalent_cents)
        (field "share_pct" (number l.share_pct) no_fields)))

abbrev pub leg_values : List Leg → Values
leg_values [] = none_left
leg_values (l ∷ ls) = item (leg_value l) (leg_values ls)

unfoldable pub outcome_fields : Outcome → Fields
outcome_fields o = field "decision" (text o.decision) (
    field "matched_rule" (text o.matched_rule)
      (field "funding" (sequence (leg_values o.funding)) no_fields))

unfoldable pub waterfall_evaluator : Evaluator
waterfall_evaluator content input = elim (evaluate_waterfall content input) [
  | err e ↦ err "account: spend_waterfall"
  | ok o ↦ ok (outcome_fields o)
]

pub record PurchaseRequest : Type 0 where
  pub account_id : String
  pub amount_cents : ℤ
  pub merchant : String

abbrev pub purchase_input : ℤ → ℤ → ℤ → Fields
purchase_input amount usd usdc = field "amount_cents" (number amount) (
    field "usd_balance_cents" (number usd)
      (field "usdc_balance_usd_equivalent_cents" (number usdc) no_fields))

-- What the legs of one purchase share.
pub record Order : Type 0 where
  pub purchase_id : String
  pub account_id : String
  pub amount_cents : ℤ
  pub merchant : String
  pub matched_rule : String
  pub decision : Decision

abbrev pub int_text : ℤ → String
int_text n = text_of (format_int n)

unfoldable pub leg_meta : Order → ℤ → ℤ → Dict String
leg_meta o cents pct =
    ("purchase_id", o.purchase_id)
    ∷ ("merchant", o.merchant)
    ∷ ("funded_share_pct", int_text pct)
    ∷ ("usd_equivalent_cents", int_text cents)
    ∷ ("amount_cents", int_text o.amount_cents)
    ∷ ("matched_rule", o.matched_rule)
    ∷ ("rule_id", o.decision.rule_id)
    ∷ ("rule_version", int_text o.decision.version)
    ∷ ("application_id", o.decision.application_id)
    ∷ []

abbrev pub settlement_of : String → String
settlement_of currency =
    if str_eq currency "USD" then "merchant-settlement-usd" else "merchant-settlement-usdc"

unfoldable pub leg_transaction : Order → String → Amount → ℤ → ℤ → Transaction
leg_transaction o currency amt cents pct =
    transfer "purchase" (str_append "Purchase at " o.merchant) currency
      (ledger_account_id o.account_id currency) (settlement_of currency) amt (leg_meta o cents pct)

-- The posting of one leg, and what the receipt says of it.
unfoldable pub post_leg : BankEnv → Order → String → Amount → ℤ → ℤ → Call (String × Funding)
post_leg env o currency amt cents pct = do
  tx ←
      on_ledger ledger_failed
        (post_and_finalize env.ledger (leg_transaction o currency amt cents pct))
  pure (
    tx.id,
    record {
      currency = currency;
      amount_minor = amt.minor;
      amount_display = display amt;
      usd_equivalent_cents = cents;
      share_pct = pct;
    },
  )

unfoldable pub post_usdc_leg : BankEnv → Order → ℤ → ℤ → Call (String × Funding)
post_usdc_leg env o cents pct = do
  rates ← gets (rates_of env)
  quoted ← lift (wrap_error ledger_failed (quote rates "USD" "USDC" cents))
  post_leg env o "USDC" quoted.to cents pct

-- The `switch currency` of the loop over the legs.
unfoldable pub fund : BankEnv → Order → String → ℤ → ℤ → Call (String × Funding)
fund env o currency cents pct =
    if str_eq currency "USD"
    then post_leg env o "USD" (record { currency = "USD"; minor = cents }) cents pct
    else if str_eq currency "USDC"
    then post_usdc_leg env o cents pct
    else fail (unknown_funding_currency currency)

abbrev pub int_in : String → Fields → Result AccountError ℤ
int_in key fs = wrap_error (λ e. bad_number key) (num_field key (get key fs))

-- One turn of that loop.
unfoldable pub fund_leg : BankEnv → Order → Value → Call (String × Funding)
fund_leg env o (mapping fs) = do
  cents ← lift (int_in "usd_equivalent_cents" fs)
  pct ← lift (int_in "share_pct" fs)
  fund env o (str_of (get "currency" fs)) cents pct
fund_leg env o _ = fail malformed_leg

unfoldable pub fund_legs : BankEnv → Order → Values → Call (List (String × Funding))
fund_legs env o none_left = pure []
fund_legs env o (item v vs) = do
  first ← fund_leg env o v
  rest ← fund_legs env o vs
  pure (first ∷ rest)

-- The receipt before its legs are funded.
abbrev pub receipt_of : Order → ℕ → Receipt
receipt_of o now = record {
  purchase_id = o.purchase_id;
  account_id = o.account_id;
  status = "";
  amount_cents = o.amount_cents;
  merchant = o.merchant;
  funded_by = [];
  waterfall = record {
    rule_id = o.decision.rule_id;
    version = o.decision.version;
    matched_rule = o.matched_rule;
    application_id = o.decision.application_id;
  };
  ledger_transaction_ids = [];
  decline_reason = "";
  occurred_at = now;
}

abbrev pub declined_receipt : Receipt → Receipt
declined_receipt r = record r { status = "declined"; decline_reason = "insufficient_funds" }

abbrev pub ids_of : List (String × Funding) → List String
ids_of [] = []
ids_of ((id, f) ∷ fs) = id ∷ ids_of fs

abbrev pub fundings_of : List (String × Funding) → List Funding
fundings_of [] = []
fundings_of ((id, f) ∷ fs) = f ∷ fundings_of fs

abbrev pub approved_receipt : Receipt → List (String × Funding) → Receipt
approved_receipt r fs = record r {
  status = "approved";
  funded_by = fundings_of fs;
  ledger_transaction_ids = ids_of fs;
}

abbrev pub no_legs : Values → Bool
no_legs none_left = true
no_legs (item v vs) = false

-- `Purchase` once it is approved: the legs, and the receipt.
unfoldable pub fund_approved : BankEnv → Order → Receipt → Values → Call Receipt
fund_approved env o receipt legs = do
  fail_when (no_legs legs) no_funding_legs
  fundings ← fund_legs env o legs
  pure (approved_receipt receipt fundings)

-- `Purchase` from where it has the decision.
unfoldable pub carry_out : BankEnv → Order → Call Receipt
carry_out env o = do
  now ← gets (λ b. time_now env b.world)
  let receipt = receipt_of o now
  fail_when (not (str_eq (str_of (get "decision" o.decision.output)) "approved"))
      (purchase_declined (declined_receipt receipt))
  fund_approved env o receipt (items_of (get "funding" o.decision.output))

unfoldable pub decide_purchase : BankEnv → PurchaseRequest → ℤ → ℤ → Call Order
decide_purchase env req usd usdc = do
  purchase_id ← gets (λ b. env.purchase_id (applications b.engine))
  decision ←
      on_rules rules_failed env "spend_waterfall" "purchase" purchase_id
        (purchase_input req.amount_cents usd usdc)
  pure (record {
    purchase_id = purchase_id;
    account_id = req.account_id;
    amount_cents = req.amount_cents;
    merchant = if str_eq req.merchant "" then "General Store" else req.merchant;
    matched_rule = str_of (get "matched_rule" decision.output);
    decision = decision;
  })

unfoldable pub purchase : BankEnv → PurchaseRequest → Call Receipt
purchase env req = do
  fail_when (str_eq req.account_id "") (invalid_request "account_id is required")
  fail_when (leb_ℤ req.amount_cents (pos 0)) (invalid_request "amount_cents must be positive")
  usd ← on_ledger ledger_failed (balance (ledger_account_id req.account_id "USD"))
  usdc ← on_ledger ledger_failed (balance (ledger_account_id req.account_id "USDC"))
  rates ← gets (rates_of env)
  quoted ← lift (wrap_error ledger_failed (quote rates "USDC" "USD" usdc.minor))
  order ← decide_purchase env req usd.minor quoted.to.minor
  carry_out env order
