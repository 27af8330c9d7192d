-- ===== src/Account/History.antt =====
-- The purchase history, `ListPurchases` of internal/account/service.go.
use stable_bank.Base.{
  String, none, some, List, [], ◌∷◌, ◌++◌, ltb, str_eq, reverse, map, if◌then◌else◌,
}
use stable_bank.Base.Int.{ℤ, pos}
use stable_bank.Base.Dict.{Dict, lookup, insert}
use stable_bank.Base.Sort.{ltb_str, sort_slice}
use stable_bank.Base.Stateful.{pure, ◌>>=◌}
use stable_bank.Ledger.Types.{Entry, Transaction}
use stable_bank.Ledger.Amount.{codes, parse_int64, display}
use stable_bank.Ledger.Posting.{list_transactions}
use stable_bank.Bank.{BankEnv, on_ledger}
use stable_bank.Account.Service.{
  Funding, Receipt, ledger_failed, Call, ledger_account_id, kind_filter,
}

-- `tx.Metadata[key]`, and the number that it is, or 0.
abbrev meta_text : String → Dict String → String
meta_text key meta = elim (lookup key meta) [ none ↦ "" | some t ↦ t ]

abbrev meta_number : String → Dict String → ℤ
meta_number key meta = elim (parse_int64 (codes (meta_text key meta))) [ none ↦ pos 0 | some n ↦ n ]

-- The receipt of a purchase before its legs.
unfoldable pub started_receipt : String → String → Dict String → Receipt
started_receipt id purchase_id meta = record {
  purchase_id = purchase_id;
  account_id = id;
  status = "approved";
  amount_cents = meta_number "amount_cents" meta;
  merchant = meta_text "merchant" meta;
  funded_by = [];
  waterfall = record {
    rule_id = meta_text "rule_id" meta;
    version = meta_number "rule_version" meta;
    matched_rule = meta_text "matched_rule" meta;
    application_id = meta_text "application_id" meta;
  };
  ledger_transaction_ids = [];
  decline_reason = "";
  occurred_at = 0;
}

-- The loop over the entries: the amount of the last one on the account.
unfoldable pub minor_on : String → List Entry → ℤ → ℤ
minor_on account [] minor = minor
minor_on account (e ∷ es) minor =
    minor_on account es (if str_eq e.account_id account then e.amount.minor else minor)

unfoldable pub leg_funding : String → Transaction → Funding
leg_funding id tx =
    let account = ledger_account_id id (if str_eq tx.currency "USD" then "USD" else "USDC") in
    let minor = minor_on account tx.entries (pos 0) in
    record {
      currency = tx.currency;
      amount_minor = minor;
      amount_display = display (record { currency = tx.currency; minor = minor });
      usd_equivalent_cents = meta_number "usd_equivalent_cents" tx.metadata;
      share_pct = meta_number "funded_share_pct" tx.metadata;
    }

unfoldable pub with_transaction : String → Transaction → Receipt → Receipt
with_transaction id tx r = record r {
  occurred_at = if ltb r.occurred_at tx.occurred_at then tx.occurred_at else r.occurred_at;
  ledger_transaction_ids = r.ledger_transaction_ids ++ tx.id ∷ [];
  funded_by = r.funded_by ++ leg_funding id tx ∷ [];
}

-- One turn of the loop over the transactions.
unfoldable pub grouped : String → Transaction → Dict Receipt → Dict Receipt
grouped id tx groups =
    let purchase_id = meta_text "purchase_id" tx.metadata in
    let r : Receipt = elim (lookup purchase_id groups) [
      | none ↦ started_receipt id purchase_id tx.metadata
      | some r ↦ r
    ] in
    if str_eq purchase_id "" then groups else insert purchase_id (with_transaction id tx r) groups

unfoldable pub group_all : String → List Transaction → Dict Receipt → Dict Receipt
group_all id [] groups = groups
group_all id (tx ∷ txs) groups = group_all id txs (grouped id tx groups)

-- The receipts by descending ids; every id of the order is a key of the map.
unfoldable pub newest_first : Dict Receipt → List Receipt
newest_first groups = map (λ kv. kv.1) (reverse (sort_slice (λ a b. ltb_str a.0 b.0) groups))

unfoldable pub list_purchases : BankEnv → String → Call (List Receipt)
list_purchases env id = do
  usd ←
      on_ledger ledger_failed
        (list_transactions (kind_filter (ledger_account_id id "USD") "purchase"))
  usdc ←
      on_ledger ledger_failed
        (list_transactions (kind_filter (ledger_account_id id "USDC") "purchase"))
  pure (newest_first (group_all id (usd ++ usdc) []))
