-- ===== src/Bank/Tests.antt =====
-- Tests of the services together (internal/ledger, internal/rules, internal/account), and their
-- theorems at concrete inputs.
use stable_bank.Bank.{Bank, rates_of}
use stable_bank.Ledger.Types.{Amount, LedgerError}
use stable_bank.Ledger.Fx.{FxQuote}
use stable_bank.Base.Int.{ℤ, pos, ◌+ℤ◌, ◌-ℤ◌, ◌*ℤ◌}
use stable_bank.Base.Int64.{wrap64, add64, sub64}
use stable_bank.Base.Dict.{lookup, insert}
use stable_bank.Base.Sort.{insert_sorted, sort_slice}
use stable_bank.Base.Round.{half_up}
use stable_bank.Value.{
  flag, text, sequence, mapping, Values, none_left, item, Fields, no_fields, field, get, has_key,
}
use stable_bank.Store.Events.{contains_string, stamp, append, passes, list_loop, list}
use stable_bank.Store.Rules.{new_store, insert_application}
use stable_bank.Ledger.Types.{invalid_amount, currency_of, normal_balance}
use stable_bank.Ledger.Amount.{
  digits, format_int, pad_left, format_minor, all_digits, is_digits, trim_left, trim_space,
  split_point, trim_zeros, value_from, parse_int, parse_int64, parse_unsigned, parse_signed,
  parse_decimal, text_of, display, parse_amount,
}
use stable_bank.Ledger.Projection.{
  new_projection, lookup_zero, bump, apply_entry_to, apply_entries, apply_status, decode_account,
  decode_transaction, apply_opened, apply_posted, apply_payload, advance_seq, apply, apply_all,
  refresh_proj, apply_appended,
}
use stable_bank.Ledger.Action.{refresh, append_event}
use stable_bank.Ledger.Accounts.{
  open_refreshed, open_account, get_refreshed, get_account, list_accounts, ensure_accounts,
  ensure_system_accounts,
}
use stable_bank.Ledger.Posting.{
  tally, check_entry, validate_entries, check_totals, validate, append_tx_event, prepared,
  post_refreshed, post, transition_refreshed, transition, settle, finalize, post_and_finalize,
  tx_has_account, tx_passes, list_transactions,
}
use stable_bank.Ledger.Balances.{natural_by, natural_balance, balance_refreshed, balance}
use stable_bank.Ledger.Fx.{round_rat, convert_minor, invert_scaled, quote_mode, quote}
use stable_bank.Ledger.Fx.Policy.{
  string_field, rat_of_string, decimal_string_to_scaled, try_pair, pair_loop, find_fx_pair,
  effective, rate_from_policy, rounding_mode_from_content, rule_rate, rule_provider,
}
use stable_bank.Ledger.Requests.{ensuring, serve}
use stable_bank.Rules.Engine.{Engine, get_rule, get_content, recorded, evaluate}
use stable_bank.Account.Waterfall.{
  num_field, approved_single, approved_split, try_rule, walk, evaluate_waterfall,
}
use stable_bank.Account.Service.{
  AccountError, Receipt, purchase_declined, find_account, deposit_transaction, deposit,
  open_missing, open_customer_account, deposit_if_empty, seed_account,
}
use stable_bank.Account.Purchases.{
  PurchaseRequest, int_text, outcome_fields, waterfall_evaluator, leg_meta, leg_transaction,
  post_leg, post_usdc_leg, fund, fund_leg, fund_legs, fund_approved, carry_out, decide_purchase,
  purchase,
}
use stable_bank.Bank.Requests.{
  BankCall, on_books, seeding_account, purchasing, new_bank, serve_bank, serve_bank_all,
}
use stable_bank.Base.{◌≡◌, refl, String, List, [], ◌∷◌, true, Result, ok, err, keep}
use stable_bank.Rules.Documents.{Rule, Library}
use stable_bank.Bank.{BankEnv}
use stable_bank.Bank.Books.{bank_books}
use stable_bank.Ledger.Projection.Replay.{is_ledger}
use stable_bank.Ledger.Totals.{total64}
use stable_bank.Account.History.{
  started_receipt, minor_on, leg_funding, with_transaction, grouped, group_all, newest_first,
  list_purchases,
}
use stable_bank.Account.Purchases.Silence.{Untouched}
use stable_bank.Account.Purchases.Declines.{purchase-Untouched}

-- All that a run of these services computes with.
runs : Unit {0}
unfolding ◌+ℤ◌ ◌-ℤ◌ ◌*ℤ◌ wrap64 add64 sub64 lookup insert insert_sorted sort_slice half_up get
    has_key contains_string stamp append passes list_loop list insert_application currency_of
    normal_balance digits format_int pad_left format_minor all_digits is_digits trim_left trim_space
    split_point trim_zeros value_from parse_int parse_int64 parse_unsigned parse_signed
    parse_decimal text_of display parse_amount lookup_zero bump apply_entry_to apply_entries
    apply_status decode_account decode_transaction apply_opened apply_posted apply_payload
    advance_seq apply apply_all refresh_proj apply_appended refresh append_event open_refreshed
    open_account get_refreshed get_account list_accounts ensure_accounts ensure_system_accounts
    tally check_entry validate_entries check_totals validate append_tx_event prepared post_refreshed
    post transition_refreshed transition settle finalize post_and_finalize tx_has_account tx_passes
    list_transactions natural_by natural_balance balance_refreshed balance round_rat convert_minor
    invert_scaled quote_mode quote string_field rat_of_string decimal_string_to_scaled try_pair
    pair_loop find_fx_pair effective rate_from_policy rounding_mode_from_content rule_rate
    rule_provider serve get_rule get_content recorded evaluate num_field approved_single
    approved_split try_rule walk evaluate_waterfall find_account deposit_transaction deposit
    open_missing open_customer_account deposit_if_empty seed_account outcome_fields
    waterfall_evaluator leg_meta leg_transaction post_leg post_usdc_leg fund fund_leg fund_legs
    fund_approved carry_out decide_purchase purchase serve_bank serve_bank_all
runs = tt

abbrev condition : String → Values → Values
condition name cs = item (mapping (field "rule" (text name) no_fields)) cs

abbrev waterfall_content : Fields
waterfall_content = field "allow_split" (flag true) (
    field "conditions_evaluated_in_order"
      (sequence (
        condition "prefer_fiat_if_sufficient"
          (condition "split_fiat_then_stablecoin" (condition "decline" none_left))))
      no_fields)

abbrev fx_content : Fields
fx_content =
    field "pairs"
      (sequence (
        item
          (mapping (
            field "base" (text "USDC") (
              field "quote" (text "USD")
                (field "mock_rate" (text "0.99850000") (field "source" (text "mock") no_fields)))))
          none_left))
      (field "rounding" (text "half_up") no_fields)

abbrev rule : String → Fields → Rule
rule id content = record {
  rule_id = id;
  rule_type = id;
  version = pos 1;
  domain = "";
  description = "";
  rationale = "";
  owner = "";
  last_reviewed = "";
  content = content;
  raw = "";
  examples = [];
  effective_from = 0;
}

abbrev engine : Engine
engine = record {
  rule_store = new_store;
  registry = [];
  cache =
      ("spend_waterfall", rule "spend_waterfall" waterfall_content)
      ∷ ("fx_policy", rule "fx_policy" fx_content)
      ∷ [];
  evaluators = ("spend_waterfall", waterfall_evaluator) ∷ [];
}

abbrev library : Library
library = record {
  read_yaml = λ raw. ok no_fields;
  schemas = ok [];
  hash = λ raw. "";
  commit = "local";
  marshal = λ fs. "";
}

abbrev env : BankEnv
env = record {
  ledger = record {
    oracle = record { new_id = λ n. "event"; wall = λ n. n };
    now = λ n. n;
    new_id = λ n k. int_text (pos n);
  };
  library = library;
  wall = λ n. n;
  fresh = λ n. int_text (pos n);
  purchase_id = λ n. int_text (pos n);
  loan_id = λ n. int_text (pos n);
  no_policy = invalid_amount;
}

abbrev buying : ℤ → PurchaseRequest
buying cents = record { account_id = "demo-account-1"; amount_cents = cents; merchant = "" }

abbrev seeded : List BankCall
seeded = on_books ensuring ∷ seeding_account ∷ []

-- The status of a purchase, whether it is declined or not.
status_of : Result AccountError Receipt → String
status_of (ok r) = r.status
status_of (err (purchase_declined r)) = r.status
status_of (err _) = ""

-- The demo account holds 1500 USD and 800 USDC, which is 798.80 USD more.
declined_test :
    status_of (purchase env (buying (pos 240000)) (serve_bank_all env seeded (new_bank engine))).0
    ≡ "declined"
unfolding runs status_of
declined_test = refl

approved_test :
    status_of (purchase env (buying (pos 200000)) (serve_bank_all env seeded (new_bank engine))).0
    ≡ "approved"
unfolding runs status_of
approved_test = refl

purchase-Untouched_example :
    let b = serve_bank_all env seeded (new_bank engine) in
    Untouched b.world (purchase env (buying (pos 240000)) b)
purchase-Untouched_example = purchase-Untouched env engine seeded (buying (pos 240000))

abbrev calls : List BankCall
calls = on_books ensuring ∷ seeding_account ∷ purchasing (buying (pos 200000)) ∷ []

bank_books_example :
    let w = (serve_bank_all env calls (new_bank engine)).world in
    (apply_all (keep is_ledger w.log.events) new_projection ≡ (ok tt, w.proj))
    × (total64 w.proj.debits ≡ total64 w.proj.credits)
bank_books_example = bank_books env engine calls

abbrev opened : Bank
opened = serve_bank_all env seeded (new_bank engine)

abbrev dollars : Amount
dollars = record { currency = "USD"; minor = pos 150000 }

abbrev coins : Amount
coins = record { currency = "USDC"; minor = pos 800000000 }

abbrev quoted : FxQuote
quoted = record {
  from = coins;
  to = record { currency = "USD"; minor = pos 79880 };
  rate = record { from = "USDC"; to = "USD"; scaled = pos 99850000; source = "mock"; as_of = 18 };
  rounding_mode = "half_up";
}

abbrev receipt : Receipt
receipt = record {
  purchase_id = "0";
  account_id = "demo-account-1";
  status = "approved";
  amount_cents = pos 200000;
  merchant = "General Store";
  funded_by =
      record {
        currency = "USD";
        amount_minor = pos 150000;
        amount_display = "1500.00 USD";
        usd_equivalent_cents = pos 150000;
        share_pct = pos 75;
      }
      ∷ record {
        currency = "USDC";
        amount_minor = pos 500751125;
        amount_display = "500.751125 USDC";
        usd_equivalent_cents = pos 50000;
        share_pct = pos 25;
      }
      ∷ [];
  waterfall = record {
    rule_id = "spend_waterfall";
    version = pos 1;
    matched_rule = "split_fiat_then_stablecoin";
    application_id = "0";
  };
  ledger_transaction_ids = "18" ∷ "21" ∷ [];
  decline_reason = "";
  occurred_at = 18;
}

receipt_test : (purchase env (buying (pos 200000)) opened).0 ≡ ok receipt
unfolding runs
receipt_test = refl

-- The purchase in the history: at the time of its last leg.
history_test :
    (list_purchases env "demo-account-1"
      (serve_bank env (purchasing (buying (pos 200000))) opened)).0
    ≡ ok (record receipt { occurred_at = 21 } ∷ [])
unfolding runs started_receipt minor_on leg_funding with_transaction grouped group_all newest_first
    list_purchases
history_test = refl

dollars_test : (balance "demo-account-1-usd" opened.world).0 ≡ ok dollars
unfolding runs
dollars_test = refl

coins_test :
    (balance "demo-account-1-usdc" (balance "demo-account-1-usd" opened.world).1).0 ≡ ok coins
unfolding runs
coins_test = refl

minor_of : Result LedgerError FxQuote → ℤ
minor_of (ok q) = q.to.minor
minor_of (err e) = pos 0

-- Coins that count as a dollar, and the coins that a dollar takes.
coins_short_test :
    (minor_of (quote (rates_of env opened) "USDC" "USD" (pos 1000000)) ≡ pos 100)
    × (minor_of (quote (rates_of env opened) "USD" "USDC" (pos 100)) ≡ pos 1001502)
unfolding runs minor_of
coins_short_test = (refl, refl)
