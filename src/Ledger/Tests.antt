-- ===== src/Ledger/Tests.antt =====
-- Tests of the ledger, and its theorems at concrete inputs.
use stable_bank.Base.{
  Option, ℕ, ◌+◌, ◌≡◌, ◌≢◌, ◌↔◌, refl, String, some, List, [], ◌∷◌, ok, err, arith, keep,
}
use stable_bank.Base.Int.{◌*ℤ◌, pos, negsuc, ◌+ℤ◌, ◌-ℤ◌, ◌*ℤ◌}
use stable_bank.Base.Int64.{wrap64, add64, sub64}
use stable_bank.Base.Dict.{Dict, lookup, insert}
use stable_bank.Store.Events.{append, stamp, passes, list, list_loop, contains_string}
use stable_bank.Ledger.Types.{
  amount_not_positive, Account, Entry, Transaction, Direction, debit, credit, unset, pending, final,
  currency_of, normal_balance, customer_deposit, account_exists, bad_transition,
}
use stable_bank.Ledger.Projection.{
  lookup_zero, bump, apply_entry_to, apply_entries, apply_status, decode_account,
  decode_transaction, apply_opened, apply_posted, apply_payload, advance_seq, apply, apply_all,
  refresh_proj, apply_appended, new_projection,
}
use stable_bank.Ledger.Projection.Replay.{is_ledger}
use stable_bank.Ledger.Action.{World, Env, refresh, append_event, new_world}
use stable_bank.Ledger.Accounts.{
  open_account, open_refreshed, ensure_accounts, ensure_system_accounts,
}
use stable_bank.Ledger.Posting.{
  tally, check_entry, validate_entries, check_totals, validate, append_tx_event, prepared, post,
  post_refreshed, transition, transition_refreshed, settle, finalize, post_and_finalize,
  seed_capital, seed_refreshed, any_of_kind,
}
use stable_bank.Ledger.Posting.Entries.{debit_sum, credit_sum}
use stable_bank.Ledger.Posting.Validation.{WellFormed, validate_iff, validate-exact}
use stable_bank.Ledger.Balances.{balance, balance_refreshed, natural_balance, natural_by}
use stable_bank.Ledger.Steps.Forward.{posts_of, Forward}
use stable_bank.Ledger.Totals.{total64}
use stable_bank.Ledger.Requests.{
  ensuring, Call, opening, posting, settling, finalizing, posting_final, serve, serve_all,
}
use stable_bank.Ledger.Requests.Replay.{replay-serve_all, serve_all-InSync}
use stable_bank.Ledger.Requests.Balance.{trial_balance}
use stable_bank.Ledger.Lifecycle.{status-Forward}
use stable_bank.Ledger.Fx.{convert_minor, round_rat}
use stable_bank.Base.Round.{half_up}
use stable_bank.Ledger.Fx.{
  RateProvider, FxRequest, static_provider, quote, quote_mode, convert_minor, round_rat,
}
use stable_bank.Ledger.Fx.Convert.{
  build_meta, from_transaction, to_transaction, post_both, convert, convert_refreshed,
}
use stable_bank.Ledger.Amount.{format_minor, format_int, digits, pad_left, text_of}
use stable_bank.Base.Round.{half_up}
use stable_bank.Ledger.Completion.{Completed, post_and_finalize-completes}
use stable_bank.Ledger.Races.{raced, alone, race_counts_twice}

-- All that a run of the ledger computes with.
runs : Unit {0}
unfolding ◌+ℤ◌ ◌-ℤ◌ wrap64 add64 sub64 lookup insert append stamp passes list list_loop
    contains_string currency_of normal_balance lookup_zero bump apply_entry_to apply_entries
    apply_status decode_account decode_transaction apply_opened apply_posted apply_payload
    advance_seq apply apply_all refresh_proj apply_appended refresh append_event open_account
    open_refreshed ensure_accounts ensure_system_accounts tally check_entry validate_entries
    check_totals validate append_tx_event prepared post post_refreshed transition
    transition_refreshed settle finalize post_and_finalize seed_capital seed_refreshed any_of_kind
    balance balance_refreshed natural_balance natural_by serve serve_all posts_of
runs = tt

abbrev env : Env
env = record {
  oracle = record { new_id = λ n. "event"; wall = λ n. n + 1 };
  now = λ n. n + 100;
  new_id = λ n k. "tx";
}

abbrev deposit_account : String → Account
deposit_account id = record {
  id = id;
  owner_id = "demo-user";
  account_type = customer_deposit;
  currency = "USD";
  name = id;
  opened_at = 0;
}

abbrev leg : String → Direction → ℕ → Entry
leg id side cents = record {
  account_id = id;
  direction = side;
  amount = record { currency = "USD"; minor = pos cents };
}

abbrev payment : String → ℕ → Transaction
payment id cents = record {
  id = id;
  kind = "payment";
  description = "";
  currency = "USD";
  entries = leg "a" debit cents ∷ leg "b" credit cents ∷ [];
  status = unset;
  linked_tx_id = "";
  metadata = [];
  occurred_at = 0;
}

abbrev start : List Call
start =
    opening (deposit_account "a") ∷ opening (deposit_account "b") ∷ posting (payment "p" 250) ∷ []

abbrev started : World
started = serve_all env start new_world

-- A second account of the same id, an unbalanced posting, a settlement of nothing.
abbrev more : List Call
more =
    opening (deposit_account "a")
    ∷ posting (record (payment "q" 5) { entries = leg "a" debit 5 ∷ leg "b" credit 6 ∷ [] })
    ∷ settling "q"
    ∷ finalizing "p"
    ∷ settling "p"
    ∷ finalizing "p"
    ∷ posting_final (payment "r" 30)
    ∷ []

-- The amounts are 250 and 30, on the debit side of `a` and the credit side of `b`.
balances_test :
    let w = serve_all env more started in
    ((balance "a" w).0 ≡ ok (record { currency = "USD"; minor = negsuc 279 }))
    × ((balance "b" w).0 ≡ ok (record { currency = "USD"; minor = pos 280 }))
unfolding runs
balances_test = (refl, refl)

refusals_test :
    ((open_account env (deposit_account "a") started).0 ≡ err (account_exists "a"))
    × ((finalize env "p" started).0 ≡ err (bad_transition "p" pending final))
unfolding runs
refusals_test = (refl, refl)

-- A posting under the id of a final transaction is accepted: it stands at pending again, and its
-- entries count a second time.
repost_test :
    let w =
      serve_all env (posting_final (payment "r" 30) ∷ posting (payment "r" 30) ∷ []) started in
    (lookup "r" w.proj.txs ≡ some (record (payment "r" 30) { status = pending; occurred_at = 106 }))
    × ((balance "b" w).0 ≡ ok (record { currency = "USD"; minor = pos 310 }))
unfolding runs
repost_test = (refl, refl)

-- One millionth of a USDC is less than half a cent. The conversion is refused, after its first
-- transaction was posted: the account is debited, and nothing is credited.
abbrev coins : String → Account
coins id = record (deposit_account id) { currency = "USDC" }

abbrev rates : Option RateProvider
rates = some (
    static_provider
      ((
        "USDC->USD",
        record { from = "USDC"; to = "USD"; scaled = pos 99850000; source = "mock"; as_of = 0 },
      )
        ∷ [])
      "half_up")

abbrev request : FxRequest
request = record {
  from_account_id = "coins";
  to_account_id = "a";
  from = record { currency = "USDC"; minor = pos 1 };
  kind = "";
  description = "";
  metadata = [];
}

conversion_test :
    let w = serve_all env (ensuring ∷ opening (coins "coins") ∷ []) started in
    let (r, v) = convert env rates request w in
    (r ≡ err amount_not_positive)
    × ((balance "coins" v).0 ≡ ok (record { currency = "USDC"; minor = negsuc 0 }))
unfolding runs ◌*ℤ◌ half_up format_minor format_int digits pad_left text_of static_provider quote
    quote_mode convert_minor round_rat build_meta from_transaction to_transaction post_both convert
    convert_refreshed
conversion_test = (refl, refl)

replay-serve_all_example :
    let w = serve_all env start new_world in
    apply_all (keep is_ledger w.log.events) new_projection ≡ (ok tt, w.proj)
replay-serve_all_example = replay-serve_all env start

trial_balance_example :
    let p = (serve_all env start new_world).proj in total64 p.debits ≡ total64 p.credits
trial_balance_example = trial_balance env start

abbrev posted_payment : Transaction
posted_payment = record (payment "p" 250) { status = pending; occurred_at = 102 }

status-Forward_example :
    (t' : Transaction) × (lookup "p" (serve_all env more started).proj.txs ≡ some t')
    × Forward posted_payment t'
unfolding runs
status-Forward_example = status-Forward env start more "p" posted_payment refl refl

abbrev known : Dict Account
known = ("a", deposit_account "a") ∷ ("b", deposit_account "b") ∷ []

validate_iff_example :
    (validate known (payment "p" 250) ≡ ok tt) ↔ WellFormed known (payment "p" 250)
validate_iff_example = validate_iff known (payment "p" 250)

-- Debits of 2^64 + 2 and credits of 2: `validate` adds in int64, and accepts.
overflow_test :
    validate known (record (payment "p" 1) {
      entries =
          leg "a" debit 9223372036854775807
          ∷ leg "a" debit 9223372036854775807
          ∷ leg "a" debit 4
          ∷ leg "b" credit 2
          ∷ [];
    })
    ≡ ok tt
unfolding runs
overflow_test = refl

validate-exact_example : debit_sum (payment "p" 250).entries ≡ credit_sum (payment "p" 250).entries
unfolding runs debit_sum credit_sum
validate-exact_example = validate-exact known (payment "p" 250) refl (omega arith) (omega arith)

race_counts_twice_example :
    total64 (raced env (payment "z" 7) started).debits
    ≢ total64 (alone env (payment "z" 7) started).debits
unfolding runs
race_counts_twice_example =
    race_counts_twice env (payment "z" 7) started (serve_all-InSync env start) refl

post_and_finalize-completes_example :
    Completed env started (payment "r" 30) (post_and_finalize env (payment "r" 30) started)
unfolding runs
post_and_finalize-completes_example = post_and_finalize-completes env start (payment "r" 30) refl
