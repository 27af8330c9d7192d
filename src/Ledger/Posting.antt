-- ===== src/Ledger/Posting.antt =====
-- The transactions of ledger.Service (internal/ledger/service.go): validation, posting, and the
-- steps pending → settled → final.
pub mod Entries
pub mod Validation
use stable_bank.Base.{
  ℕ, String, Bool, true, false, ◌&&◌, ◌||◌, not, Option, none, some, List, [], ◌∷◌, ltb, ◌==◌,
  str_eq, length, if◌then◌else◌, Result, ok, err, keep,
}
use stable_bank.Base.Int.{ℤ, pos, leb_ℤ}
use stable_bank.Base.Int64.{add64, eq_ℤ}
use stable_bank.Base.Dict.{Dict, lookup, is_none, values}
use stable_bank.Base.Sort.{ltb_str, sort_slice}
use stable_bank.Store.Events.{Event, Time}
use stable_bank.Ledger.Types.{
  Account, Amount, Entry, Transaction, Direction, debit, credit, other, Status, unset, pending,
  settled, final, Payload, transaction, currency_of, LedgerError, unknown_currency, not_found,
  too_few_entries, entry_currency_mismatch, amount_not_positive, account_missing,
  account_currency_mismatch, invalid_direction, unbalanced, total_not_positive, bad_transition,
}
use stable_bank.Ledger.Projection.{
  Projection, event_tx_posted, event_tx_settled, event_tx_finalized,
}
use stable_bank.Ledger.Action.{
  World, Env, Action, pure, gets, lift, or_fail, fail_when, refresh, append_event, ◌>>=◌, ◌>>◌,
}

-- The `switch e.Direction` of `validate`, on the running totals.
unfoldable pub tally : Direction → ℤ → ℤ × ℤ → Result LedgerError (ℤ × ℤ)
tally debit m (d, c) = ok (add64 d m, c)
tally credit m (d, c) = ok (d, add64 c m)
tally (other x) m t = err (invalid_direction x)

-- The tests of one entry, before its direction is read.
unfoldable pub check_entry : Dict Account → String → Entry → Result LedgerError (Unit {0})
check_entry accounts currency e =
    if not (str_eq e.amount.currency currency)
    then err (entry_currency_mismatch e.amount.currency currency)
    else if leb_ℤ e.amount.minor (pos 0)
    then err amount_not_positive
    else elim (lookup e.account_id accounts) [
      | none ↦ err (account_missing e.account_id)
      | some acc ↦
          if str_eq acc.currency currency
          then ok tt
          else err (account_currency_mismatch e.account_id acc.currency)
    ]

-- The loop of `validate`.
unfoldable pub validate_entries :
    Dict Account → String → List Entry → ℤ × ℤ → Result LedgerError (ℤ × ℤ)
validate_entries accounts currency [] t = ok t
validate_entries accounts currency (e ∷ es) t = elim (check_entry accounts currency e) [
  | err x ↦ err x
  | ok _ ↦ elim (tally e.direction e.amount.minor t) [
    | err x ↦ err x
    | ok t' ↦ validate_entries accounts currency es t'
  ]
]

-- The tests on the totals, after the loop.
unfoldable pub check_totals : ℤ × ℤ → Result LedgerError (Unit {0})
check_totals (d, c) =
    if not (eq_ℤ d c)
    then err (unbalanced d c)
    else if leb_ℤ d (pos 0)
    then err total_not_positive
    else ok tt

unfoldable pub validate : Dict Account → Transaction → Result LedgerError (Unit {0})
validate accounts tx =
    if ltb (length tx.entries) 2
    then err too_few_entries
    else if is_none (currency_of tx.currency)
    then err (unknown_currency tx.currency)
    else elim (validate_entries accounts tx.currency tx.entries (pos 0, pos 0)) [
      | err x ↦ err x
      | ok t ↦ check_totals t
    ]

abbrev pub tx_event : String → Transaction → Event Payload
tx_event kind tx = record {
  id = "";
  seq = 0;
  kind = kind;
  aggregate_id = tx.id;
  occurred_at = tx.occurred_at;
  recorded_at = 0;
  payload = transaction tx;
}

-- `appendTxEvent`
unfoldable pub append_tx_event : Env → String → Transaction → Action (Unit {0})
append_tx_event env kind tx = append_event env (tx_event kind tx)

-- What `Post` stores: the transaction with an id, pending, at the current time.
unfoldable pub prepared : Env → ℕ → Transaction → Transaction
prepared env n tx = record tx {
  id = if str_eq tx.id "" then env.new_id n 0 else tx.id;
  status = pending;
  occurred_at = env.now n;
}

-- `Post` once it has refreshed.
unfoldable pub post_refreshed : Env → Transaction → Action Transaction
post_refreshed env tx = do
  checked ← gets (λ w. validate w.proj.accounts tx)
  lift checked
  ready ← gets (λ w. prepared env w.log.seq tx)
  append_tx_event env event_tx_posted ready
  pure ready

unfoldable pub post : Env → Transaction → Action Transaction
post env tx = refresh >> post_refreshed env tx

abbrev pub same_status : Status → Status → Bool
same_status unset unset = true
same_status pending pending = true
same_status settled settled = true
same_status final final = true
same_status _ _ = false

-- `transition` once it has refreshed.
unfoldable pub transition_refreshed : Env → String → Status → Status → String → Action Transaction
transition_refreshed env tx_id from to kind = do
  found ← gets (λ w. lookup tx_id w.proj.txs)
  tx ← or_fail found not_found
  fail_when (not (same_status tx.status from)) (bad_transition tx_id tx.status to)
  now ← gets (λ w. env.now w.log.seq)
  let moved = record tx { status = to; occurred_at = now }
  append_tx_event env kind moved
  pure moved

unfoldable pub transition : Env → String → Status → Status → String → Action Transaction
transition env tx_id from to kind = refresh >> transition_refreshed env tx_id from to kind

unfoldable pub settle : Env → String → Action Transaction
settle env tx_id = transition env tx_id pending settled event_tx_settled

unfoldable pub finalize : Env → String → Action Transaction
finalize env tx_id = transition env tx_id settled final event_tx_finalized

unfoldable pub post_and_finalize : Env → Transaction → Action Transaction
post_and_finalize env tx = do
  posted ← post env tx
  moved ← settle env posted.id
  finalize env moved.id

unfoldable pub get_tx_refreshed : String → Action Transaction
get_tx_refreshed id = do found ← gets (λ w. lookup id w.proj.txs); or_fail found not_found

unfoldable pub get_transaction : String → Action Transaction
get_transaction id = refresh >> get_tx_refreshed id

-- `Zero values mean "no constraint"`: the empty string, the zero time, and `unset`.
pub record TxFilter : Type 0 where
  pub account_id : String
  pub kind : String
  pub from : Time
  pub to : Time
  pub status : Status

unfoldable pub tx_has_account : List Entry → String → Bool
tx_has_account [] a = false
tx_has_account (e ∷ es) a = str_eq e.account_id a || tx_has_account es a

-- The five `continue` tests of `ListTransactions`, negated.
unfoldable pub tx_passes : TxFilter → Transaction → Bool
tx_passes f tx =
    (str_eq f.account_id "" || tx_has_account tx.entries f.account_id)
    && (str_eq f.kind "" || str_eq tx.kind f.kind)
    && (same_status f.status unset || same_status tx.status f.status)
    && (f.from == 0 || not (ltb tx.occurred_at f.from))
    && (f.to == 0 || not (ltb f.to tx.occurred_at))

abbrev pub tx_before : Transaction → Transaction → Bool
tx_before a b =
    if a.occurred_at == b.occurred_at then ltb_str a.id b.id else ltb a.occurred_at b.occurred_at

unfoldable pub list_transactions : TxFilter → Action (List Transaction)
list_transactions f =
    refresh >> gets (λ w. sort_slice tx_before (keep (tx_passes f) (values w.proj.txs)))

-- The scan of `SeedCapital` for a transaction of its kind.
unfoldable pub any_of_kind : String → List Transaction → Bool
any_of_kind k [] = false
any_of_kind k (tx ∷ txs) = str_eq tx.kind k || any_of_kind k txs

abbrev pub seed_transaction : ℤ → Transaction
seed_transaction cents =
    let amount : Amount = record { currency = "USD"; minor = cents } in
    record {
      id = "";
      kind = "capital.seed";
      description = "Initial capital seed";
      currency = "USD";
      entries =
          record { account_id = "treasury-cash-usd"; direction = debit; amount = amount }
          ∷ record { account_id = "equity-capital-usd"; direction = credit; amount = amount }
          ∷ [];
      status = unset;
      linked_tx_id = "";
      metadata = [];
      occurred_at = 0;
    }

unfoldable pub seed_refreshed : Env → ℤ → Action (Unit {0})
seed_refreshed env cents = do
  seeded ← gets (λ w. any_of_kind "capital.seed" (values w.proj.txs))
  if seeded then pure tt else post_and_finalize env (seed_transaction cents) >> pure tt

unfoldable pub seed_capital : Env → ℤ → Action (Unit {0})
seed_capital env cents = refresh >> seed_refreshed env cents
