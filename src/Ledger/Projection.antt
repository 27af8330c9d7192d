-- ===== src/Ledger/Projection.antt =====
-- internal/ledger/projection.go: the read model, rebuilt by replaying events. The mutex is held
-- for the whole of `refresh` and of `applyAppended`, so each is one step.
pub mod Replay
use stable_bank.Base.{
  ℕ, String, Bool, Option, none, some, List, [], ◌∷◌, foldl, ltb, str_eq, if◌then◌else◌, Result, ok,
  err, ◌||◌,
}
use stable_bank.Base.Int.{ℤ, pos}
use stable_bank.Base.Int64.{add64}
use stable_bank.Base.Dict.{Dict, lookup, insert}
use stable_bank.Store.Events.{Event, EventFilter, Log, list}
use stable_bank.Ledger.Types.{
  Account, Entry, Transaction, Direction, debit, credit, other, Payload, account, transaction, loan,
  foreign, LedgerError, decode_failed,
}

abbrev pub event_account_opened : String
event_account_opened = "ledger.account.opened"

abbrev pub event_tx_posted : String
event_tx_posted = "ledger.tx.posted"

abbrev pub event_tx_settled : String
event_tx_settled = "ledger.tx.settled"

abbrev pub event_tx_finalized : String
event_tx_finalized = "ledger.tx.finalized"

abbrev pub ledger_event_types : List String
ledger_event_types =
    event_account_opened ∷ event_tx_posted ∷ event_tx_settled ∷ event_tx_finalized ∷ []

pub record Projection : Type 0 where
  pub last_seq : ℕ
  pub accounts : Dict Account
  pub txs : Dict Transaction
  pub debits : Dict ℤ
  pub credits : Dict ℤ

abbrev pub new_projection : Projection
new_projection = record { last_seq = 0; accounts = []; txs = []; debits = []; credits = [] }

-- `m[k]` on a map of int64: zero where the key is missing.
unfoldable pub lookup_zero : String → Dict ℤ → ℤ
lookup_zero k m = elim (lookup k m) [ none ↦ pos 0 | some v ↦ v ]

-- `m[k] += x`
unfoldable pub bump : String → ℤ → Dict ℤ → Dict ℤ
bump k x m = insert k (add64 (lookup_zero k m) x) m

-- The `switch en.Direction` in the loop over the entries.
unfoldable pub apply_entry_to : Direction → Entry → Projection → Projection
apply_entry_to debit en p = record p { debits = bump en.account_id en.amount.minor p.debits }
apply_entry_to credit en p = record p { credits = bump en.account_id en.amount.minor p.credits }
apply_entry_to (other d) en p = p

unfoldable pub apply_entries : List Entry → Projection → Projection
apply_entries [] p = p
apply_entries (en ∷ ens) p = apply_entries ens (apply_entry_to en.direction en p)

-- The status of a known transaction is replaced; an unknown one is stored as it is.
unfoldable pub apply_status : Transaction → Projection → Projection
apply_status tx p = record p {
  txs = elim (lookup tx.id p.txs) [
    | some existing ↦ insert tx.id (record existing { status = tx.status }) p.txs
    | none ↦ insert tx.id tx p.txs
  ];
}

-- json.Unmarshal into an Account, and into a Transaction.
unfoldable pub decode_account : Payload → Result LedgerError Account
decode_account (account a) = ok a
decode_account (transaction tx) = err (decode_failed "account")
decode_account (loan d) = err (decode_failed "account")
decode_account (foreign j) = err (decode_failed "account")

unfoldable pub decode_transaction : Payload → Result LedgerError Transaction
decode_transaction (transaction tx) = ok tx
decode_transaction (account a) = err (decode_failed "transaction")
decode_transaction (loan d) = err (decode_failed "transaction")
decode_transaction (foreign j) = err (decode_failed "transaction")

unfoldable pub apply_opened : Account → Projection → Projection
apply_opened a p = record p { accounts = insert a.id a p.accounts }

unfoldable pub apply_posted : Transaction → Projection → Projection
apply_posted tx p = apply_entries tx.entries (record p { txs = insert tx.id tx p.txs })

-- The `switch e.Type` of `apply`.
unfoldable pub apply_payload : String → Payload → Projection → Result LedgerError Projection
apply_payload kind load p =
    if str_eq kind event_account_opened
    then (elim (decode_account load) [ ok a ↦ ok (apply_opened a p) | err e ↦ err e ])
    else if str_eq kind event_tx_posted
    then (elim (decode_transaction load) [ ok tx ↦ ok (apply_posted tx p) | err e ↦ err e ])
    else if str_eq kind event_tx_settled || str_eq kind event_tx_finalized
    then (elim (decode_transaction load) [ ok tx ↦ ok (apply_status tx p) | err e ↦ err e ])
    else ok p

unfoldable pub advance_seq : ℕ → Projection → Projection
advance_seq n p = if ltb p.last_seq n then record p { last_seq = n } else p

unfoldable pub apply : Event Payload → Projection → Result LedgerError Projection
apply e p = elim (apply_payload e.kind e.payload p) [
  | ok q ↦ ok (advance_seq e.seq q)
  | err x ↦ err x
]

-- The loop of `refresh`: it stops at the first event that cannot be decoded.
unfoldable pub apply_all :
    List (Event Payload) → Projection → Result LedgerError (Unit {0}) × Projection
apply_all [] p = (ok tt, p)
apply_all (e ∷ es) p = elim (apply e p) [ ok q ↦ apply_all es q | err x ↦ (err x, p) ]

abbrev pub refresh_filter : ℕ → EventFilter
refresh_filter n = record {
  types = ledger_event_types;
  aggregate_id = "";
  after_seq = n;
  limit = 0;
}

unfoldable pub refresh_proj : Log Payload → Projection → Result LedgerError (Unit {0}) × Projection
refresh_proj log p = apply_all (list (refresh_filter p.last_seq) log) p

-- `applyAppended`: what `apply` returns is dropped.
unfoldable pub apply_appended : List (Event Payload) → Projection → Projection
apply_appended [] p = p
apply_appended (e ∷ es) p = elim (apply e p) [
  | ok q ↦ apply_appended es q
  | err x ↦ apply_appended es p
]
