-- ===== src/Ledger/Steps.antt =====
-- What a call of ledger.Service (internal/ledger/service.go) does to the ledger, as a step
-- relation: nothing, or one event appended under the guards of its method. Calls run one after
-- another here; `Ledger.Races` is about calls that interleave.
pub mod Calls
pub mod Sync
pub mod Runs
pub mod Forward
use stable_bank.Base.{
  ℕ, ◌+◌, ◌≡◌, String, Bool, true, false, Option, none, some, [], ◌∷◌, Result, ok, err,
}
use stable_bank.Base.Dict.{lookup}
use stable_bank.Store.Events.{Event, append}
use stable_bank.Ledger.Types.{
  Account, Transaction, Status, pending, settled, final, Currency, currency_of, Payload,
}
use stable_bank.Ledger.Projection.{event_tx_posted, event_tx_settled, event_tx_finalized}
use stable_bank.Ledger.Projection.Replay.{is_ledger}
use stable_bank.Ledger.Action.{World, Env, append_event}
use stable_bank.Ledger.Accounts.{opened_event}
use stable_bank.Ledger.Posting.{tx_event, validate}

abbrev pub after : Env → Event Payload → World → World
after env e w = (append_event env e w).1

-- The transaction `tx` once it stands at `to`.
abbrev pub moved_to : Env → ℕ → Status → Transaction → Transaction
moved_to env n to tx = record tx { status = to; occurred_at = env.now n }

-- The ledger once another package has stored an event of its own: the projection is as it was.
abbrev pub noted : Env → Event Payload → World → World
noted env e w = record w { log = (append env.oracle (e ∷ []) w.log).1 }

pub data Step (env : Env) (w : World) : World → Type 0 where
  opens :
      (a : Account) → lookup a.id w.proj.accounts ≡ none → Step env w (after env (opened_event a) w)
  posts :
      (tx : Transaction)
      → validate w.proj.accounts tx ≡ ok tt
      → tx.status ≡ pending
      → Step env w (after env (tx_event event_tx_posted tx) w)
  settles :
      (id : String) (tx : Transaction)
      → lookup id w.proj.txs ≡ some tx
      → tx.status ≡ pending
      → Step env w (after env (tx_event event_tx_settled (moved_to env w.log.seq settled tx)) w)
  finalizes :
      (id : String) (tx : Transaction)
      → lookup id w.proj.txs ≡ some tx
      → tx.status ≡ settled
      → Step env w (after env (tx_event event_tx_finalized (moved_to env w.log.seq final tx)) w)
  notes : (e : Event Payload) → is_ledger e ≡ false → Step env w (noted env e w)

pub data Steps (env : Env) (w : World) : World → Type 0 where
  here : Steps env w w
  next : {v u : World} → Steps env w v → Step env v u → Steps env w u

pub Steps-trans : {env : Env} {w v u : World} → Steps env w v → Steps env v u → Steps env w u
Steps-trans r here = r
Steps-trans r (next s t) = next (Steps-trans r s) t

pub Steps-one : {env : Env} {w v : World} → Step env w v → Steps env w v
Steps-one s = next here s
