-- ===== src/Ledger/Steps/Calls.antt =====
-- Every call of ledger.Service is a sequence of steps: its closed form over a projection that is
-- in sync with the log, errors included.
use stable_bank.Base.{◌≡◌, ◌∙◌, String, true, false, none, some, str_eq, ok, err}
use stable_bank.Base.Dict.{lookup, contains}
use stable_bank.Ledger.Types.{
  Account, Currency, Transaction, Status, currency_of, LedgerError, not_found, bad_transition,
  account_id_required, unknown_currency, account_exists,
}
use stable_bank.Ledger.Projection.{event_tx_posted}
use stable_bank.Ledger.Action.{World, Env, Action, refresh, append_event, ◌>>◌, after-refresh}
use stable_bank.Ledger.Accounts.{opened_event, open_account, open_refreshed}
use stable_bank.Ledger.Posting.{
  validate, post, post_refreshed, prepared, transition, transition_refreshed, tx_event,
  append_tx_event, same_status,
}
use stable_bank.Ledger.Sync.{InSync, refresh-InSync}
use stable_bank.Ledger.Steps.{after, moved_to}

module _ (env : Env) (w : World) (h : InSync w) where
  refreshed : {A : Type 0} (k : Action A) → (refresh >> k) w ≡ k w
  refreshed k = after-refresh k w (refresh-InSync w h)

  -- A transaction that `validate` refuses is refused, and the ledger is left as it was.
  pub post-refused :
      (tx : Transaction) {e : LedgerError}
      → validate w.proj.accounts tx ≡ err e
      → post env tx w ≡ (err e, w)
  unfolding post post_refreshed
  post-refused tx bad = refreshed (post_refreshed env tx) ∙ rw bad

  -- One that it accepts is stored as pending, and returned as it is stored.
  pub post-accepted :
      (tx : Transaction)
      → validate w.proj.accounts tx ≡ ok tt
      → post env tx w ≡ (
        ok (prepared env w.log.seq tx),
        after env (tx_event event_tx_posted (prepared env w.log.seq tx)) w,
      )
  unfolding post post_refreshed append_tx_event append_event
  post-accepted tx good = refreshed (post_refreshed env tx) ∙ rw good

  -- A move of an unknown transaction, or of one that stands elsewhere, is refused.
  pub transition-missing :
      (id : String) (from to : Status) (kind : String)
      → lookup id w.proj.txs ≡ none
      → transition env id from to kind w ≡ (err not_found, w)
  unfolding transition transition_refreshed
  transition-missing id from to kind e = refreshed (transition_refreshed env id from to kind) ∙ rw e

  pub transition-refused :
      (id : String) (from to : Status) (kind : String) (tx : Transaction)
      → lookup id w.proj.txs ≡ some tx
      → same_status tx.status from ≡ false
      → transition env id from to kind w ≡ (err (bad_transition id tx.status to), w)
  unfolding transition transition_refreshed
  transition-refused id from to kind tx e s =
      refreshed (transition_refreshed env id from to kind) ∙ rw e (rw s)

  pub transition-accepted :
      (id : String) (from to : Status) (kind : String) (tx : Transaction)
      → lookup id w.proj.txs ≡ some tx
      → same_status tx.status from ≡ true
      → transition env id from to kind w ≡ (
        ok (moved_to env w.log.seq to tx),
        after env (tx_event kind (moved_to env w.log.seq to tx)) w,
      )
  unfolding transition transition_refreshed append_tx_event append_event
  transition-accepted id from to kind tx e s =
      refreshed (transition_refreshed env id from to kind) ∙ rw e (rw s)

  -- Opening an account with an empty id, an unknown currency or a known id is refused.
  pub open_account-no_id :
      (a : Account) → str_eq a.id "" ≡ true → open_account env a w ≡ (err account_id_required, w)
  unfolding open_account
  open_account-no_id a e = rw e

  pub open_account-no_currency :
      (a : Account)
      → str_eq a.id "" ≡ false
      → currency_of a.currency ≡ none
      → open_account env a w ≡ (err (unknown_currency a.currency), w)
  unfolding open_account
  open_account-no_currency a named e = rw named (rw e)

  pub open_account-known :
      (a : Account) (c : Currency)
      → str_eq a.id "" ≡ false
      → currency_of a.currency ≡ some c
      → contains a.id w.proj.accounts ≡ true
      → open_account env a w ≡ (err (account_exists a.id), w)
  unfolding open_account open_refreshed
  open_account-known a c named known e =
      rw named (rw known (refreshed (open_refreshed env a) ∙ rw e))

  pub open_account-accepted :
      (a : Account) (c : Currency)
      → str_eq a.id "" ≡ false
      → currency_of a.currency ≡ some c
      → lookup a.id w.proj.accounts ≡ none
      → open_account env a w ≡ (
        ok (record a { opened_at = env.now w.log.seq }),
        after env (opened_event (record a { opened_at = env.now w.log.seq })) w,
      )
  unfolding open_account open_refreshed append_event
  open_account-accepted a c named known new =
      rw named (rw known (refreshed (open_refreshed env a) ∙ rw new))
