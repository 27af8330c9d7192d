-- ===== src/Ledger/Steps/Sync.antt =====
-- A step keeps the projection in sync with the log, and what it makes of the projection.
use stable_bank.Base.{◌+◌, ◌≡◌, refl, ap, ok}
use stable_bank.Store.Events.{contains_string}
use stable_bank.Ledger.Types.{Account, Transaction, settled, final}
use stable_bank.Ledger.Projection.{
  Projection, event_tx_posted, event_tx_settled, event_tx_finalized, apply_payload, apply_opened,
  apply_posted, apply_status, advance_seq, decode_account, decode_transaction,
}
use stable_bank.Ledger.Action.{World, Env}
use stable_bank.Ledger.Accounts.{opened_event}
use stable_bank.Ledger.Posting.{tx_event}
use stable_bank.Ledger.Sync.{InSync, append_event-eq, append_event-InSync, noted-InSync}
use stable_bank.Ledger.Steps.{
  Step, opens, posts, settles, finalizes, notes, Steps, here, next, after, moved_to,
}

module _ (env : Env) (w : World) where
  opened-payload :
      (a : Account)
      → apply_payload (opened_event a).kind (opened_event a).payload w.proj
        ≡ ok (apply_opened a w.proj)
  unfolding apply_payload decode_account
  opened-payload a = refl

  posted-payload :
      (tx : Transaction)
      → apply_payload event_tx_posted (tx_event event_tx_posted tx).payload w.proj
        ≡ ok (apply_posted tx w.proj)
  unfolding apply_payload decode_transaction
  posted-payload tx = refl

  settled-payload :
      (tx : Transaction)
      → apply_payload event_tx_settled (tx_event event_tx_settled tx).payload w.proj
        ≡ ok (apply_status tx w.proj)
  unfolding apply_payload decode_transaction
  settled-payload tx = refl

  finalized-payload :
      (tx : Transaction)
      → apply_payload event_tx_finalized (tx_event event_tx_finalized tx).payload w.proj
        ≡ ok (apply_status tx w.proj)
  unfolding apply_payload decode_transaction
  finalized-payload tx = refl

  abbrev pub seen : Projection → Projection
  seen q = advance_seq (w.log.seq + 1) q

  pub proj-opened :
      (a : Account) → (after env (opened_event a) w).proj ≡ seen (apply_opened a w.proj)
  proj-opened a = ap (λ r. r.1.proj) (append_event-eq env _ w _ (opened-payload a))

  pub proj-posted :
      (tx : Transaction)
      → (after env (tx_event event_tx_posted tx) w).proj ≡ seen (apply_posted tx w.proj)
  proj-posted tx = ap (λ r. r.1.proj) (append_event-eq env _ w _ (posted-payload tx))

  pub proj-settled :
      (tx : Transaction)
      → (after env (tx_event event_tx_settled tx) w).proj ≡ seen (apply_status tx w.proj)
  proj-settled tx = ap (λ r. r.1.proj) (append_event-eq env _ w _ (settled-payload tx))

  pub proj-finalized :
      (tx : Transaction)
      → (after env (tx_event event_tx_finalized tx) w).proj ≡ seen (apply_status tx w.proj)
  proj-finalized tx = ap (λ r. r.1.proj) (append_event-eq env _ w _ (finalized-payload tx))

pub Step-InSync : {env : Env} {w v : World} → Step env w v → InSync w → InSync v
unfolding contains_string
Step-InSync {env} {w} (opens a e) h = append_event-InSync env _ w _ h refl (opened-payload env w a)
Step-InSync {env} {w} (posts tx e s) h =
    append_event-InSync env _ w _ h refl (posted-payload env w tx)
Step-InSync {env} {w} (settles id tx e s) h =
    append_event-InSync env _ w _ h refl (settled-payload env w (moved_to env w.log.seq settled tx))
Step-InSync {env} {w} (finalizes id tx e s) h =
    append_event-InSync env _ w _ h refl (finalized-payload env w (moved_to env w.log.seq final tx))
Step-InSync {env} {w} (notes e alien) h = noted-InSync env e w h alien

pub Steps-InSync : {env : Env} {w v : World} → Steps env w v → InSync w → InSync v
Steps-InSync here h = h
Steps-InSync (next r s) h = Step-InSync s (Steps-InSync r h)
