-- ===== src/Ledger/Lifecycle.antt =====
-- A transaction only goes forward while the calls go on (internal/ledger/service.go, `transition`).
use stable_bank.Base.{
  ◌+◌, ◌≤◌, ◌≡◌, refl, ap, ◌∙◌, subst, String, false, inl, inr, some, List, [], ◌∷◌, ◌++◌, arith,
  str_eq, eq_iff, Bool-cases,
}
use stable_bank.Base.Dict.{lookup, insert, lookup-insert}
use stable_bank.Store.Events.{Event, stamp, append}
use stable_bank.Ledger.Types.{Transaction, Status, settled, final, Payload}
use stable_bank.Ledger.Projection.{event_tx_posted, event_tx_settled, event_tx_finalized}
use stable_bank.Ledger.Action.{World, Env, new_world}
use stable_bank.Ledger.Accounts.{opened_event}
use stable_bank.Ledger.Posting.{tx_event}
use stable_bank.Ledger.Sync.{InSync-new_world, events-append_event, stored_event}
use stable_bank.Ledger.Steps.{
  Step, opens, posts, settles, finalizes, notes, Steps, here, next, after, moved_to, noted,
}
use stable_bank.Ledger.Steps.Forward.{
  Forward, Forward-refl, Forward-trans, IsKeyed, Steps-IsKeyed, rank, posts_in, at_own, posts_of,
  posts_of-append, txs-opened, txs-posted, txs-settled, txs-finalized,
}
use stable_bank.Ledger.Requests.{Call, serve_all}
use stable_bank.Ledger.Requests.Replay.{serve_all-Steps, serve_all-InSync}

module _ (env : Env) (i : String) where
  posts_in-after :
      (e : Event Payload) (w : World)
      → posts_in i (after env e w) ≡ posts_in i w + posts_of i (stored_event env e w ∷ [])
  posts_in-after e w =
      ap (posts_of i) (events-append_event env e w)
      ∙ posts_of-append i w.log.events (stored_event env e w ∷ [])

  noted_events :
      (e : Event Payload) (w : World)
      → posts_in i (noted env e w) ≡ posts_of i (w.log.events ++ stored_event env e w ∷ [])
  unfolding append
  noted_events e w = refl

  -- The postings under an id are never fewer.
  Step-posts_in : {w v : World} → Step env w v → posts_in i w ≤ posts_in i v
  Step-posts_in {w} (opens a e) = omega (arith, posts_in-after (opened_event a) w)
  Step-posts_in {w} (posts tx h s) = omega (arith, posts_in-after (tx_event event_tx_posted tx) w)
  Step-posts_in {w} (settles id tx e s) =
      omega
        (arith, posts_in-after (tx_event event_tx_settled (moved_to env w.log.seq settled tx)) w)
  Step-posts_in {w} (finalizes id tx e s) =
      omega
        (arith, posts_in-after (tx_event event_tx_finalized (moved_to env w.log.seq final tx)) w)
  Step-posts_in {w} (notes e alien) =
      omega (arith, posts_of-append i w.log.events (stored_event env e w ∷ []), noted_events e w)

  -- A posting under the id is one more.
  posting_counts :
      (w : World) (tx : Transaction)
      → posts_in i w ≡ posts_in i (after env (tx_event event_tx_posted tx) w)
      → str_eq tx.id i ≡ false
  unfolding posts_of stamp
  posting_counts w tx h = ground (arith, posts_in-after (tx_event event_tx_posted tx) w)

  -- What has become of the transaction that stands under the id.
  abbrev Became : Transaction → World → Type 0
  Became t v = (t' : Transaction) × (lookup i v.proj.txs ≡ some t') × Forward t t'

  -- The status of a known transaction is written.
  status_written :
      (w v : World) (tx t : Transaction) (to : Status)
      → v.proj.txs ≡ insert tx.id (record tx { status = to }) w.proj.txs
      → lookup tx.id w.proj.txs ≡ some tx
      → lookup i w.proj.txs ≡ some t
      → rank tx.status ≤ rank to
      → Became t v
  status_written w v tx t to e found stands up = elim (Bool-cases (str_eq tx.id i)) [
    | inl same ↦
        let at_i : tx.id ≡ i = (eq_iff tx.id i).0 same in
        let is_tx : tx ≡ t =
          ground (arith, subst (λ k. lookup k w.proj.txs ≡ some tx) at_i found) in
        (
          record tx { status = to },
          ap (lookup i) e ∙ lookup-insert tx.id i (record tx { status = to }) w.proj.txs ∙ rw same,
          subst (λ x. Forward x (record tx { status = to })) is_tx
              (record { posted = refl; later = up }),
        )
    | inr other ↦ (
      t,
      ap (lookup i) e
          ∙ lookup-insert tx.id i (record tx { status = to }) w.proj.txs
          ∙ rw other stands,
      Forward-refl t,
    )
  ]

  Step-Forward :
      {w v : World} (t : Transaction)
      → Step env w v
      → IsKeyed w.proj
      → posts_in i w ≡ posts_in i v
      → lookup i w.proj.txs ≡ some t
      → Became t v
  Step-Forward {w} t (opens a e) k n h = (t, ap (lookup i) (txs-opened env w a) ∙ h, Forward-refl t)
  Step-Forward {w} t (posts tx ok_tx s) k n h = (
    t,
    ap (lookup i) (txs-posted env w tx)
        ∙ lookup-insert tx.id i tx w.proj.txs
        ∙ rw (posting_counts w tx n) h,
    Forward-refl t,
  )
  Step-Forward {w} {v} t (settles id tx e s) k n h =
      let own = at_own tx id w.proj (k.own id tx e) e in
      status_written w v tx t settled (txs-settled env w (moved_to env w.log.seq settled tx) tx own)
        own h (omega (arith, ap rank s))
  Step-Forward {w} {v} t (finalizes id tx e s) k n h =
      let own = at_own tx id w.proj (k.own id tx e) e in
      status_written w v tx t final (txs-finalized env w (moved_to env w.log.seq final tx) tx own)
        own h (omega (arith, ap rank s))
  Step-Forward t (notes e alien) k n h = (t, h, Forward-refl t)

  Steps-posts_in : {w v : World} → Steps env w v → posts_in i w ≤ posts_in i v
  Steps-posts_in here = omega arith
  Steps-posts_in (next r s) = omega (arith, Steps-posts_in r, Step-posts_in s)

  Steps-Forward :
      {w v : World} (t : Transaction)
      → Steps env w v
      → IsKeyed w.proj
      → posts_in i w ≡ posts_in i v
      → lookup i w.proj.txs ≡ some t
      → Became t v
  Steps-Forward t here k n h = (t, h, Forward-refl t)
  Steps-Forward t (next r s) k n h =
      let before = Steps-posts_in r in
      let last = Step-posts_in s in
      let (t', h', f) = Steps-Forward t r k (omega arith) h in
      let (t₂, h₂, g) = Step-Forward t' s (Steps-IsKeyed r k) (omega arith) h' in
      (t₂, h₂, Forward-trans t t' t₂ f g)

IsKeyed-new_world : IsKeyed new_world.proj
unfolding lookup
IsKeyed-new_world = record { own = λ k t e. cc }

-- Take any calls on an empty store, and then any others, during which no further posting is stored
-- under the id of a transaction that is known after the first. The transaction is then still
-- known, every field but its status is as it was, entries included, and its status is the same or
-- a later one of pending, settled, final.
pub status-Forward :
    (env : Env) (first more : List Call) (i : String) (t : Transaction)
    → posts_of i (serve_all env first new_world).log.events
      ≡ posts_of i (serve_all env more (serve_all env first new_world)).log.events
    → lookup i (serve_all env first new_world).proj.txs ≡ some t
    → (t' : Transaction) × (lookup i (serve_all env more (serve_all env first new_world)).proj.txs
        ≡ some t')
      × Forward t t'
status-Forward env first more i t n h =
    let start = serve_all-Steps env first new_world InSync-new_world in
    Steps-Forward env i t
      (serve_all-Steps env more (serve_all env first new_world) (serve_all-InSync env first))
      (Steps-IsKeyed start IsKeyed-new_world) n h
