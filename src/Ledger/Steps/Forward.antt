-- ===== src/Ledger/Steps/Forward.antt =====
-- The state machine of a transaction (internal/ledger/transaction.go): pending → settled → final,
-- and nothing but the status changes after the posting.
use stable_bank.Base.{
  ℕ, ◌+◌, ◌≤◌, ◌≡◌, refl, sym, ap, ◌∙◌, subst, String, ◌&&◌, some, List, [], ◌∷◌, ◌++◌, arith,
  str_eq, eq_iff, if◌then◌else◌,
}
use stable_bank.Base.Dict.{lookup, insert, lookup-insert}
use stable_bank.Store.Events.{Event}
use stable_bank.Ledger.Types.{
  Account, Entry, Transaction, Direction, debit, credit, other, Status, unset, pending, settled,
  final, Payload,
}
use stable_bank.Ledger.Projection.{
  Projection, event_tx_posted, event_tx_settled, event_tx_finalized, apply_entry_to, apply_entries,
  apply_opened, apply_posted, apply_status, advance_seq,
}
use stable_bank.Ledger.Action.{World, Env}
use stable_bank.Ledger.Accounts.{opened_event}
use stable_bank.Ledger.Posting.{tx_event}
use stable_bank.Ledger.Steps.{
  Step, opens, posts, settles, finalizes, notes, Steps, here, next, after, moved_to,
}
use stable_bank.Ledger.Steps.Sync.{proj-opened, proj-posted, proj-settled, proj-finalized}

abbrev pub rank : Status → ℕ
rank unset = 0
rank pending = 1
rank settled = 2
rank final = 3

-- `t'` is `t` as it was posted, with a status no earlier.
pub record Forward (t t' : Transaction) : Type 0 where
  pub posted : record t' { status = t.status } ≡ t
  pub later : rank t.status ≤ rank t'.status

pub Forward-refl : (t : Transaction) → Forward t t
Forward-refl t = record { posted = refl; later = omega arith }

pub Forward-trans : (t u v : Transaction) → Forward t u → Forward u v → Forward t v
Forward-trans t u v f g = record {
  posted = ap (λ (x : Transaction). record x { status = t.status }) g.posted ∙ f.posted;
  later = omega (arith, f.later, g.later);
}

-- Every transaction is kept under its own id.
pub record IsKeyed (p : Projection) : Type 0 where
  pub own : (k : String) (t : Transaction) → lookup k p.txs ≡ some t → t.id ≡ k

txs-apply_entries : (es : List Entry) (p : Projection) → (apply_entries es p).txs ≡ p.txs
unfolding apply_entries apply_entry_to
txs-apply_entries [] p = refl
txs-apply_entries (e ∷ es) p =
    txs-apply_entries es (apply_entry_to e.direction e p) ∙ by_side e.direction
  where
    by_side : (d : Direction) → (apply_entry_to d e p).txs ≡ p.txs
    by_side debit = refl
    by_side credit = refl
    by_side (other x) = refl

txs-advance_seq : (n : ℕ) (p : Projection) → (advance_seq n p).txs ≡ p.txs
unfolding advance_seq
txs-advance_seq n p = ground arith

-- What a step makes of the transactions.
module _ (env : Env) (w : World) where
  pub txs-opened : (a : Account) → (after env (opened_event a) w).proj.txs ≡ w.proj.txs
  txs-opened a =
      ap (λ p. p.txs) (proj-opened env w a)
      ∙ txs-advance_seq (w.log.seq + 1) (apply_opened a w.proj)
      ∙ (unfold apply_opened in refl)

  pub txs-posted :
      (tx : Transaction)
      → (after env (tx_event event_tx_posted tx) w).proj.txs ≡ insert tx.id tx w.proj.txs
  txs-posted tx =
      ap (λ p. p.txs) (proj-posted env w tx)
      ∙ txs-advance_seq (w.log.seq + 1) (apply_posted tx w.proj)
      ∙ (unfold apply_posted in txs-apply_entries tx.entries _)

  txs-status :
      (tx old : Transaction)
      → lookup tx.id w.proj.txs ≡ some old
      → (apply_status tx w.proj).txs ≡ insert tx.id (record old { status = tx.status }) w.proj.txs
  unfolding apply_status
  txs-status tx old found = rw (found, apply_status)

  pub txs-settled :
      (tx old : Transaction)
      → lookup tx.id w.proj.txs ≡ some old
      → (after env (tx_event event_tx_settled tx) w).proj.txs
        ≡ insert tx.id (record old { status = tx.status }) w.proj.txs
  txs-settled tx old found =
      ap (λ p. p.txs) (proj-settled env w tx)
      ∙ txs-advance_seq (w.log.seq + 1) (apply_status tx w.proj)
      ∙ txs-status tx old found

  pub txs-finalized :
      (tx old : Transaction)
      → lookup tx.id w.proj.txs ≡ some old
      → (after env (tx_event event_tx_finalized tx) w).proj.txs
        ≡ insert tx.id (record old { status = tx.status }) w.proj.txs
  txs-finalized tx old found =
      ap (λ p. p.txs) (proj-finalized env w tx)
      ∙ txs-advance_seq (w.log.seq + 1) (apply_status tx w.proj)
      ∙ txs-status tx old found

-- A write under a key that the value carries keeps the map keyed.
insert-own :
    (k : String) (t : Transaction) (p q : Projection)
    → IsKeyed p
    → q.txs ≡ insert k t p.txs
    → t.id ≡ k
    → IsKeyed q
insert-own k t p q h e own = record {
  own = λ j u found.
      ground (arith, eq_iff k j, lookup-insert k j t p.txs, ap (lookup j) e, h.own j u);
}

same-own : (p q : Projection) → IsKeyed p → q.txs ≡ p.txs → IsKeyed q
same-own p q h e = record { own = λ j u found. ground (arith, ap (lookup j) e, h.own j u) }

-- The same transaction, looked up by its own id.
pub at_own :
    (tx : Transaction) (k : String) (p : Projection)
    → tx.id ≡ k
    → lookup k p.txs ≡ some tx
    → lookup tx.id p.txs ≡ some tx
at_own tx k p own found = subst (λ j. lookup j p.txs ≡ some tx) (sym own) found

Step-IsKeyed : {env : Env} {w v : World} → Step env w v → IsKeyed w.proj → IsKeyed v.proj
Step-IsKeyed {env} {w} (opens a e) h = same-own w.proj _ h (txs-opened env w a)
Step-IsKeyed {env} {w} (posts tx valid s) h =
    insert-own tx.id tx w.proj _ h (txs-posted env w tx) refl
Step-IsKeyed {env} {w} (settles id tx found s) h =
    let own = h.own id tx found in
    insert-own tx.id (record tx { status = settled }) w.proj _ h
      (txs-settled env w (moved_to env w.log.seq settled tx) tx (at_own tx id w.proj own found))
      refl
Step-IsKeyed {env} {w} (finalizes id tx found s) h =
    let own = h.own id tx found in
    insert-own tx.id (record tx { status = final }) w.proj _ h
      (txs-finalized env w (moved_to env w.log.seq final tx) tx (at_own tx id w.proj own found))
      refl
Step-IsKeyed (notes e alien) h = h

pub Steps-IsKeyed : {env : Env} {w v : World} → Steps env w v → IsKeyed w.proj → IsKeyed v.proj
Steps-IsKeyed here h = h
Steps-IsKeyed (next r s) h = Step-IsKeyed s (Steps-IsKeyed r h)

-- How many postings the log holds under an id.
unfoldable pub posts_of : String → List (Event Payload) → ℕ
posts_of i [] = 0
posts_of i (e ∷ es) =
    (if str_eq e.kind event_tx_posted && str_eq e.aggregate_id i then 1 else 0) + posts_of i es

pub posts_of-append :
    (i : String) (es fs : List (Event Payload))
    → posts_of i (es ++ fs) ≡ posts_of i es + posts_of i fs
unfolding posts_of
posts_of-append i [] fs = omega arith
posts_of-append i (e ∷ es) fs = omega (arith, posts_of-append i es fs)

-- A stored event stands at the end of the log.
abbrev pub posts_in : String → World → ℕ
posts_in i w = posts_of i w.log.events
