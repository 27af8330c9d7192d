-- ===== src/Ledger/Completion.antt =====
-- `PostAndFinalize` of internal/ledger/service.go comes to its end.
use stable_bank.Base.{
  ◌≡◌, refl, sym, ap, subst, ◌∙◌, String, true, some, List, eq_refl, Result, ok, err,
}
use stable_bank.Base.Dict.{Dict, lookup, insert, lookup-insert}
use stable_bank.Ledger.Types.{Transaction, pending, settled, final, LedgerError}
use stable_bank.Ledger.Projection.{event_tx_posted, event_tx_settled, event_tx_finalized}
use stable_bank.Ledger.Action.{World, Env, Action, new_world, ◌>>=◌}
use stable_bank.Ledger.Posting.{
  validate, prepared, post, settle, finalize, post_and_finalize, tx_event, same_status,
}
use stable_bank.Ledger.Sync.{InSync}
use stable_bank.Ledger.Steps.{Step, posts, settles, after, moved_to}
use stable_bank.Ledger.Steps.Calls.{post-accepted, transition-accepted}
use stable_bank.Ledger.Steps.Sync.{Step-InSync}
use stable_bank.Ledger.Steps.Forward.{txs-posted, txs-settled, txs-finalized}
use stable_bank.Ledger.Requests.{Call, serve_all}
use stable_bank.Ledger.Requests.Replay.{serve_all-InSync}

-- A call that succeeds goes on with the rest.
after_ok :
    {A B : Type 0} (m : Action A) (k : A → Action B) (w : World) {a : A} {v : World}
    → m w ≡ (ok a, v)
    → (m >>= k) w ≡ k a v
after_ok {A} {B} m k w e =
    ap
      (λ r. elim r.0 as (λ _. Result LedgerError B × World) [
        | ok a ↦ k a r.1
        | err x ↦ (err x, r.1)
      ])
      e

found_there :
    (k : String) (t : Transaction) (m : Dict Transaction) → lookup k (insert k t m) ≡ some t
found_there k t m = lookup-insert k k t m ∙ rw (eq_refl k) refl

module _ (env : Env) (tx : Transaction) (w : World) (h : InSync w)
    (good : validate w.proj.accounts tx ≡ ok tt) where
  abbrev posted : Transaction
  posted = prepared env w.log.seq tx

  abbrev one : World
  one = after env (tx_event event_tx_posted posted) w

  one-InSync : InSync one
  one-InSync =
      let step : Step env w one =
        posts posted (unfold validate prepared in good) (unfold prepared in refl) in
      Step-InSync step h

  one-lookup : lookup posted.id one.proj.txs ≡ some posted
  one-lookup =
      ap (lookup posted.id) (txs-posted env w posted) ∙ found_there posted.id posted w.proj.txs

  abbrev moved : Transaction
  moved = moved_to env one.log.seq settled posted

  abbrev two : World
  two = after env (tx_event event_tx_settled moved) one

  posted_status : same_status posted.status pending ≡ true
  posted_status = unfold prepared in refl

  settle-moved : settle env posted.id one ≡ (ok moved, two)
  unfolding settle
  settle-moved =
      transition-accepted env one one-InSync posted.id pending settled event_tx_settled posted
        one-lookup posted_status

  abbrev kept : Transaction
  kept = record posted { status = settled }

  two-InSync : InSync two
  two-InSync =
      let step : Step env one two = settles posted.id posted one-lookup (unfold prepared in refl) in
      Step-InSync step one-InSync

  two-lookup : lookup posted.id two.proj.txs ≡ some kept
  two-lookup =
      ap (lookup posted.id) (txs-settled env one moved posted one-lookup)
      ∙ found_there posted.id kept one.proj.txs

  abbrev ended : Transaction
  ended = moved_to env two.log.seq final kept

  abbrev three : World
  three = after env (tx_event event_tx_finalized ended) two

  finalize-ended : finalize env posted.id two ≡ (ok ended, three)
  unfolding finalize
  finalize-ended =
      transition-accepted env two two-InSync posted.id settled final event_tx_finalized kept
        two-lookup refl

  three-lookup : lookup posted.id three.proj.txs ≡ some (record posted { status = final })
  three-lookup =
      ap (lookup posted.id) (txs-finalized env two ended kept two-lookup)
      ∙ found_there posted.id (record posted { status = final }) two.proj.txs

  final_time :
      some (record posted { status = final })
      ≡ some (record ended { occurred_at = env.now w.log.seq })
  final_time = unfold prepared in refl

  all_three : post_and_finalize env tx w ≡ (ok ended, three)
  unfolding post_and_finalize
  all_three =
      after_ok (post env tx) (λ p. settle env p.id >>= λ s. finalize env s.id) w
        (post-accepted env w h tx good)
      ∙ after_ok (settle env posted.id) (λ s. finalize env s.id) one settle-moved
      ∙ finalize-ended

-- What a finished call leaves: a final transaction with the entries of the request, which the
-- projection has under its id, with the time of its posting.
abbrev pub Completed : Env → World → Transaction → Result LedgerError Transaction × World → Type 0
Completed env w tx (r, v) =
    (t : Transaction) × (r ≡ ok t)
    × (t.status ≡ final)
    × (t.entries ≡ tx.entries)
    × (lookup t.id v.proj.txs ≡ some (record t { occurred_at = env.now w.log.seq }))

-- After any calls on an empty store, posting and finalizing a transaction that validation accepts
-- succeeds: it returns a final transaction with the same entries, and the projection holds this
-- transaction under its id, except that the time there is that of the posting.
pub post_and_finalize-completes :
    (env : Env) (cs : List Call) (tx : Transaction)
    → let w = serve_all env cs new_world in
      validate w.proj.accounts tx ≡ ok tt → Completed env w tx (post_and_finalize env tx w)
post_and_finalize-completes env cs tx good =
    let w = serve_all env cs new_world in
    let h = serve_all-InSync env cs in
    subst (Completed env w tx) (sym (all_three env tx w h good)) (
      ended env tx w h good,
      refl,
      refl,
      unfold prepared in refl,
      three-lookup env tx w h good ∙ final_time env tx w h good,
    )
