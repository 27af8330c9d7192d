-- ===== src/Ledger/Requests/Balance.antt =====
-- Whatever calls are made, the two sides of the ledger add up to the same sum.
use stable_bank.Base.{ℕ, ◌≡◌, refl, List, arith}
use stable_bank.Ledger.Types.{settled, final}
use stable_bank.Ledger.Projection.{Projection, apply_opened, apply_status, advance_seq}
use stable_bank.Ledger.Action.{World, Env, new_world}
use stable_bank.Ledger.Sync.{InSync-new_world}
use stable_bank.Ledger.Steps.{
  Step, opens, posts, settles, finalizes, notes, Steps, here, next, moved_to,
}
use stable_bank.Ledger.Steps.Sync.{proj-opened, proj-posted, proj-settled, proj-finalized}
use stable_bank.Ledger.Totals.{total64}
use stable_bank.Ledger.TrialBalance.{IsBalanced, apply_posted-IsBalanced}
use stable_bank.Ledger.Requests.{Call, serve_all}
use stable_bank.Ledger.Requests.Replay.{serve_all-Steps}

advance_seq-IsBalanced : (n : ℕ) (p : Projection) → IsBalanced p → IsBalanced (advance_seq n p)
unfolding advance_seq
advance_seq-IsBalanced n p b = ground arith

Step-IsBalanced : {env : Env} {w v : World} → Step env w v → IsBalanced w.proj → IsBalanced v.proj
Step-IsBalanced {env} {w} (opens a e) b =
    rw (proj-opened env w a)
      (advance_seq-IsBalanced _ (apply_opened a w.proj) (unfold apply_opened in b))
Step-IsBalanced {env} {w} (posts tx valid s) b =
    rw (proj-posted env w tx)
      (advance_seq-IsBalanced _ _ (apply_posted-IsBalanced w.proj.accounts tx w.proj valid b))
Step-IsBalanced {env} {w} (settles id tx e s) b =
    let moved = moved_to env w.log.seq settled tx in
    rw (proj-settled env w moved)
      (advance_seq-IsBalanced _ (apply_status moved w.proj) (unfold apply_status in b))
Step-IsBalanced {env} {w} (finalizes id tx e s) b =
    let moved = moved_to env w.log.seq final tx in
    rw (proj-finalized env w moved)
      (advance_seq-IsBalanced _ (apply_status moved w.proj) (unfold apply_status in b))
Step-IsBalanced (notes e alien) b = b

pub Steps-IsBalanced :
    {env : Env} {w v : World} → Steps env w v → IsBalanced w.proj → IsBalanced v.proj
Steps-IsBalanced here b = b
Steps-IsBalanced (next r s) b = Step-IsBalanced s (Steps-IsBalanced r b)

-- After any calls on an empty store the lifetime debits of all accounts and their lifetime credits
-- have the same sum, both added up in int64 as the program adds.
pub trial_balance :
    (env : Env) (cs : List Call)
    → let p = (serve_all env cs new_world).proj in total64 p.debits ≡ total64 p.credits
trial_balance env cs = Steps-IsBalanced (serve_all-Steps env cs new_world InSync-new_world) refl
