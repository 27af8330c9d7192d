-- ===== src/Ledger/Sync.antt =====
-- The projection of internal/ledger/projection.go is a replay of the event log: what `refresh`
-- and `applyAppended` keep, when the calls run one after another.
use mathlib.Core.List.{append-nil}
use stable_bank.Base.{
  ◌+◌, ◌≡◌, refl, ap, ◌∙◌, true, false, [], ◌∷◌, ◌++◌, arith, ok, keep, inl, inr, Bool-cases,
  keep-append, if◌then◌else◌,
}
use stable_bank.Store.Events.{Event, append, stamp, push, list}
use stable_bank.Store.Events.Listing.{list-eq-keep}
use stable_bank.Store.Events.Numbering.{IsNumbered, append-IsNumbered}
use stable_bank.Ledger.Types.{Payload}
use stable_bank.Ledger.Projection.{
  Projection, new_projection, apply, apply_all, apply_payload, apply_appended, advance_seq,
  refresh_proj, refresh_filter,
}
use stable_bank.Ledger.Projection.Replay.{is_ledger, apply_all-append, apply_all_seen, keep-seen}
use stable_bank.Ledger.Action.{World, Env, refresh, append_event, new_world}

pub record InSync (w : World) : Type 0 where
  pub numbered : IsNumbered w.log
  pub replayed : apply_all (keep is_ledger w.log.events) new_projection ≡ (ok tt, w.proj)

pub InSync-new_world : InSync new_world
unfolding apply_all
InSync-new_world = record { numbered = refl; replayed = refl }

-- With nothing new in the log `refresh` changes nothing.
pub refresh-InSync : (w : World) → InSync w → refresh w ≡ (ok tt, w)
unfolding refresh refresh_proj
refresh-InSync w h =
    let n = w.proj.last_seq in
    let none_new : list (refresh_filter n) w.log ≡ [] =
      list-eq-keep (refresh_filter n) w.log
      ∙ keep-seen n w.log.events
          (apply_all_seen (keep is_ledger w.log.events) new_projection w.proj h.replayed).0 in
    rw none_new (unfold apply_all in refl)

abbrev pub stored_event : Env → Event Payload → World → Event Payload
stored_event env e w = stamp env.oracle (w.log.seq + 1) e

apply-stored :
    (env : Env) (e : Event Payload) (w : World) (q : Projection)
    → apply_payload e.kind e.payload w.proj ≡ ok q
    → apply (stored_event env e w) w.proj ≡ ok (advance_seq (w.log.seq + 1) q)
unfolding apply stamp
apply-stored env e w q h = ground arith

-- An event that the ledger owns and can apply is applied once.
pub append_event-eq :
    (env : Env) (e : Event Payload) (w : World) (q : Projection)
    → apply_payload e.kind e.payload w.proj ≡ ok q
    → append_event env e w ≡ (
      ok tt,
      record { log = push (stored_event env e w) w.log; proj = advance_seq (w.log.seq + 1) q },
    )
unfolding append_event append apply_appended
append_event-eq env e w q h = ground (arith, apply-stored env e w q)

append_event-IsNumbered :
    (env : Env) (e : Event Payload) (w : World)
    → IsNumbered w.log
    → IsNumbered (push (stored_event env e w) w.log)
unfolding append
append_event-IsNumbered env e w h = (append-IsNumbered env.oracle (e ∷ []) w.log h).0

last_applied :
    (env : Env) (e : Event Payload) (w : World) (q : Projection)
    → is_ledger e ≡ true
    → apply_payload e.kind e.payload w.proj ≡ ok q
    → apply_all (keep is_ledger (stored_event env e w ∷ [])) w.proj
      ≡ (ok tt, advance_seq (w.log.seq + 1) q)
unfolding apply_all
last_applied env e w q own done = elim (Bool-cases (is_ledger (stored_event env e w))) [
  | inl same ↦ rw same (ground (arith, apply-stored env e w q))
  | inr other ↦ unfold stamp in cc
]

pub append_event-InSync :
    (env : Env) (e : Event Payload) (w : World) (q : Projection)
    → InSync w
    → is_ledger e ≡ true
    → apply_payload e.kind e.payload w.proj ≡ ok q
    → InSync (append_event env e w).1
append_event-InSync env e w q h own done = rw (append_event-eq env e w q done) (record {
  numbered = append_event-IsNumbered env e w h.numbered;
  replayed =
      ap (λ es. apply_all es new_projection)
        (keep-append is_ledger w.log.events (stored_event env e w ∷ []))
      ∙ apply_all-append (keep is_ledger w.log.events) (keep is_ledger (stored_event env e w ∷ []))
          new_projection w.proj h.replayed
      ∙ last_applied env e w q own done;
})

-- An event that the ledger does not own leaves the projection in sync.
alien_stays :
    (env : Env) (e : Event Payload) (w : World)
    → is_ledger e ≡ false
    → keep is_ledger (w.log.events ++ stored_event env e w ∷ []) ≡ keep is_ledger w.log.events
unfolding stamp
alien_stays env e w alien =
    keep-append is_ledger w.log.events (stored_event env e w ∷ [])
    ∙ ap (λ b. keep is_ledger w.log.events ++ (if b then stored_event env e w ∷ [] else [])) alien
    ∙ append-nil (keep is_ledger w.log.events)

pub noted-InSync :
    (env : Env) (e : Event Payload) (w : World)
    → InSync w
    → is_ledger e ≡ false
    → InSync (record w { log = (append env.oracle (e ∷ []) w.log).1 })
noted-InSync env e w h alien = record {
  numbered = (append-IsNumbered env.oracle (e ∷ []) w.log h.numbered).0;
  replayed =
      unfold append in
      ap (λ es. apply_all es new_projection) (alien_stays env e w alien) ∙ h.replayed;
}

-- The log after a call of `appendTxEvent`, whatever the projection makes of the event.
pub events-append_event :
    (env : Env) (e : Event Payload) (w : World)
    → (append_event env e w).1.log.events ≡ w.log.events ++ stored_event env e w ∷ []
unfolding append_event append
events-append_event env e w = refl
