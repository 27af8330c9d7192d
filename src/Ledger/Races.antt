-- ===== src/Ledger/Races.antt =====
-- Two goroutines on one ledger.Service (internal/ledger/projection.go): a writer has appended its
-- event and has not yet called `applyAppended`, which takes the mutex again, when another call
-- refreshes the projection.
use stable_bank.Base.{
  ℕ, ◌+◌, ◌%◌, ◌≤◌, ◌<◌, ◌≡◌, ◌≢◌, refl, ap, ◌∙◌, true, inl, inr, List, [], ◌∷◌, ◌++◌, arith, ok,
  keep, keep-append, All, Bool-cases,
}
use stable_bank.Base.Int.{ℤ, pos, ◌≤ℤ◌}
use stable_bank.Base.Dict.{insert}
use stable_bank.Base.Int64.{bits, bits-lt, word_mod, wrap64, wrap64-Fits, Fits}
use stable_bank.Store.Events.{Event, Log, stamp, push, passes, list, contains_string}
use stable_bank.Store.Events.Listing.{list-eq-keep}
use stable_bank.Store.Events.Numbering.{Run, Run-le}
use stable_bank.Ledger.Types.{Payload, Transaction}
use stable_bank.Ledger.Projection.{
  Projection, new_projection, event_tx_posted, apply, apply_all, apply_payload, apply_posted,
  apply_appended, advance_seq, refresh_proj, refresh_filter, decode_transaction,
}
use stable_bank.Ledger.Projection.Replay.{is_ledger, apply_all_seen, apply_all_bounded, keep-seen}
use stable_bank.Ledger.Action.{World, Env}
use stable_bank.Ledger.Posting.{tx_event, validate}
use stable_bank.Ledger.Sync.{InSync, stored_event}
use stable_bank.Ledger.Posting.Entries.{debit_sum, credit_sum, wrapped}
use stable_bank.Ledger.Posting.Validation.{validate_sound, totals_complete}
use stable_bank.Ledger.TrialBalance.{entries_grow}
use stable_bank.Ledger.Totals.{total64, bits-zero}

-- The writer's `store.Append`.
abbrev pub logged : Env → Transaction → World → Log Payload
logged env tx w = push (stored_event env (tx_event event_tx_posted tx) w) w.log

-- The writer appends, another call refreshes, and the writer calls `applyAppended`.
pub raced : Env → Transaction → World → Projection
raced env tx w =
    let refreshed = (refresh_proj (logged env tx w) w.proj).1 in
    apply_appended (stored_event env (tx_event event_tx_posted tx) w ∷ []) refreshed

-- The writer alone: it appends and calls `applyAppended`.
pub alone : Env → Transaction → World → Projection
alone env tx w = apply_appended (stored_event env (tx_event event_tx_posted tx) w ∷ []) w.proj

module _ (env : Env) (tx : Transaction) where
  abbrev once : World → Projection → Projection
  once w p = advance_seq (w.log.seq + 1) (apply_posted tx p)

  applied :
      (w : World) (p : Projection)
      → apply (stored_event env (tx_event event_tx_posted tx) w) p ≡ ok (once w p)
  unfolding apply stamp apply_payload decode_transaction
  applied w p = refl

  alone-eq : (w : World) → alone env tx w ≡ once w w.proj
  unfolding alone apply_appended
  alone-eq w = ground (arith, applied w w.proj)

  Run-bounded :
      (n m : ℕ) (es : List (Event Payload)) → Run n es m → All (λ e. e.seq ≤ m) (keep is_ledger es)
  Run-bounded n m [] h = tt
  Run-bounded n m (e ∷ es) h = elim (Bool-cases (is_ledger e)) [
    | inl own ↦ rw own (omega (arith, Run-le (n + 1) m es h.1), Run-bounded (n + 1) m es h.1)
    | inr other ↦ rw other (Run-bounded (n + 1) m es h.1)
  ]

  -- The writer's event passes the filter of a reader at an earlier number.
  new_passes :
      (w : World) (n : ℕ)
      → n ≤ w.log.seq
      → passes (refresh_filter n) (stored_event env (tx_event event_tx_posted tx) w) ≡ true
  unfolding passes stamp contains_string
  new_passes w n h = ground arith

  raced_list :
      (w : World)
      → InSync w
      → list (refresh_filter w.proj.last_seq) (logged env tx w)
        ≡ stored_event env (tx_event event_tx_posted tx) w ∷ []
  raced_list w h =
      let n = w.proj.last_seq in
      let e = stored_event env (tx_event event_tx_posted tx) w in
      let old = keep is_ledger w.log.events in
      let within : n ≤ w.log.seq =
        apply_all_bounded w.log.seq old new_projection w.proj h.replayed
          (Run-bounded 0 w.log.seq w.log.events h.numbered) (omega arith) in
      list-eq-keep (refresh_filter n) (logged env tx w)
      ∙ keep-append (passes (refresh_filter n)) w.log.events (e ∷ [])
      ∙ ap (λ es. es ++ keep (passes (refresh_filter n)) (e ∷ []))
          (keep-seen n w.log.events (apply_all_seen old new_projection w.proj h.replayed).0)
      ∙ rw (new_passes w n within)

  refreshed-eq : (w : World) → InSync w → (refresh_proj (logged env tx w) w.proj).1 ≡ once w w.proj
  unfolding refresh_proj apply_all
  refreshed-eq w h = rw (raced_list w h) (ground (arith, applied w w.proj))

  raced-eq : (w : World) → InSync w → raced env tx w ≡ once w (once w w.proj)
  unfolding raced apply_appended
  raced-eq w h = rw (refreshed-eq w h) (ground (arith, applied w (once w w.proj)))

  debits-once : (w : World) (p : Projection) → (once w p).debits ≡ (apply_posted tx p).debits
  unfolding advance_seq
  debits-once w p = ground arith

  -- Each application adds the total of the debits once more.
  once_grows :
      (w : World) (p : Projection)
      → validate w.proj.accounts tx ≡ ok tt
      → bits (total64 (once w p).debits)
        ≡ (bits (total64 p.debits) + bits (wrap64 (debit_sum tx.entries))) % word_mod
  unfolding apply_posted
  once_grows w p valid =
      let start : Projection = record p { txs = insert tx.id tx p.txs } in
      let good = (validate_sound w.proj.accounts tx valid).good in
      let grown =
        entries_grow w.proj.accounts tx.currency tx.entries (pos 0, pos 0)
          (wrapped (debit_sum tx.entries) (credit_sum tx.entries)) start
          (totals_complete w.proj.accounts tx good) in
      omega (arith, bits-zero, bits-lt, grown.0, ap (λ m. bits (total64 m)) (debits-once w p))

bits-pos : (a : ℤ) → pos 1 ≤ℤ a → Fits a → 0 < bits a
unfolding bits
bits-pos a h f = ground arith

-- In a ledger in sync, let a writer append a posting that `validate` accepts, let another call
-- refresh before the writer's `applyAppended`, and then let the writer call it. The sum of all
-- debits is then another one than if the writer had run alone: the posting is counted twice.
pub race_counts_twice :
    (env : Env) (tx : Transaction) (w : World)
    → InSync w
    → validate w.proj.accounts tx ≡ ok tt
    → total64 (raced env tx w).debits ≢ total64 (alone env tx w).debits
race_counts_twice env tx w h valid same =
    let one = once env tx w w.proj in
    let d = wrap64 (debit_sum tx.entries) in
    let raced_sum : bits (total64 (raced env tx w).debits)
        ≡ (bits (total64 one.debits) + bits d) % word_mod =
      rw (raced-eq env tx w h) (once_grows env tx w one valid) in
    let alone_sum : bits (total64 (alone env tx w).debits) ≡ bits (total64 one.debits) =
      rw (alone-eq env tx w) in
    let positive =
      bits-pos d (validate_sound w.proj.accounts tx valid).positive
        (wrap64-Fits (debit_sum tx.entries)) in
    absurd (omega (arith, raced_sum, alone_sum, positive, ap bits same, bits-lt))
