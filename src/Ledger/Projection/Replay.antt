-- ===== src/Ledger/Projection/Replay.antt =====
-- Replaying events: a replay in two parts, the last number seen, and what is left to replay.
use stable_bank.Base.{
  ℕ, ◌≤◌, ◌≡◌, refl, String, Bool, inl, inr, ◌∙◌, List, [], ◌∷◌, ◌++◌, arith, ok, keep, All,
  Bool-cases, Result-cases,
}
use stable_bank.Base.Dict.{insert}
use stable_bank.Store.Events.{Event, passes, contains_string}
use stable_bank.Ledger.Types.{
  Payload, account, transaction, loan, foreign, Entry, debit, credit, other, Direction,
}
use stable_bank.Ledger.Projection.{
  Projection, apply, apply_all, apply_payload, apply_opened, apply_posted, apply_status,
  apply_entries, apply_entry_to, advance_seq, refresh_filter, ledger_event_types, decode_account,
  decode_transaction,
}

-- The events that the ledger owns.
abbrev pub is_ledger : Event Payload → Bool
is_ledger e = contains_string ledger_event_types e.kind

pub apply_all-append :
    (es fs : List (Event Payload)) (p q : Projection)
    → apply_all es p ≡ (ok tt, q)
    → apply_all (es ++ fs) p ≡ apply_all fs q
unfolding apply_all
apply_all-append [] fs p q h = ground arith
apply_all-append (e ∷ es) fs p q h = elim (Result-cases (apply e p)) [
  | inl (p', done) ↦ ground (arith, apply_all-append es fs p' q)
  | inr (x, failed) ↦ ground arith
]

last_seq-apply_entries :
    (es : List Entry) (p : Projection) → (apply_entries es p).last_seq ≡ p.last_seq
unfolding apply_entries apply_entry_to
last_seq-apply_entries [] p = refl
last_seq-apply_entries (e ∷ es) p =
    last_seq-apply_entries es (apply_entry_to e.direction e p) ∙ by_side e.direction
  where
    by_side : (d : Direction) → (apply_entry_to d e p).last_seq ≡ p.last_seq
    by_side debit = refl
    by_side credit = refl
    by_side (other x) = refl

last_seq-apply_payload :
    (k : String) (load : Payload) (p q : Projection)
    → apply_payload k load p ≡ ok q
    → q.last_seq ≡ p.last_seq
unfolding apply_payload apply_opened apply_posted apply_status decode_account decode_transaction
last_seq-apply_payload k (account a) p q h = ground arith
last_seq-apply_payload k (transaction tx) p q h =
    ground (arith, last_seq-apply_entries tx.entries (record p { txs = insert tx.id tx p.txs }))
last_seq-apply_payload k (loan d) p q h = ground arith
last_seq-apply_payload k (foreign j) p q h = ground arith

-- After an event both the event's number and the old last number have been seen.
apply_seen :
    (e : Event Payload) (p q : Projection)
    → apply e p ≡ ok q
    → (e.seq ≤ q.last_seq) × (p.last_seq ≤ q.last_seq)
unfolding apply advance_seq
apply_seen e p q h = elim (Result-cases (apply_payload e.kind e.payload p)) [
  | inl (r, done) ↦ ground (arith, last_seq-apply_payload e.kind e.payload p r)
  | inr (x, failed) ↦ ground arith
]

apply_bounded :
    (m : ℕ) (e : Event Payload) (p q : Projection)
    → apply e p ≡ ok q
    → e.seq ≤ m
    → p.last_seq ≤ m
    → q.last_seq ≤ m
unfolding apply advance_seq
apply_bounded m e p q h le le' = elim (Result-cases (apply_payload e.kind e.payload p)) [
  | inl (r, done) ↦ ground (arith, last_seq-apply_payload e.kind e.payload p r)
  | inr (x, failed) ↦ absurd (ground arith)
]

-- A replay of numbers up to `m` ends at `m` or before.
pub apply_all_bounded :
    (m : ℕ) (es : List (Event Payload)) (p q : Projection)
    → apply_all es p ≡ (ok tt, q)
    → All (λ e. e.seq ≤ m) es
    → p.last_seq ≤ m
    → q.last_seq ≤ m
unfolding apply_all
apply_all_bounded m [] p q h all le = ground arith
apply_all_bounded m (e ∷ es) p q h all le = elim (Result-cases (apply e p)) [
  | inl (r, done) ↦
      apply_all_bounded m es r q (ground arith) all.1 (apply_bounded m e p r done all.0 le)
  | inr (x, failed) ↦ absurd (ground arith)
]

-- After a replay every number in it has been seen.
pub apply_all_seen :
    (es : List (Event Payload)) (p q : Projection)
    → apply_all es p ≡ (ok tt, q)
    → All (λ e. e.seq ≤ q.last_seq) es × (p.last_seq ≤ q.last_seq)
unfolding apply_all
apply_all_seen [] p q h = ground arith
apply_all_seen (e ∷ es) p q h = elim (Result-cases (apply e p)) [
  | inl (r, done) ↦
      let rest : All (λ e. e.seq ≤ q.last_seq) es × (r.last_seq ≤ q.last_seq) =
        apply_all_seen es r q (ground arith) in
      ground (arith, apply_seen e p r)
  | inr (x, failed) ↦ ground arith
]

-- A reader at the last number of a replay is given nothing again.
pub keep-seen :
    (n : ℕ) (es : List (Event Payload))
    → All (λ e. e.seq ≤ n) (keep is_ledger es)
    → keep (passes (refresh_filter n)) es ≡ []
unfolding passes
keep-seen n [] h = refl
keep-seen n (e ∷ es) h = elim (Bool-cases (is_ledger e)) [
  | inl own ↦ ground (arith, keep-seen n es)
  | inr alien ↦ ground (arith, keep-seen n es)
]
