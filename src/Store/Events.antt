-- ===== src/Store/Events.antt =====
-- The event log: store.Event and store.EventFilter (internal/store/store.go), and Append and List
-- of internal/store/memstore/memstore.go. The payload is a parameter of the log.
pub mod Listing
pub mod Numbering
use stable_bank.Base.{
  ℕ, ◌+◌, String, Bool, true, false, ◌&&◌, ◌||◌, not, List, [], ◌∷◌, ◌++◌, ltb, leb, ◌==◌, str_eq,
  length, if◌then◌else◌,
}

-- Nanoseconds since the zero `time.Time`, so `IsZero` is `== 0`.
abbrev pub Time : Type 0
Time = ℕ

pub record Event (P : Type 0) : Type 0 where
  pub id : String
  pub seq : ℕ
  pub kind : String
  pub aggregate_id : String
  pub occurred_at : Time
  pub recorded_at : Time
  pub payload : P

pub record EventFilter : Type 0 where
  pub types : List String
  pub aggregate_id : String
  pub after_seq : ℕ
  pub limit : ℕ

-- What the store reads from outside: the random id and the wall clock, when it stores an event
-- under a sequence number.
pub record Oracle : Type 0 where
  pub new_id : ℕ → String
  pub wall : ℕ → Time

pub record Log (P : Type 0) : Type 0 where
  pub events : List (Event P)
  pub seq : ℕ

abbrev pub empty_log : (P : Type 0) → Log P
empty_log P = record { events = []; seq = 0 }

-- `contains(xs, x)`
unfoldable pub contains_string : List String → String → Bool
contains_string [] x = false
contains_string (v ∷ xs) x = str_eq v x || contains_string xs x

abbrev pub is_empty {ℓ} : {A : Type ℓ} → List A → Bool
is_empty [] = true
is_empty (x ∷ xs) = false

module _ {P : Type 0} where
  -- The fields that the store assigns to an event.
  unfoldable pub stamp : Oracle → ℕ → Event P → Event P
  stamp o n e = record e {
    seq = n;
    id = if str_eq e.id "" then o.new_id n else e.id;
    recorded_at = if e.recorded_at == 0 then o.wall n else e.recorded_at;
  }

  abbrev pub push : Event P → Log P → Log P
  push e s = record { events = s.events ++ e ∷ []; seq = s.seq + 1 }

  -- The loop of `Append`: the stored events, and the log after them.
  unfoldable pub append : Oracle → List (Event P) → Log P → List (Event P) × Log P
  unfolding stamp
  append o [] s = ([], s)
  append o (e ∷ es) s =
      let stored = stamp o (s.seq + 1) e in
      let (out, s') = append o es (push stored s) in (stored ∷ out, s')

  -- The three `continue` tests of `List`, negated.
  unfoldable pub passes : EventFilter → Event P → Bool
  unfolding contains_string
  passes f e =
      ltb f.after_seq e.seq
      && (str_eq f.aggregate_id "" || str_eq e.aggregate_id f.aggregate_id)
      && (is_empty f.types || contains_string f.types e.kind)

  -- The loop of `List`, with its `break` at the limit.
  unfoldable pub list_loop : EventFilter → List (Event P) → List (Event P) → List (Event P)
  unfolding passes
  list_loop f [] out = out
  list_loop f (e ∷ es) out =
      let found = out ++ e ∷ [] in
      let stop = ltb 0 f.limit && leb f.limit (length found) in
      let more = list_loop f es found in
      let skipped = list_loop f es out in
      if passes f e then (if stop then found else more) else skipped

  unfoldable pub list : EventFilter → Log P → List (Event P)
  unfolding list_loop
  list f s = list_loop f s.events []
