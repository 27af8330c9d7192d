-- ===== src/Ledger/Action.antt =====
-- A method of ledger.Service (internal/ledger/service.go): it takes the event store and the
-- projection, and returns a result or an error together with both as the call leaves them.
use stable_bank.Base.{
  ℕ, String, Bool, Option, none, some, [], ◌∷◌, Result, ok, err, ◌≡◌, ap, if◌then◌else◌,
}
use stable_bank.Store.Events.{Event, Log, Oracle, Time, append, empty_log}
use stable_bank.Ledger.Types.{Payload, LedgerError}
use stable_bank.Ledger.Projection.{Projection, new_projection, refresh_proj, apply_appended}

pub record World : Type 0 where
  pub log : Log Payload
  pub proj : Projection

abbrev pub new_world : World
new_world = record { log = empty_log Payload; proj = new_projection }

-- What a call reads from outside: the store's own source of ids and time, the simulated clock and
-- the random ids of `newID`, each by the number of events stored at the time of the call.
pub record Env : Type 0 where
  pub oracle : Oracle
  pub now : ℕ → Time
  pub new_id : ℕ → ℕ → String

abbrev pub Action : Type 0 → Type 0
Action A = World → Result LedgerError A × World

module _ {A : Type 0} where
  abbrev pub pure : A → Action A
  pure a w = (ok a, w)

  abbrev pub fail : LedgerError → Action A
  fail e w = (err e, w)

  abbrev pub gets : (World → A) → Action A
  gets f w = (ok (f w), w)

  abbrev pub lift : Result LedgerError A → Action A
  lift r w = (r, w)

  abbrev pub or_fail : Option A → LedgerError → Action A
  or_fail o e w = (elim o [ none ↦ err e | some a ↦ ok a ], w)

infixl 5 ◌>>=◌ ◌>>◌
abbrev pub ◌>>=◌ : {A B : Type 0} → Action A → (A → Action B) → Action B
◌>>=◌ m f w = let (r, w') = m w in elim r [ ok a ↦ f a w' | err e ↦ (err e, w') ]

abbrev pub ◌>>◌ : {A B : Type 0} → Action A → Action B → Action B
m >> k = m >>= λ _. k

abbrev pub fail_when : Bool → LedgerError → Action (Unit {0})
fail_when b e w = (if b then err e else ok tt, w)

-- `s.refresh(ctx)`
unfoldable pub refresh : Action (Unit {0})
refresh w = let (r, p) = refresh_proj w.log w.proj in (r, record w { proj = p })

-- `s.store.Append(ctx, e)`, then `s.applyAppended(events)`.
unfoldable pub append_event : Env → Event Payload → Action (Unit {0})
append_event env e w =
    let (stored, log) = append env.oracle (e ∷ []) w.log in
    (ok tt, record { log = log; proj = apply_appended stored w.proj })

-- With a known outcome of `refresh` a call goes on with the rest.
pub after-refresh :
    {A : Type 0} (k : Action A) (w : World) → refresh w ≡ (ok tt, w) → (refresh >> k) w ≡ k w
after-refresh {A} k w e =
    ap
      (λ r. elim r.0 as (λ _. Result LedgerError A × World) [ ok _ ↦ k r.1 | err x ↦ (err x, r.1) ])
      e
