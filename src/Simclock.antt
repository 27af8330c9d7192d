-- ===== src/Simclock.antt =====
-- internal/simclock/clock.go: the simulated clock, which only moves forward, and its listeners. A
-- listener is a number here, and a call of it is a notice.
pub mod Chain
mod Tests
use stable_bank.Base.{ℕ, ◌+◌, ◌*◌, ◌/◌, List, [], ◌∷◌, ◌++◌, leb, Result, ok, err, if◌then◌else◌}
use stable_bank.Base.Int.{ℤ, pos, ◌*ℤ◌, leb_ℤ, pos_part}
use stable_bank.Base.Int64.{wrap64}
use stable_bank.Store.Events.{Time}

pub record SimClock : Type 0 where
  pub now : Time
  pub listeners : List ℕ

pub data ClockError : Type 0 where
  duration_not_positive : ClockError
  days_not_positive : ClockError
  target_not_after : ClockError

-- The call of a listener with the time before and after.
pub record Notice : Type 0 where
  pub listener : ℕ
  pub prev : Time
  pub next : Time

-- A method's result, the clock after it, and the calls of listeners that it makes, in order.
pub record Effect : Type 0 where
  pub result : Result ClockError Time
  pub clock : SimClock
  pub notices : List Notice

-- `New`: the start is cut off to the second.
unfoldable pub new_clock : Time → SimClock
new_clock start = record { now = start / 1000000000 * 1000000000; listeners = [] }

-- The loop over the listeners.
abbrev pub notify : List ℕ → Time → Time → List Notice
notify [] prev next = []
notify (l ∷ ls) prev next = record { listener = l; prev = prev; next = next } ∷ notify ls prev next

unfoldable pub set_to : Time → SimClock → Effect
set_to t c =
    if leb t c.now
    then record { result = err target_not_after; clock = c; notices = [] }
    else record {
      result = ok t;
      clock = record c { now = t };
      notices = notify c.listeners c.now t;
    }

unfoldable pub advance : ℤ → SimClock → Effect
advance d c =
    if leb_ℤ d (pos 0)
    then record { result = err duration_not_positive; clock = c; notices = [] }
    else set_to (c.now + pos_part d) c

-- `time.Duration(n) * 24 * time.Hour` wraps like any int64.
unfoldable pub advance_days : ℤ → SimClock → Effect
advance_days n c =
    if leb_ℤ n (pos 0)
    then record { result = err days_not_positive; clock = c; notices = [] }
    else advance (wrap64 (n *ℤ pos 86400000000000)) c

unfoldable pub subscribe : ℕ → SimClock → SimClock
subscribe l c = record c { listeners = c.listeners ++ l ∷ [] }
