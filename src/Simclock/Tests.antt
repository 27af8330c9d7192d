-- ===== src/Simclock/Tests.antt =====
-- Tests of the simulated clock (internal/simclock/clock.go), and its theorem at a concrete input.
use stable_bank.Base.{◌+◌, ◌≡◌, refl, List, [], ◌∷◌, err}
use stable_bank.Base.Int.{pos, ◌*ℤ◌}
use stable_bank.Base.Int64.{wrap64}
use stable_bank.Simclock.{
  SimClock, duration_not_positive, new_clock, set_to, advance, advance_days, subscribe,
}
use stable_bank.Simclock.Chain.{
  Move, setting, advancing, advancing_days, run_moves, heard, subscriptions, IsChain,
  run_moves-IsChain,
}

-- All that the clock computes with.
runs : Unit {0}
unfolding ◌*ℤ◌ wrap64 new_clock set_to advance advance_days subscribe run_moves heard subscriptions
runs = tt

abbrev clock : SimClock
clock = subscribe 7 (subscribe 4 (new_clock 5000000123))

abbrev moves : List Move
moves = advancing (pos 2) ∷ setting 3 ∷ advancing_days (pos 1) ∷ []

heard_test :
    heard 7 (run_moves moves clock).1 ≡ (5000000000, 5000000002) ∷ (5000000002, 86405000000002) ∷ []
unfolding runs
heard_test = refl

-- 106752 days do not fit into a Duration, and are refused; 213504 days wrap around to less than half
-- an hour, and the clock moves by that.
overflow_test :
    ((advance_days (pos 106752) clock).result ≡ err duration_not_positive)
    × ((advance_days (pos 213504) clock).clock.now ≡ clock.now + 1526290448384)
unfolding runs
overflow_test = (refl, refl)

run_moves-IsChain_example :
    let (last, notices) = run_moves moves clock in IsChain clock.now (heard 7 notices) last.now
unfolding runs
run_moves-IsChain_example = run_moves-IsChain 7 moves clock refl
