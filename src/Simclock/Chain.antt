-- ===== src/Simclock/Chain.antt =====
-- What a listener of the simulated clock (internal/simclock/clock.go) hears.
use stable_bank.Base.{
  ℕ, suc, ◌+◌, ◌<◌, ◌≡◌, refl, sym, ap, subst, ◌∙◌, Result, err, ◌==◌, List, [], ◌∷◌, ◌++◌, arith,
  leb, Bool-cases, inl, inr, if◌then◌else◌,
}
use stable_bank.Base.Int.{ℤ, pos, ◌*ℤ◌, leb_ℤ, pos_part}
use stable_bank.Base.Int64.{wrap64}
use stable_bank.Store.Events.{Time}
use stable_bank.Simclock.{
  SimClock, ClockError, duration_not_positive, days_not_positive, target_not_after, Notice, Effect,
  notify, set_to, advance, advance_days,
}

-- The moves of the clock, one after another.
pub data Move : Type 0 where
  setting : Time → Move
  advancing : ℤ → Move
  advancing_days : ℤ → Move

abbrev pub effect_of : Move → SimClock → Effect
effect_of (setting t) c = set_to t c
effect_of (advancing d) c = advance d c
effect_of (advancing_days n) c = advance_days n c

unfoldable pub run_moves : List Move → SimClock → SimClock × List Notice
run_moves [] c = (c, [])
run_moves (m ∷ ms) c =
    let e = effect_of m c in let (last, later) = run_moves ms e.clock in (last, e.notices ++ later)

-- The intervals that listener `l` hears of.
unfoldable pub heard : ℕ → List Notice → List (Time × Time)
heard l [] = []
heard l (n ∷ ns) = if n.listener == l then (n.prev, n.next) ∷ heard l ns else heard l ns

unfoldable pub subscriptions : ℕ → List ℕ → ℕ
subscriptions l [] = 0
subscriptions l (k ∷ ks) = if k == l then suc (subscriptions l ks) else subscriptions l ks

-- The intervals lead from `a` to `b` without a gap, each one forward.
abbrev pub IsChain : Time → List (Time × Time) → Time → Type 0
IsChain a [] b = a ≡ b
IsChain a ((prev, next) ∷ is) b = (prev ≡ a) × (a < next) × IsChain next is b

heard-append : (l : ℕ) (xs ys : List Notice) → heard l (xs ++ ys) ≡ heard l xs ++ heard l ys
unfolding heard
heard-append l [] ys = refl
heard-append l (x ∷ xs) ys = ground (arith, heard-append l xs ys)

heard-none :
    (l : ℕ) (ls : List ℕ) (a b : Time) → subscriptions l ls ≡ 0 → heard l (notify ls a b) ≡ []
unfolding heard subscriptions
heard-none l [] a b h = refl
heard-none l (k ∷ ks) a b h = ground (arith, heard-none l ks a b)

heard-one :
    (l : ℕ) (ls : List ℕ) (a b : Time)
    → subscriptions l ls ≡ 1
    → heard l (notify ls a b) ≡ (a, b) ∷ []
unfolding heard subscriptions
heard-one l [] a b h = absurd (omega (arith, h))
heard-one l (k ∷ ks) a b h = ground (arith, heard-one l ks a b, heard-none l ks a b)

IsChain-append :
    (a b c : Time) (xs ys : List (Time × Time))
    → IsChain a xs b
    → IsChain b ys c
    → IsChain a (xs ++ ys) c
IsChain-append a b c [] ys h g = subst (λ t. IsChain t ys c) (sym h) g
IsChain-append a b c ((prev, next) ∷ xs) ys h g = (h.0, h.1, IsChain-append next b c xs ys h.2 g)

-- A move keeps the listeners, and a listener that is subscribed once hears of the time it took.
abbrev IsSound : ℕ → SimClock → Effect → Type 0
IsSound l c e = (e.clock.listeners ≡ c.listeners) × IsChain c.now (heard l e.notices) e.clock.now

module _ (l : ℕ) (c : SimClock) (once : subscriptions l c.listeners ≡ 1) where
  still :
      (r : Result ClockError Time) → IsSound l c (record { result = r; clock = c; notices = [] })
  unfolding heard
  still r = (refl, refl)

  set_to-IsSound : (t : Time) → IsSound l c (set_to t c)
  unfolding set_to
  set_to-IsSound t = elim (Bool-cases (leb t c.now)) [
    | inl early ↦ rw early (still (err target_not_after))
    | inr later ↦
        rw (later, heard-one l c.listeners c.now t once) (refl, (refl, ground arith, refl))
  ]

  advance-IsSound : (d : ℤ) → IsSound l c (advance d c)
  unfolding advance
  advance-IsSound d = elim (Bool-cases (leb_ℤ d (pos 0))) [
    | inl small ↦ rw small (still (err duration_not_positive))
    | inr positive ↦ rw positive (set_to-IsSound (c.now + pos_part d))
  ]

  advance_days-IsSound : (n : ℤ) → IsSound l c (advance_days n c)
  unfolding advance_days
  advance_days-IsSound n = elim (Bool-cases (leb_ℤ n (pos 0))) [
    | inl small ↦ rw small (still (err days_not_positive))
    | inr positive ↦ rw positive (advance-IsSound (wrap64 (n *ℤ pos 86400000000000)))
  ]

  effect_of-IsSound : (m : Move) → IsSound l c (effect_of m c)
  effect_of-IsSound (setting t) = set_to-IsSound t
  effect_of-IsSound (advancing d) = advance-IsSound d
  effect_of-IsSound (advancing_days n) = advance_days-IsSound n

-- A listener that is subscribed once hears, over any moves of the clock, of intervals that lead
-- without a gap from the time at the start to the time at the end, each of them forward; refused
-- moves are not heard.
pub run_moves-IsChain :
    (l : ℕ) (ms : List Move) (c : SimClock)
    → subscriptions l c.listeners ≡ 1
    → let (last, notices) = run_moves ms c in IsChain c.now (heard l notices) last.now
unfolding run_moves
run_moves-IsChain l [] c once = unfold heard in refl
run_moves-IsChain l (m ∷ ms) c once =
    let (kept, first) = effect_of-IsSound l c once m in
    let e = effect_of m c in
    let rest = run_moves-IsChain l ms e.clock (ap (subscriptions l) kept ∙ once) in
    subst (λ is. IsChain c.now is (run_moves ms e.clock).0.now)
      (sym (heard-append l e.notices (run_moves ms e.clock).1))
      (IsChain-append c.now e.clock.now (run_moves ms e.clock).0.now (heard l e.notices) _ first
        rest)
