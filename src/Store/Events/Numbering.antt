-- ===== src/Store/Events/Numbering.antt =====
-- The sequence numbers of the log: `Append` numbers the events from the last number on, without a
-- gap, so that a reader which asks for the events after the last number it has seen gets the rest.
use mathlib.Core.List.{append_assoc, append-nil}
use stable_bank.Base.{
  ℕ, ◌+◌, ◌≤◌, ◌≡◌, refl, sym, ◌∙◌, ap, List, [], ◌∷◌, ◌++◌, arith, keep, keep-append,
}
use stable_bank.Store.Events.{Event, EventFilter, Log, Oracle, stamp, append, push, passes, list}
use stable_bank.Store.Events.Listing.{list-eq-keep, limited}

module _ {P : Type 0} where
  -- The events carry the numbers after `n`, up to `m`.
  abbrev pub Run : ℕ → List (Event P) → ℕ → Type 0
  Run n [] m = n ≡ m
  Run n (e ∷ es) m = (e.seq ≡ n + 1) × Run (n + 1) es m

  abbrev pub IsNumbered : Log P → Type 0
  IsNumbered s = Run 0 s.events s.seq

  pub Run-append :
      (n m k : ℕ) (es fs : List (Event P)) → Run n es m → Run m fs k → Run n (es ++ fs) k
  Run-append n m k [] fs h g = subst_start n m fs h g
    where
      subst_start : (n m : ℕ) (fs : List (Event P)) → n ≡ m → Run m fs k → Run n fs k
      subst_start n m [] h g = omega (arith, g)
      subst_start n m (x ∷ fs) h g =
          (omega (arith, g.0, h), subst_start (n + 1) (m + 1) fs (omega (arith, h)) g.1)
  Run-append n m k (e ∷ es) fs h g = (h.0, Run-append (n + 1) m k es fs h.1 g)

  -- What `Append` returns is what it adds to the log.
  pub append-events :
      (o : Oracle) (es : List (Event P)) (s : Log P)
      → (append o es s).1.events ≡ s.events ++ (append o es s).0
  unfolding append
  append-events o [] s = sym (append-nil s.events)
  append-events o (e ∷ es) s =
      let stored = stamp o (s.seq + 1) e in
      append-events o es (push stored s)
      ∙ append_assoc s.events (stored ∷ []) (append o es (push stored s)).0

  pub append-Run :
      (o : Oracle) (es : List (Event P)) (s : Log P)
      → Run s.seq (append o es s).0 (append o es s).1.seq
  unfolding append
  append-Run o [] s = refl
  append-Run o (e ∷ es) s = (unfold stamp in refl, append-Run o es (push (stamp o (s.seq + 1) e) s))

  -- `Append` numbers the events that it adds one after another from the last number in use, and
  -- keeps the log numbered from 1 without a gap.
  pub append-IsNumbered :
      (o : Oracle) (es : List (Event P)) (s : Log P)
      → IsNumbered s
      → IsNumbered (append o es s).1 × Run s.seq (append o es s).0 (append o es s).1.seq
  append-IsNumbered o es s h = (
    rw (append-events o es s)
        (Run-append 0 s.seq (append o es s).1.seq s.events (append o es s).0 h (append-Run o es s)),
    append-Run o es s,
  )

  pub Run-le : (n m : ℕ) (es : List (Event P)) → Run n es m → n ≤ m
  Run-le n m [] h = omega arith
  Run-le n m (e ∷ es) h = omega (arith, Run-le (n + 1) m es h.1)

  -- A reader that has seen number `m` passes over a run that ends there.
  pub keep-Run_seen :
      (f : EventFilter) (n m : ℕ) (es : List (Event P))
      → Run n es m
      → m ≤ f.after_seq
      → keep (passes f) es ≡ []
  unfolding passes
  keep-Run_seen f n m [] h le = refl
  keep-Run_seen f n m (e ∷ es) h le =
      ground (arith, Run-le (n + 1) m es h.1, keep-Run_seen f (n + 1) m es h.1 le)

  -- A reader that has seen every event, and sets no limit, gets from a later `List` exactly those
  -- of the events appended since that pass its filter, in their order.
  pub list-append :
      (f : EventFilter) (o : Oracle) (es : List (Event P)) (s : Log P)
      → IsNumbered s
      → f.limit ≡ 0
      → f.after_seq ≡ s.seq
      → list f (append o es s).1 ≡ keep (passes f) (append o es s).0
  list-append f o es s h lim seen =
      let new = (append o es s).0 in
      list-eq-keep f (append o es s).1
      ∙ ap (λ n. limited n (keep (passes f) (append o es s).1.events)) lim
      ∙ ap (keep (passes f)) (append-events o es s)
      ∙ keep-append (passes f) s.events new
      ∙ ap (λ xs. xs ++ keep (passes f) new)
          (keep-Run_seen f 0 s.seq s.events h (omega (arith, seen)))
