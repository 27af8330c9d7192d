-- ===== src/Store/Events/Listing.antt =====
-- The listing of events: `List` of internal/store/memstore/memstore.go.
use mathlib.Core.List.{append-nil, append_assoc}
use stable_bank.Base.{
  ℕ, zero, suc, ◌+◌, ◌≡◌, refl, sym, ◌∙◌, inl, inr, List, [], ◌∷◌, ◌++◌, arith, length,
  length-append, take, keep, Bool-cases, String, ◌⊎◌, ltb, str_eq, ◌<◌,
}
use stable_bank.Base.Selection.{
  Selection, keep-Selection, Tells, tells_and, tells_or, tells_iff, tells_same, tells_less,
}
use stable_bank.Store.Events.{
  Event, EventFilter, Log, is_empty, contains_string, passes, list_loop, list,
}

-- At most `n` elements; zero is no bound.
abbrev pub limited {ℓ} : {A : Type ℓ} → ℕ → List A → List A
limited zero xs = xs
limited (suc n) xs = take (suc n) xs

module _ {P : Type 0} (f : EventFilter) where
  loop-unlimited :
      (es out : List (Event P)) → f.limit ≡ 0 → list_loop f es out ≡ out ++ keep (passes f) es
  unfolding list_loop
  loop-unlimited [] out h = sym (append-nil out)
  loop-unlimited (e ∷ es) out h = elim (Bool-cases (passes f e)) [
    | inl pass ↦
        rw (pass, h)
          (loop-unlimited es (out ++ e ∷ []) h ∙ append_assoc out (e ∷ []) (keep (passes f) es))
    | inr skip ↦ rw skip (loop-unlimited es out h)
  ]

  loop-limited :
      (k : ℕ) (es out : List (Event P))
      → f.limit ≡ length out + suc k
      → list_loop f es out ≡ out ++ take (suc k) (keep (passes f) es)
  unfolding list_loop
  loop-limited k [] out h = sym (append-nil out)
  loop-limited zero (e ∷ es) out h = elim (Bool-cases (passes f e)) [
    | inl pass ↦ rw pass (ground (arith, length-append out (e ∷ [])))
    | inr skip ↦ rw skip (loop-limited zero es out h)
  ]
  loop-limited (suc k) (e ∷ es) out h = elim (Bool-cases (passes f e)) [
    | inl pass ↦ rw pass (
        ground (
          arith,
          length-append out (e ∷ []),
          loop-limited k es (out ++ e ∷ []),
          append_assoc out (e ∷ []) (take (suc k) (keep (passes f) es)),
        ))
    | inr skip ↦ rw skip (loop-limited (suc k) es out h)
  ]

  pub list-eq-keep : (s : Log P) → list f s ≡ limited f.limit (keep (passes f) s.events)
  unfolding list
  list-eq-keep s = by_limit f.limit refl
    where
      by_limit :
          (n : ℕ) → f.limit ≡ n → list_loop f s.events [] ≡ limited n (keep (passes f) s.events)
      by_limit zero h = loop-unlimited s.events [] h
      by_limit (suc k) h = loop-limited k s.events [] (omega (arith, h))

-- What a filter asks of an event.
abbrev pub IsOneOf : String → List String → Type 0
IsOneOf x [] = ⊥
IsOneOf x (v ∷ vs) = (x ≡ v) ⊎ IsOneOf x vs

pub record IsWanted {P : Type 0} (f : EventFilter) (e : Event P) : Type 0 where
  pub later : f.after_seq < e.seq
  pub aggregate : (f.aggregate_id ≡ "") ⊎ (e.aggregate_id ≡ f.aggregate_id)
  pub type : (f.types ≡ []) ⊎ IsOneOf e.kind f.types

tells_empty : (ts : List String) → Tells (is_empty ts) (ts ≡ [])
tells_empty [] = inl (refl, refl)
tells_empty (t ∷ ts) = inr (refl, λ h. cc)

tells_contained : (x : String) (ts : List String) → Tells (contains_string ts x) (IsOneOf x ts)
unfolding contains_string
tells_contained x [] = inr (refl, λ h. h)
tells_contained x (t ∷ ts) =
    tells_or (str_eq t x) (contains_string ts x)
      (tells_iff (str_eq t x) ((λ h. sym h), (λ h. sym h)) (tells_same t x)) (tells_contained x ts)

passes-parts :
    {P : Type 0} (f : EventFilter) (e : Event P)
    → Tells (passes f e) (
        ((f.after_seq < e.seq) × ((f.aggregate_id ≡ "") ⊎ (e.aggregate_id ≡ f.aggregate_id)))
        × ((f.types ≡ []) ⊎ IsOneOf e.kind f.types))
unfolding passes
passes-parts f e =
    tells_and _ _
      (tells_and (ltb f.after_seq e.seq) _ (tells_less f.after_seq e.seq) (
        tells_or (str_eq f.aggregate_id "") _ (tells_same f.aggregate_id "")
          (tells_same e.aggregate_id f.aggregate_id)))
      (tells_or (is_empty f.types) _ (tells_empty f.types) (tells_contained e.kind f.types))

passes-IsWanted : {P : Type 0} (f : EventFilter) (e : Event P) → Tells (passes f e) (IsWanted f e)
passes-IsWanted f e =
    tells_iff (passes f e)
      (
        (λ ((later, aggregate), kind). record {
          later = later;
          aggregate = aggregate;
          type = kind;
        }),
        (λ w. ((w.later, w.aggregate), w.type)),
      )
      (passes-parts f e)

-- `List` returns, in the order of the log, the events after the filter's sequence number that have
-- its aggregate id, if it gives one, and one of its types, if it gives any; and of these the first
-- `limit`, or all where `limit` is zero.
pub list-Selection :
    {P : Type 0} (f : EventFilter) (s : Log P)
    → (all : List (Event P)) × Selection (IsWanted f) s.events all
      × (list f s ≡ limited f.limit all)
list-Selection f s = (
  keep (passes f) s.events,
  keep-Selection (passes f) (passes-IsWanted f) s.events,
  list-eq-keep f s,
)
