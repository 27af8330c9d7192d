-- ===== src/Loan/Fields/Highest.antt =====
-- Which tier `sortedTiers` and `firstMatchingTier` of internal/loan/evaluators.go choose together.
use stable_bank.Base.{
  ◌≡◌, ◌⊎◌, refl, Bool, true, false, Option, none, some, List, [], ◌∷◌, All, Bool-cases, inl, inr,
  arith, if◌then◌else◌,
}
use stable_bank.Base.Int.{ℤ, ◌≤ℤ◌, ◌<ℤ◌, leb_ℤ}
use stable_bank.Base.Sort.{insert_sorted, sort_slice}
use stable_bank.Loan.Fields.{Tier, above, first_matching_tier}

abbrev pub IsAmong : Tier → List Tier → Type 0
IsAmong t [] = ⊥
IsAmong t (u ∷ us) = (t ≡ u) ⊎ IsAmong t us

-- No tier of the list asks for more than `bound`.
abbrev Within : ℤ → List Tier → Type 0
Within bound ts = All (λ u. u.threshold ≤ℤ bound) ts

-- No tier of the list that `value` reaches asks for more than `bound`.
abbrev pub Tops : ℤ → ℤ → List Tier → Type 0
Tops bound value ts = All (λ u. u.threshold ≤ℤ value → u.threshold ≤ℤ bound) ts

-- A tier of the list that the value reaches, and of those one with the highest threshold; or none,
-- and the value reaches no tier.
abbrev pub IsHighest : List Tier → ℤ → Option Tier → Type 0
IsHighest ts value none = All (λ u. value <ℤ u.threshold) ts
IsHighest ts value (some t) = IsAmong t ts × (t.threshold ≤ℤ value) × Tops t.threshold value ts

abbrev Descends : List Tier → Type 0
Descends [] = Unit
Descends (t ∷ ts) = Within t.threshold ts × Descends ts

module _ (Holds : Tier → Type 0) where
  All-insert_sorted :
      (t : Tier) (ts : List Tier) → Holds t → All Holds ts → All Holds (insert_sorted above t ts)
  unfolding insert_sorted
  All-insert_sorted t [] h hs = (h, tt)
  All-insert_sorted t (u ∷ us) h (k, ks) = elim (Bool-cases (above u t)) [
    | inl under ↦ rw under (k, All-insert_sorted t us h ks)
    | inr over ↦ rw over (h, (k, ks))
  ]

  All-parted :
      (b : Bool) (t u : Tier) (us : List Tier)
      → (All Holds (insert_sorted above t us) → Holds t × All Holds us)
      → All Holds (if b then u ∷ insert_sorted above t us else t ∷ u ∷ us)
      → Holds t × All Holds (u ∷ us)
  All-parted true t u us part (k, ks) = let (h, hs) = part ks in (h, (k, hs))
  All-parted false t u us part hs = hs

  All-inserted :
      (t : Tier) (ts : List Tier) → All Holds (insert_sorted above t ts) → Holds t × All Holds ts
  unfolding insert_sorted
  All-inserted t [] hs = hs
  All-inserted t (u ∷ us) hs = All-parted (above u t) t u us (All-inserted t us) hs

  All-sorted : (ts : List Tier) → All Holds (sort_slice above ts) → All Holds ts
  unfolding sort_slice
  All-sorted [] hs = tt
  All-sorted (t ∷ ts) hs =
      let (h, rest) = All-inserted t (sort_slice above ts) hs in (h, All-sorted ts rest)

IsAmong-insert_sorted :
    (t u : Tier) (us : List Tier) → IsAmong t (insert_sorted above u us) → IsAmong t (u ∷ us)
unfolding insert_sorted
IsAmong-insert_sorted t u [] h = h
IsAmong-insert_sorted t u (v ∷ vs) h = by_order (above v u) (IsAmong-insert_sorted t u vs) h
  where
    by_order :
        (b : Bool)
        → (IsAmong t (insert_sorted above u vs) → IsAmong t (u ∷ vs))
        → IsAmong t (if b then v ∷ insert_sorted above u vs else u ∷ v ∷ vs)
        → IsAmong t (u ∷ v ∷ vs)
    by_order true part (inl same) = inr (inl same)
    by_order true part (inr later) = elim (part later) [
      | inl same ↦ inl same
      | inr rest ↦ inr (inr rest)
    ]
    by_order false part k = k

IsAmong-sort_slice : (t : Tier) (ts : List Tier) → IsAmong t (sort_slice above ts) → IsAmong t ts
unfolding sort_slice
IsAmong-sort_slice t [] h = h
IsAmong-sort_slice t (u ∷ us) h = elim (IsAmong-insert_sorted t u (sort_slice above us) h) [
  | inl same ↦ inl same
  | inr rest ↦ inr (IsAmong-sort_slice t us rest)
]

Within-weaken : (a b : ℤ) (ts : List Tier) → a ≤ℤ b → Within a ts → Within b ts
Within-weaken a b [] le h = tt
Within-weaken a b (t ∷ ts) le (h, hs) = (omega arith, Within-weaken a b ts le hs)

above_or_not :
    (b : Bool) (t u : Tier)
    → above u t ≡ b
    → if b then t.threshold ≤ℤ u.threshold else u.threshold ≤ℤ t.threshold
above_or_not b t u h = ground arith

Descends-insert_sorted :
    (t : Tier) (ts : List Tier) → Descends ts → Descends (insert_sorted above t ts)
unfolding insert_sorted
Descends-insert_sorted t [] d = (tt, tt)
Descends-insert_sorted t (u ∷ us) (w, d) = elim (Bool-cases (above u t)) [
  | inl under ↦ rw under (
    All-insert_sorted (λ v. v.threshold ≤ℤ u.threshold) t us (above_or_not true t u under) w,
    Descends-insert_sorted t us d,
  )
  | inr over ↦
      let le : u.threshold ≤ℤ t.threshold = above_or_not false t u over in
      rw over ((le, Within-weaken u.threshold t.threshold us le w), (w, d))
]

Descends-sort_slice : (ts : List Tier) → Descends (sort_slice above ts)
unfolding sort_slice
Descends-sort_slice [] = tt
Descends-sort_slice (t ∷ ts) =
    Descends-insert_sorted t (sort_slice above ts) (Descends-sort_slice ts)

Within-Tops : (bound value : ℤ) (ts : List Tier) → Within bound ts → Tops bound value ts
Within-Tops bound value [] h = tt
Within-Tops bound value (t ∷ ts) (h, hs) = ((λ _. h), Within-Tops bound value ts hs)

reached_or_not :
    (b : Bool) (t : Tier) (value : ℤ)
    → leb_ℤ t.threshold value ≡ b
    → if b then t.threshold ≤ℤ value else value <ℤ t.threshold
reached_or_not b t value h = ground arith

IsHighest-later :
    (t : Tier) (ts : List Tier) (value : ℤ) (o : Option Tier)
    → value <ℤ t.threshold
    → IsHighest ts value o
    → IsHighest (t ∷ ts) value o
IsHighest-later t ts value none out hs = (out, hs)
IsHighest-later t ts value (some u) out (among, reach, tops) =
    (inr among, reach, ((λ le. omega arith), tops))

first_matching_tier-IsHighest :
    (ts : List Tier) (value : ℤ) → Descends ts → IsHighest ts value (first_matching_tier ts value)
unfolding first_matching_tier
first_matching_tier-IsHighest [] value d = tt
first_matching_tier-IsHighest (t ∷ ts) value (w, d) = elim (Bool-cases (leb_ℤ t.threshold value)) [
  | inl reach ↦ rw reach (
    inl refl,
    reached_or_not true t value reach,
    ((λ le. omega arith), Within-Tops t.threshold value ts w),
  )
  | inr out ↦ rw out (
      IsHighest-later t ts value (first_matching_tier ts value) (reached_or_not false t value out)
        (first_matching_tier-IsHighest ts value d))
]

IsHighest-sort_slice :
    (ts : List Tier) (value : ℤ) (o : Option Tier)
    → IsHighest (sort_slice above ts) value o
    → IsHighest ts value o
IsHighest-sort_slice ts value none h = All-sorted (λ u. value <ℤ u.threshold) ts h
IsHighest-sort_slice ts value (some t) (among, reach, tops) = (
  IsAmong-sort_slice t ts among,
  reach,
  All-sorted (λ u. u.threshold ≤ℤ value → u.threshold ≤ℤ t.threshold) ts tops,
)

-- The first tier that a value reaches, of tiers sorted by descending thresholds, is the highest one
-- that it reaches of the tiers as they are listed.
pub matching-IsHighest :
    (ts : List Tier) (value : ℤ)
    → IsHighest ts value (first_matching_tier (sort_slice above ts) value)
matching-IsHighest ts value =
    IsHighest-sort_slice ts value (first_matching_tier (sort_slice above ts) value)
      (first_matching_tier-IsHighest (sort_slice above ts) value (Descends-sort_slice ts))
