-- ===== src/Loan/Fields.antt =====
-- The readers of internal/loan/evaluators.go, with its bands and tiers. The numbers of the rule
-- files are whole, and so float64 numbers are integers here.
pub mod Highest
use stable_bank.Base.{
  String, Bool, true, false, ◌&&◌, not, Option, none, some, List, [], ◌∷◌, Result, ok, err, ◌>>=◌,
  ◌>>◌, if◌then◌else◌,
}
use stable_bank.Base.Int.{ℤ, ltb_ℤ, leb_ℤ}
use stable_bank.Base.Sort.{sort_slice}
use stable_bank.Value.{
  Value, number, float, text, sequence, mapping, Values, none_left, item, Fields, get, has_key,
}
use stable_bank.Ledger.Amount.{codes, parse_int64}

-- `numField`; of `ParseFloat` the whole numbers are read.
unfoldable pub num_value : Value → Option ℤ
num_value (float n) = some n
num_value (number n) = some n
num_value (text t) = parse_int64 (codes t)
num_value _ = none

-- `v, ok := m[key]` before the type of the value is tested.
abbrev pub present : {A : Type 0} → String → Fields → Result String A → Result String A
present key m found = if has_key key m then found else err "missing field"

unfoldable pub require_num : String → Fields → Result String ℤ
require_num key m =
    present key m (elim (num_value (get key m)) [ none ↦ err "not a number" | some n ↦ ok n ])

abbrev text_value : Value → Result String String
text_value (text t) = ok t
text_value _ = err "not a string"

unfoldable pub require_str : String → Fields → Result String String
require_str key m = present key m (text_value (get key m))

abbrev map_value : Value → Result String Fields
map_value (mapping fs) = ok fs
map_value _ = err "not an object"

unfoldable pub require_map : String → Fields → Result String Fields
require_map key m = present key m (map_value (get key m))

abbrev slice_value : Value → Result String Values
slice_value (sequence vs) = ok vs
slice_value _ = err "not an array"

unfoldable pub require_slice : String → Fields → Result String Values
require_slice key m = present key m (slice_value (get key m))

-- `clampFloat`
unfoldable pub clamp_num : ℤ → ℤ → ℤ → ℤ
clamp_num v least most = if ltb_ℤ v least then least else if ltb_ℤ most v then most else v

-- A bound of a band, where it is present: whether the value keeps to it.
abbrev within : String → Fields → (ℤ → Bool) → Result String Bool
within key b test =
    if has_key key b
    then (elim (num_value (get key b)) [
      | none ↦ err "band bound must be a number"
      | some n ↦ ok (test n)
    ])
    else ok true

-- One turn of the loop of `matchBand`; the maximum is not read where the minimum fails.
unfoldable pub in_band : ℤ → Fields → Result String Bool
in_band val b = do
  above ← within "min" b (λ n. not (ltb_ℤ val n))
  if above then within "max" b (λ n. not (ltb_ℤ n val)) else ok false

unfoldable pub match_band : Values → ℤ → Result String ℤ
match_band none_left val = err "no band matched"
match_band (item (mapping b) bs) val =
    let rest = match_band bs val in
    elim (in_band val b) [
      | err e ↦ err e
      | ok matches ↦ if matches then require_num "points" b else rest
    ]
match_band (item _ bs) val = match_band bs val

-- A tier with its threshold.
pub record Tier : Type 0 where
  pub threshold : ℤ
  pub fields : Fields

unfoldable pub read_tiers : Values → String → Result String (List Tier)
read_tiers none_left key = ok []
read_tiers (item (mapping m) vs) key = do
  th ← require_num key m
  rest ← read_tiers vs key
  ok (record { threshold = th; fields = m } ∷ rest)
read_tiers (item _ vs) key = err "tier entry must be an object"

abbrev pub above : Tier → Tier → Bool
above a b = ltb_ℤ b.threshold a.threshold

unfoldable pub sorted_tiers : Values → String → Result String (List Tier)
sorted_tiers raw key = elim (read_tiers raw key) [
  | err e ↦ err e
  | ok ts ↦ ok (sort_slice above ts)
]

-- The thresholds are read a second time in the source, with the same result.
unfoldable pub first_matching_tier : List Tier → ℤ → Option Tier
first_matching_tier [] value = none
first_matching_tier (t ∷ ts) value =
    if leb_ℤ t.threshold value then some t else first_matching_tier ts value

abbrev highest_loop : List Tier → Fields → ℤ → Result String Fields
highest_loop [] best rate = ok best
highest_loop (t ∷ ts) best rate = do
  r ← require_num "annual_rate_bps" t.fields
  highest_loop ts (if ltb_ℤ rate r then t.fields else best) (if ltb_ℤ rate r then r else rate)

unfoldable pub highest_rate_tier : List Tier → Result String Fields
highest_rate_tier [] = err "no pricing tiers configured"
highest_rate_tier (t ∷ ts) = do
  rate ← require_num "annual_rate_bps" t.fields
  highest_loop ts t.fields rate
