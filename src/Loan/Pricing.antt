-- ===== src/Loan/Pricing.antt =====
-- How `Underwrite` of internal/loan/service.go prices a loan before its eligibility is known.
use stable_bank.Base.{String, Option, none, some, List, Result, ok, ◌>>=◌}
use stable_bank.Base.Int.{ℤ}
use stable_bank.Value.{Fields}
use stable_bank.Loan.Fields.{
  Tier, require_num, require_str, require_slice, sorted_tiers, first_matching_tier,
  highest_rate_tier,
}
use stable_bank.Loan.Types.{PricingView}

-- The matching tier, or else the tier with the highest rate.
abbrev pub tier_fields : List Tier → Option Tier → Result String Fields
tier_fields sorted (some t) = ok t.fields
tier_fields sorted none = highest_rate_tier sorted

unfoldable pub price : Fields → ℤ → Result String PricingView
price content risk = do
  raw ← require_slice "pricing_tiers" content
  sorted ← sorted_tiers raw "min_risk_score"
  tier ← tier_fields sorted (first_matching_tier sorted risk)
  name ← require_str "tier" tier
  rate ← require_num "annual_rate_bps" tier
  most ← require_num "max_principal_cents" tier
  ok (record { annual_rate_bps = rate; tier = name; max_principal_cents = most })
