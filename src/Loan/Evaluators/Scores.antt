-- ===== src/Loan/Evaluators/Scores.antt =====
-- The score and the tier of `EvaluateRiskScore` (internal/loan/evaluators.go).
use stable_bank.Base.{
  ◌≡◌, ◌⊎◌, refl, subst, String, Option, none, some, List, inl, inr, arith, Result, ok, err, ◌>>=◌,
  OnOk, OnOk-bind, Bool-cases,
}
use stable_bank.Base.Int.{ℤ, ◌≤ℤ◌, ltb_ℤ}
use stable_bank.Base.Sort.{sort_slice}
use stable_bank.Value.{Values, Fields, no_fields}
use stable_bank.Loan.Fields.{
  require_num, require_str, require_map, require_slice, clamp_num, Tier, above, read_tiers,
  first_matching_tier,
}
use stable_bank.Loan.Fields.Highest.{IsHighest, matching-IsHighest}
use stable_bank.Loan.Evaluators.{RiskScore, score_factors, risk_score}
use stable_bank.Loan.Evaluators.Verdicts.{OnOk-sorted_tiers}

-- Not under the one bound, unless it is the other: between them, where they are in order.
abbrev pub IsClamped : ℤ → ℤ → ℤ → Type 0
IsClamped least most n = ((least ≤ℤ n) ⊎ (n ≡ most)) × ((n ≤ℤ most) ⊎ (n ≡ least))

clamp_num-IsClamped : (v least most : ℤ) → IsClamped least most (clamp_num v least most)
unfolding clamp_num
clamp_num-IsClamped v least most = elim (Bool-cases (ltb_ℤ v least)) [
  | inl low ↦ rw low (inl (omega arith), inr refl)
  | inr enough ↦ elim (Bool-cases (ltb_ℤ most v)) [
    | inl high ↦ rw (enough, high) (inr refl, inl (omega arith))
    | inr inside ↦ rw (enough, inside) (inl (ground arith), inl (ground arith))
  ]
]

-- A rule, as it is read, and the score that it gives.
pub record Scored (content : Fields) (r : RiskScore) : Type 0 where
  pub bounds : Fields
  pub least : ℤ
  pub most : ℤ
  pub raw : Values
  pub tiers : List Tier
  pub bounds_read : require_map "clamp" content ≡ ok bounds
  pub least_read : require_num "min" bounds ≡ ok least
  pub most_read : require_num "max" bounds ≡ ok most
  pub raw_read : require_slice "tiers" content ≡ ok raw
  pub tiers_read : read_tiers raw "min_score" ≡ ok tiers
  pub clamped : IsClamped least most r.score
  pub highest : IsHighest tiers r.score (some r.tier)
  pub named : require_str "tier" r.tier.fields ≡ ok r.tier_name
  pub rated : require_num "pd_bps" r.tier.fields ≡ ok r.pd_bps

OnOk-chosen :
    {B : Type 0} (Holds : B → Type 0) (o : Option Tier) (f : Tier → Result String B)
    → ((t : Tier) → o ≡ some t → OnOk Holds (f t))
    → OnOk Holds ((elim o [ none ↦ err "no tier matched score" | some t ↦ ok t ]) >>= f)
OnOk-chosen Holds none f h = tt
OnOk-chosen Holds (some t) f h = h t refl

OnOk-risk_score : (content input : Fields) → OnOk (Scored content) (risk_score content input)
unfolding risk_score
OnOk-risk_score content input =
    OnOk-bind (Scored content) (require_num "base_score" content) _ λ base read_base.
      OnOk-bind (Scored content) (require_slice "factors" content) _ λ factors read_factors.
        OnOk-bind (Scored content) (score_factors factors input base no_fields) _
          λ scored read_scored.
            OnOk-bind (Scored content) (require_map "clamp" content) _ λ bounds read_bounds.
              OnOk-bind (Scored content) (require_num "min" bounds) _ λ least read_least.
                OnOk-bind (Scored content) (require_num "max" bounds) _ λ most read_most.
                  OnOk-bind (Scored content) (require_slice "tiers" content) _ λ raw read_raw.
                    OnOk-sorted_tiers (Scored content) raw "min_score" _ λ ts read_ts.
                      let score : ℤ = clamp_num scored.0 least most in
                      OnOk-chosen (Scored content) (first_matching_tier (sort_slice above ts) score)
                        _
                        λ t found.
                          OnOk-bind (Scored content) (require_str "tier" t.fields) _
                            λ name read_name.
                              OnOk-bind (Scored content) (require_num "pd_bps" t.fields) _
                                λ pd read_pd.
                                  OnOk-bind (Scored content) (require_num "lgd_bps" content) _
                                    λ lgd read_lgd. record {
                                      bounds = bounds;
                                      least = least;
                                      most = most;
                                      raw = raw;
                                      tiers = ts;
                                      bounds_read = read_bounds;
                                      least_read = read_least;
                                      most_read = read_most;
                                      raw_read = read_raw;
                                      tiers_read = read_ts;
                                      clamped = clamp_num-IsClamped scored.0 least most;
                                      highest =
                                          subst (IsHighest ts score) found
                                            (matching-IsHighest ts score);
                                      named = read_name;
                                      rated = read_pd;
                                    }

-- Where scoring succeeds, the rule can be read; the score is clamped to the rule's bounds: not below
-- the least unless it is the greatest, and not above the greatest unless it is the least; and the
-- tier, which gives the name and the default probability, is the highest one that the score reaches.
pub risk_score-Scored :
    (content input : Fields) (r : RiskScore) → risk_score content input ≡ ok r → Scored content r
risk_score-Scored content input r h =
    subst (OnOk (Scored content)) h (OnOk-risk_score content input)
