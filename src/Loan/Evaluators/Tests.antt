-- ===== src/Loan/Evaluators/Tests.antt =====
-- Tests of internal/loan/evaluators.go, and its theorems at concrete inputs.
use stable_bank.Base.{ℕ, ◌≡◌, refl, true, false}
use stable_bank.Base.Int.{pos, ◌+ℤ◌, ◌*ℤ◌}
use stable_bank.Base.{String, some, [], ok}
use stable_bank.Base.Sort.{insert_sorted, sort_slice}
use stable_bank.Value.{
  number, text, sequence, mapping, Values, none_left, item, Fields, no_fields, field, get, has_key,
}
use stable_bank.Loan.Fields.{
  num_value, require_num, require_str, require_map, require_slice, clamp_num, in_band, match_band,
  read_tiers, sorted_tiers, first_matching_tier,
}
use stable_bank.Base.Float.{float_ratio}
use stable_bank.Loan.Evaluators.{
  Application, dti_exceeds, RiskScore, Verdict, factor_points, score_factors, risk_score,
  read_application, read_eligibility, term_allowed, eligibility_reasons, read_pricing, underwriting,
}
use stable_bank.Loan.Evaluators.Verdicts.{Decided, underwriting-Decided}
use stable_bank.Loan.Evaluators.Scores.{Scored, risk_score-Scored}

-- All that the evaluators compute with.
runs : Unit {0}
unfolding ◌+ℤ◌ ◌*ℤ◌ get has_key insert_sorted sort_slice num_value require_num require_str
    require_map require_slice clamp_num in_band match_band read_tiers sorted_tiers
    first_matching_tier factor_points score_factors risk_score read_application read_eligibility
    term_allowed eligibility_reasons read_pricing underwriting float_ratio
runs = tt

abbrev cons : Fields → Values → Values
cons fs vs = item (mapping fs) vs

abbrev priced : String → ℕ → ℕ → ℕ → Fields
priced name score rate most = field "tier" (text name) (
    field "min_risk_score" (number (pos score)) (
      field "annual_rate_bps" (number (pos rate))
        (field "max_principal_cents" (number (pos most)) no_fields)))

abbrev underwriting_content : Fields
underwriting_content =
    field "eligibility"
      (mapping (
        field "min_credit_score" (number (pos 600)) (
          field "min_monthly_income_cents" (number (pos 200000)) (
            field "max_debt_to_income_pct" (number (pos 40)) (
              field "min_account_age_days" (number (pos 30))
                (field "min_risk_score" (number (pos 50)) no_fields))))))
      (field "allowed_term_months"
        (sequence (item (number (pos 12)) (item (number (pos 24)) none_left)))
        (field "pricing_tiers"
          (sequence (
            cons (priced "standard" 50 900 1000000)
              (cons (priced "prime" 80 500 5000000) none_left)))
          no_fields))

abbrev application : ℕ → Fields
application principal = field "credit_score" (number (pos 700)) (
    field "monthly_income_cents" (number (pos 400000)) (
      field "existing_debt_monthly_cents" (number (pos 50000)) (
        field "account_age_days" (number (pos 100)) (
          field "risk_score" (number (pos 85)) (
            field "requested_principal_cents" (number (pos principal)) (
              field "term_months" (number (pos 12))
                (field "proposed_installment_cents" (number (pos 90000)) no_fields)))))))

abbrev approving : Verdict
approving = record {
  reasons = [];
  pricing = some (record { name = "prime"; rate_bps = pos 500; max_principal = pos 5000000 });
}

underwriting_test : underwriting underwriting_content (application 1000000) ≡ ok approving
unfolding runs
underwriting_test = refl

underwriting-Decided_example : Decided underwriting_content (application 1000000) approving
underwriting-Decided_example =
    underwriting-Decided underwriting_content (application 1000000) approving underwriting_test

-- Half of the income exactly, 55 percent of it exactly, which rounding takes above 55, and no income.
abbrev owing : ℕ → ℕ → Application
owing debt income = record {
  credit_score = pos 700;
  income = pos income;
  existing_debt = pos debt;
  account_age = pos 100;
  risk_score = pos 85;
  principal = pos 1000000;
  term = pos 12;
  installment = pos 25000;
}

boundary_test :
    (dti_exceeds (owing 25000 100000) (pos 50) ≡ false)
    × (dti_exceeds (owing 30000 100000) (pos 55) ≡ true)
    × (dti_exceeds (owing 0 0) (pos 55) ≡ true)
unfolding runs
boundary_test = (refl, refl, refl)

abbrev risk_content : Fields
risk_content = field "base_score" (number (pos 40)) (
    field "factors"
      (sequence (
        cons
          (field "name" (text "credit") (
            field "input" (text "credit_score") (
              field "bands"
                (sequence (
                  cons (field "max" (number (pos 599)) (field "points" (number (pos 0)) no_fields))
                    (cons
                      (field "min" (number (pos 600)) (field "points" (number (pos 80)) no_fields))
                      none_left)))
                no_fields)))
          none_left))
      (field "clamp"
        (mapping (field "min" (number (pos 0)) (field "max" (number (pos 100)) no_fields)))
        (field "tiers"
          (sequence (
            cons
              (field "tier" (text "high")
                (field "min_score" (number (pos 0)) (field "pd_bps" (number (pos 900)) no_fields)))
              (cons
                (field "tier" (text "low") (
                  field "min_score" (number (pos 70))
                    (field "pd_bps" (number (pos 100)) no_fields)))
                none_left)))
          (field "lgd_bps" (number (pos 4500)) no_fields))))

abbrev low_risk : RiskScore
low_risk = record {
  score = pos 100;
  tier = record {
    threshold = pos 70;
    fields =
        field "tier" (text "low")
          (field "min_score" (number (pos 70)) (field "pd_bps" (number (pos 100)) no_fields));
  };
  tier_name = "low";
  pd_bps = pos 100;
  lgd_bps = pos 4500;
  points = field "credit" (number (pos 80)) no_fields;
}

risk_score_test : risk_score risk_content (application 1) ≡ ok low_risk
unfolding runs
risk_score_test = refl

risk_score-Scored_example : Scored risk_content low_risk
risk_score-Scored_example = risk_score-Scored risk_content (application 1) low_risk risk_score_test
