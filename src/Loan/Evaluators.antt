-- ===== src/Loan/Evaluators.antt =====
-- The evaluators of internal/loan/evaluators.go: risk scoring, underwriting and servicing.
pub mod Affordable
pub mod Verdicts
pub mod Scores
mod Tests
use stable_bank.Base.{
  String, Bool, true, false, ◌&&◌, ◌||◌, not, Option, none, some, List, [], ◌∷◌, ◌++◌, Result, ok,
  err, ◌>>=◌, ◌>>◌, if◌then◌else◌,
}
use stable_bank.Base.Int.{ℤ, pos, ◌+ℤ◌, ◌-ℤ◌, ◌*ℤ◌, ltb_ℤ, leb_ℤ, nat_abs, pos_part}
use stable_bank.Base.Float.{Fraction, float_ratio}
use stable_bank.Base.Int64.{eq_ℤ}
use stable_bank.Value.{
  Value, flag, number, text, sequence, mapping, Values, none_left, item, Fields, no_fields, field,
}
use stable_bank.Loan.Fields.{
  num_value, require_num, require_str, require_map, require_slice, clamp_num, match_band, Tier,
  sorted_tiers, first_matching_tier,
}

-- One turn of the loop over the factors: its points and its name.
unfoldable pub factor_points : Fields → Fields → Result String (ℤ × String)
factor_points f input = do
  name ← require_str "name" f
  key ← require_str "input" f
  val ← require_num key input
  bands ← require_slice "bands" f
  points ← match_band bands val
  ok (points, name)

-- That loop. A later factor with the same name replaces the points of an earlier one in the map,
-- where the first entry counts.
unfoldable pub score_factors : Values → Fields → ℤ → Fields → Result String (ℤ × Fields)
score_factors none_left input total points = ok (total, points)
score_factors (item (mapping f) fs) input total points = do
  one ← factor_points f input
  score_factors fs input (total +ℤ one.0) (field one.1 (number one.0) points)
score_factors (item _ fs) input total points = err "factor must be an object"

-- What the output is made of.
pub record RiskScore : Type 0 where
  pub score : ℤ
  pub tier : Tier
  pub tier_name : String
  pub pd_bps : ℤ
  pub lgd_bps : ℤ
  pub points : Fields

unfoldable pub risk_score : Fields → Fields → Result String RiskScore
risk_score content input = do
  base ← require_num "base_score" content
  factors ← require_slice "factors" content
  scored ← score_factors factors input base no_fields
  bounds ← require_map "clamp" content
  least ← require_num "min" bounds
  most ← require_num "max" bounds
  let score = clamp_num scored.0 least most
  raw ← require_slice "tiers" content
  sorted ← sorted_tiers raw "min_score"
  tier ← elim (first_matching_tier sorted score) [
    | none ↦ err "no tier matched score"
    | some t ↦ ok t
  ]
  name ← require_str "tier" tier.fields
  pd ← require_num "pd_bps" tier.fields
  lgd ← require_num "lgd_bps" content
  ok (record {
    score = score;
    tier = tier;
    tier_name = name;
    pd_bps = pd;
    lgd_bps = lgd;
    points = scored.1;
  })

unfoldable pub evaluate_risk_score : Fields → Fields → Result String Fields
evaluate_risk_score content input = do
  r ← risk_score content input
  ok (
      field "risk_score" (number r.score) (
        field "tier" (text r.tier_name) (
          field "pd_bps" (number r.pd_bps) (
            field "lgd_bps" (number r.lgd_bps)
              (field "factor_points" (mapping r.points) no_fields)))))

-- The numbers of `EvaluateUnderwriting`, from the input and from the rule.
pub record Application : Type 0 where
  pub credit_score : ℤ
  pub income : ℤ
  pub existing_debt : ℤ
  pub account_age : ℤ
  pub risk_score : ℤ
  pub principal : ℤ
  pub term : ℤ
  pub installment : ℤ

pub record Eligibility : Type 0 where
  pub min_credit : ℤ
  pub min_income : ℤ
  pub max_dti : ℤ
  pub min_age : ℤ
  pub min_risk : ℤ

unfoldable pub read_application : Fields → Result String Application
read_application input = do
  credit ← require_num "credit_score" input
  income ← require_num "monthly_income_cents" input
  debt ← require_num "existing_debt_monthly_cents" input
  age ← require_num "account_age_days" input
  risk ← require_num "risk_score" input
  principal ← require_num "requested_principal_cents" input
  term ← require_num "term_months" input
  installment ← require_num "proposed_installment_cents" input
  ok (record {
    credit_score = credit;
    income = income;
    existing_debt = debt;
    account_age = age;
    risk_score = risk;
    principal = principal;
    term = term;
    installment = installment;
  })

unfoldable pub read_eligibility : Fields → Result String Eligibility
read_eligibility content = do
  elig ← require_map "eligibility" content
  credit ← require_num "min_credit_score" elig
  income ← require_num "min_monthly_income_cents" elig
  dti ← require_num "max_debt_to_income_pct" elig
  age ← require_num "min_account_age_days" elig
  risk ← require_num "min_risk_score" elig
  ok (record {
    min_credit = credit;
    min_income = income;
    max_dti = dti;
    min_age = age;
    min_risk = risk;
  })

-- `dtiPct`, of a positive income: `(existingDebt + proposedInstallment) / income * 100` in float64, as
-- its magnitude and as a numerator with its sign.
abbrev pub dti_pct : Application → Fraction
dti_pct a = float_ratio (nat_abs (a.existing_debt +ℤ a.installment)) (pos_part a.income) 100

abbrev pub dti_signed : Application → ℤ
dti_signed a =
    if ltb_ℤ (a.existing_debt +ℤ a.installment) (pos 0)
    then pos 0 -ℤ pos (dti_pct a).num
    else pos (dti_pct a).num

-- `dtiPct > maxDTI`; without an income it always holds.
abbrev pub dti_exceeds : Application → ℤ → Bool
dti_exceeds a max_dti =
    if ltb_ℤ (pos 0) a.income then ltb_ℤ (max_dti *ℤ pos (dti_pct a).den) (dti_signed a) else true

unfoldable pub term_allowed : Values → ℤ → Bool
term_allowed none_left term = false
term_allowed (item v vs) term =
    (elim (num_value v) [ none ↦ false | some n ↦ eq_ℤ n term ]) || term_allowed vs term

abbrev pub when : Bool → String → List String
when b reason = if b then reason ∷ [] else []

-- The reasons before the pricing tier is known, in the order of the source.
unfoldable pub eligibility_reasons : Application → Eligibility → Bool → List String
eligibility_reasons a e allowed =
    when (ltb_ℤ a.credit_score e.min_credit) "credit_score_below_minimum"
    ++ (when (ltb_ℤ a.income e.min_income) "income_below_minimum"
        ++ (when (dti_exceeds a e.max_dti) "debt_to_income_above_maximum"
            ++ (when (ltb_ℤ a.account_age e.min_age) "account_age_below_minimum"
                ++ (when (ltb_ℤ a.risk_score e.min_risk) "risk_score_below_minimum"
                    ++ when (not allowed) "term_not_allowed"))))

pub record Pricing : Type 0 where
  pub name : String
  pub rate_bps : ℤ
  pub max_principal : ℤ

unfoldable pub read_pricing : Option Tier → Result String (Option Pricing)
read_pricing none = ok none
read_pricing (some t) = do
  name ← require_str "tier" t.fields
  rate ← require_num "annual_rate_bps" t.fields
  most ← require_num "max_principal_cents" t.fields
  ok (some (record { name = name; rate_bps = rate; max_principal = most }))

abbrev pub principal_reasons : Application → Option Pricing → List String
principal_reasons a none = []
principal_reasons a (some p) =
    when (ltb_ℤ p.max_principal a.principal) "principal_above_tier_maximum"

pub record Verdict : Type 0 where
  pub reasons : List String
  pub pricing : Option Pricing

unfoldable pub underwriting : Fields → Fields → Result String Verdict
underwriting content input = do
  a ← read_application input
  e ← read_eligibility content
  terms ← require_slice "allowed_term_months" content
  raw ← require_slice "pricing_tiers" content
  sorted ← sorted_tiers raw "min_risk_score"
  pricing ← read_pricing (first_matching_tier sorted a.risk_score)
  ok (record {
    reasons = eligibility_reasons a e (term_allowed terms a.term) ++ principal_reasons a pricing;
    pricing = pricing;
  })

abbrev pub is_approved : List String → Bool
is_approved [] = true
is_approved (r ∷ rs) = false

abbrev pub texts : List String → Values
texts [] = none_left
texts (r ∷ rs) = item (text r) (texts rs)

abbrev pub pricing_fields : Option Pricing → Fields
pricing_fields none = no_fields
pricing_fields (some p) =
    field "tier" (text p.name) (field "annual_rate_bps" (number p.rate_bps) no_fields)

unfoldable pub evaluate_underwriting : Fields → Fields → Result String Fields
evaluate_underwriting content input = do
  v ← underwriting content input
  ok (
      field "approved" (flag (is_approved v.reasons))
        (field "reasons" (sequence (texts v.reasons)) (pricing_fields v.pricing)))

unfoldable pub evaluate_servicing : Fields → Fields → Result String Fields
evaluate_servicing content input = do
  grace ← require_num "grace_period_days" content
  threshold ← require_num "missed_payments_to_default" content
  fee ← require_num "late_fee_cents" content
  days ← require_num "days_past_due" input
  missed ← require_num "missed_payments_so_far" input
  let late = ltb_ℤ grace days
  ok (
      field "is_missed" (flag late) (
        field "late_fee_cents" (number (if late then fee else pos 0))
          (field "should_default" (flag (late && leb_ℤ threshold (missed +ℤ pos 1))) no_fields)))
