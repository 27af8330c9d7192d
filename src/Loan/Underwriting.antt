-- ===== src/Loan/Underwriting.antt =====
-- Underwriting, `Underwrite` of internal/loan/service.go: risk scoring, then pricing, then the
-- underwriting rule.
use stable_bank.Base.{
  String, Bool, false, none, some, List, [], ◌∷◌, str_eq, ok, err, if◌then◌else◌,
}
use stable_bank.Base.Int.{ℤ, pos, ◌*ℤ◌, leb_ℤ}
use stable_bank.Base.Int64.{wrap64}
use stable_bank.Base.Dict.{lookup, insert, values}
use stable_bank.Base.Sort.{ltb_str, sort_slice}
use stable_bank.Base.Stateful.{Stateful, pure, gets, lift, ◌>>=◌, wrap_error}
use stable_bank.Value.{
  Value, flag, number, text, Values, none_left, item, Fields, no_fields, field, get,
}
use stable_bank.Rules.Documents.{str_of, items_of}
use stable_bank.Rules.Engine.{Decision, get_content}
use stable_bank.Bank.{Bank, BankEnv, on_rules}
use stable_bank.Loan.Amortize.{monthly_payment, pct_hundredths}
use stable_bank.Loan.Pricing.{price}
use stable_bank.Loan.Types.{
  Applicant, LoanError, applicant_not_found, bad_rule, loan_rules_failed, UnderwriteRequest,
  RuleApplicationRef, PricingView, AffordabilityView, UnderwriteResult,
}

abbrev pub LoanCall : Type 0 → Type 0
LoanCall A = Stateful Bank LoanError A

unfoldable pub add_applicant : Applicant → LoanCall (Unit {0})
add_applicant a b = (ok tt, record b { applicants = insert a.id a b.applicants })

unfoldable pub list_applicants : Bank → List Applicant
list_applicants b = sort_slice (λ x y. ltb_str x.id y.id) (values b.applicants)

-- The comparison of exact fractions in `affordability`: 100 times the installment, which may wrap
-- around, is at most `pct` times the income.
abbrev pub within_pct : ℤ → ℤ → ℤ → Bool
within_pct pct installment income = leb_ℤ (wrap64 (installment *ℤ pos 100)) (pct *ℤ income)

unfoldable pub affordability : ℤ → ℤ → AffordabilityView
affordability installment income =
    if leb_ℤ income (pos 0)
    then record { installment_to_income_hundredths = pos 0; flag = "unaffordable" }
    else record {
      installment_to_income_hundredths = pct_hundredths installment income;
      flag =
          if within_pct (pos 15) installment income
          then "comfortable"
          else if within_pct (pos 30) installment income
          then "stretched"
          else "unaffordable";
    }

-- `v, _ := output[key].(int64)`, and of a bool; `.([]string)`.
abbrev pub int64_of : Value → ℤ
int64_of (number n) = n
int64_of _ = pos 0

abbrev pub bool_of : Value → Bool
bool_of (flag b) = b
bool_of _ = false

abbrev pub texts_of : Values → List String
texts_of none_left = []
texts_of (item v vs) = str_of v ∷ texts_of vs

abbrev pub or_default : ℤ → ℤ → ℤ
or_default default v = if leb_ℤ v (pos 0) then default else v

abbrev pub default_principal : ℤ
default_principal = pos 1000000

abbrev pub default_term : ℤ
default_term = pos 36

abbrev pub risk_input : Applicant → Fields
risk_input a = field "credit_score" (number a.credit_score) (
    field "monthly_income_cents" (number a.monthly_income_cents) (
      field "account_age_days" (number a.account_age_days)
        (field "existing_balance_cents" (number a.existing_balance_cents) no_fields)))

abbrev pub underwriting_input : Applicant → ℤ → ℤ → ℤ → ℤ → Fields
underwriting_input a risk principal term installment =
    field "credit_score" (number a.credit_score) (
      field "monthly_income_cents" (number a.monthly_income_cents) (
        field "existing_debt_monthly_cents" (number a.existing_debt_monthly_cents) (
          field "account_age_days" (number a.account_age_days) (
            field "risk_score" (number risk) (
              field "requested_principal_cents" (number principal) (
                field "term_months" (number term)
                  (field "proposed_installment_cents" (number installment) no_fields)))))))

-- The tier and the rate of the underwriting rule's output replace the priced ones.
abbrev pub final_tier : Value → String → String
final_tier (text t) name = if str_eq t "" then name else t
final_tier _ name = name

abbrev pub final_rate : Value → ℤ → ℤ
final_rate (number r) rate = r
final_rate _ rate = rate

abbrev pub ref_of : Decision → RuleApplicationRef
ref_of d = record { rule_id = d.rule_id; version = d.version; application_id = d.application_id }

abbrev pub result_of : Applicant → ℤ → PricingView → Decision → Decision → UnderwriteResult
result_of a installment pricing risk decided =
    let out = decided.output in
    let approved = bool_of (get "approved" out) in
    record {
      decision = if approved then "approved" else "declined";
      applicant = a;
      risk = record {
        risk_score = int64_of (get "risk_score" risk.output);
        tier = str_of (get "tier" risk.output);
        pd_bps = int64_of (get "pd_bps" risk.output);
        lgd_bps = int64_of (get "lgd_bps" risk.output);
      };
      pricing = record pricing {
        annual_rate_bps = final_rate (get "annual_rate_bps" out) pricing.annual_rate_bps;
        tier = final_tier (get "tier" out) pricing.tier;
      };
      monthly_installment_cents = installment;
      affordability = affordability installment a.monthly_income_cents;
      reasons = texts_of (items_of (get "reasons" out));
      rule_applications = ref_of risk ∷ ref_of decided ∷ [];
    }

unfoldable pub underwrite : BankEnv → UnderwriteRequest → LoanCall UnderwriteResult
underwrite env req = do
  known ← gets (λ b. lookup req.applicant_id b.applicants)
  a ← lift (elim known [ none ↦ err applicant_not_found | some a ↦ ok a ])
  let principal = or_default default_principal req.requested_principal_cents
  let term = or_default default_term req.term_months
  risk ← on_rules loan_rules_failed env "risk_scoring" "applicant" a.id (risk_input a)
  let score = int64_of (get "risk_score" risk.output)
  live ← gets (λ b. get_content "loan_underwriting" b.engine)
  content ← lift (wrap_error loan_rules_failed live)
  pricing ← lift (wrap_error bad_rule (price content.0 score))
  let installment = monthly_payment principal pricing.annual_rate_bps term
  decided ←
      on_rules loan_rules_failed env "loan_underwriting" "applicant" a.id
        (underwriting_input a score principal term installment)
  pure (result_of a installment pricing risk decided)
