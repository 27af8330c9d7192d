-- ===== src/Loan/Types.antt =====
-- The data of internal/loan: applicants and loans (internal/loan/state.go), and the requests and
-- results of internal/loan/service.go.
use stable_bank.Base.{String, List}
use stable_bank.Base.Int.{ℤ}
use stable_bank.Ledger.Types.{LedgerError}
use stable_bank.Rules.Documents.{RuleError}
use stable_bank.Loan.Amortize.{Installment}
use stable_bank.Loan.Documents.{LoanRecord}

pub record Applicant : Type 0 where
  pub id : String
  pub name : String
  pub deposit_account_id : String
  pub credit_score : ℤ
  pub monthly_income_cents : ℤ
  pub existing_debt_monthly_cents : ℤ
  pub existing_balance_cents : ℤ
  pub account_age_days : ℤ

-- The constants of a loan's status.
pub data LoanStatus : Type 0 where
  active repaid_loan defaulted_loan : LoanStatus

-- The read model; what was decided at origination is one field of it.
pub record LoanView : Type 0 where
  pub details : LoanRecord
  pub status : LoanStatus
  pub missed_payments : ℤ
  pub outstanding_principal_cents : ℤ
  pub interest_paid_cents : ℤ
  pub principal_paid_cents : ℤ
  pub schedule : List Installment
  pub default_reason : String

pub data LoanError : Type 0 where
  applicant_not_found : LoanError
  not_approved : List String → LoanError
  insufficient_funds : String → ℤ → ℤ → LoanError
  loan_not_found : LoanError
  cannot_repay : LoanStatus → LoanError
  cannot_miss : LoanStatus → LoanError
  cannot_default : LoanError
  none_unpaid : LoanError
  loan_decode_failed : LoanError
  bad_rule : String → LoanError
  loan_ledger_failed : LedgerError → LoanError
  loan_rules_failed : RuleError → LoanError

pub record UnderwriteRequest : Type 0 where
  pub applicant_id : String
  pub requested_principal_cents : ℤ
  pub term_months : ℤ

pub record RuleApplicationRef : Type 0 where
  pub rule_id : String
  pub version : ℤ
  pub application_id : String

pub record RiskView : Type 0 where
  pub risk_score : ℤ
  pub tier : String
  pub pd_bps : ℤ
  pub lgd_bps : ℤ

pub record PricingView : Type 0 where
  pub annual_rate_bps : ℤ
  pub tier : String
  pub max_principal_cents : ℤ

-- The percentage is in hundredths here, and a string in the source.
pub record AffordabilityView : Type 0 where
  pub installment_to_income_hundredths : ℤ
  pub flag : String

pub record UnderwriteResult : Type 0 where
  pub decision : String
  pub applicant : Applicant
  pub risk : RiskView
  pub pricing : PricingView
  pub monthly_installment_cents : ℤ
  pub affordability : AffordabilityView
  pub reasons : List String
  pub rule_applications : List RuleApplicationRef
