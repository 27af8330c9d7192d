-- ===== src/Loan/Documents.antt =====
-- The events of a loan: the payloads of internal/loan/state.go.
use stable_bank.Base.{String, List}
use stable_bank.Base.Int.{ℤ}
use stable_bank.Store.Events.{Time}
use stable_bank.Loan.Amortize.{Installment}

-- `loanRecord`, what is decided at origination.
pub record LoanRecord : Type 0 where
  pub id : String
  pub applicant_id : String
  pub principal_cents : ℤ
  pub term_months : ℤ
  pub annual_rate_bps : ℤ
  pub tier : String
  pub risk_score : ℤ
  pub pd_bps : ℤ
  pub lgd_bps : ℤ
  pub originated_at : Time
  pub receivable_account_id : String
  pub deposit_account_id : String

pub record MissedPayment : Type 0 where
  pub loan_id : String
  pub installment_no : ℤ
  pub days_past_due : ℤ
  pub missed_payments_so_far : ℤ
  pub late_fee_cents : ℤ
  pub occurred_at : Time

-- The JSON of an event's payload: `originatedPayload` with its schedule, `paymentMissedPayload`,
-- `defaultedPayload` and `repaidPayload`.
pub data LoanDocument : Type 0 where
  originated : LoanRecord → List Installment → LoanDocument
  payment_missed : MissedPayment → LoanDocument
  defaulted : String → String → ℤ → Time → LoanDocument
  repaid : String → Time → LoanDocument
