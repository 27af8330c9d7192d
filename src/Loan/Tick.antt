-- ===== src/Loan/Tick.antt =====
-- `Tick` of internal/loan/service.go, which finds what is overdue, and `Seed` of
-- internal/loan/seed.go.
pub mod Calls
use Prim.Native.String.{◌++◌ as str_append}
use stable_bank.Base.{
  ℕ, ◌+◌, ◌-◌, ◌/◌, String, Bool, true, false, ◌&&◌, not, Option, none, some, List, [], ◌∷◌, ◌++◌,
  str_eq, Result, ok, err, if◌then◌else◌,
}
use stable_bank.Base.Int.{ℤ, pos, ◌+ℤ◌, ◌*ℤ◌, leb_ℤ, ltb_ℤ}
use stable_bank.Base.Int64.{add64, sub64}
use stable_bank.Base.Calendar.{day_length}
use stable_bank.Base.Dict.{Dict, lookup}
use stable_bank.Base.Stateful.{pure, fail, gets, lift, fail_when, ◌>>=◌, ◌>>◌, wrap_error}
use stable_bank.Value.{number, Fields, no_fields, field, get}
use stable_bank.Store.Events.{Time}
use stable_bank.Ledger.Types.{Amount, Entry, Transaction, debit, credit, unset}
use stable_bank.Ledger.Amount.{format_int, text_of}
use stable_bank.Ledger.Posting.{post_and_finalize}
use stable_bank.Ledger.Balances.{balance}
use stable_bank.Account.Service.{transfer}
use stable_bank.Account.Purchases.{int_text}
use stable_bank.Rules.Engine.{Decision, get_content}
use stable_bank.Bank.{Bank, BankEnv, time_now, on_ledger, on_rules}
use stable_bank.Loan.Amortize.{Installment, InstallmentStatus, scheduled, paid, missed}
use stable_bank.Loan.Documents.{
  LoanRecord, MissedPayment, LoanDocument, payment_missed, defaulted, repaid,
}
use stable_bank.Loan.Fields.{require_num}
use stable_bank.Loan.State.{
  LoanState, event_loan_payment_missed, event_loan_defaulted, event_loan_repaid,
}
use stable_bank.Loan.Types.{
  Applicant, LoanStatus, active, repaid_loan, defaulted_loan, LoanView, LoanError,
  insufficient_funds, cannot_repay, cannot_miss, cannot_default, none_unpaid, bad_rule,
  loan_ledger_failed, loan_rules_failed,
}
use stable_bank.Loan.Underwriting.{LoanCall, int64_of, bool_of, add_applicant}
use stable_bank.Loan.Service.{
  usd, append_loan, refresh_state, get_loan, list_loans, OriginateRequest, originate,
}
use stable_bank.Loan.Servicing.{is_scheduled, is_active, miss_internal, default_loan}

pub record TickReport : Type 0 where
  pub missed_payments : List String
  pub defaults : List String

-- `!inst.DueDate.AddDate(0, 0, grace).Before(now)`, negated.
abbrev pub is_overdue : ℤ → Time → Installment → Bool
is_overdue grace now i =
    is_scheduled i.status && ltb_ℤ (pos i.due_date +ℤ grace *ℤ pos day_length) (pos now)

-- The inner loop of `Tick`, over the schedule that was listed.
unfoldable pub tick_schedule :
    BankEnv → ℤ → Time → String → List Installment → TickReport → LoanCall TickReport
tick_schedule env grace now id [] r = pure r
tick_schedule env grace now id (i ∷ is) r =
    let missing : LoanCall TickReport = (do
      out ← miss_internal env id
      let noted = record r { missed_payments = r.missed_payments ++ id ∷ [] }
      let ends =
          default_loan env id "missed_payments_threshold_reached"
          >> pure (record noted { defaults = noted.defaults ++ id ∷ [] })
      if out.1 then ends else tick_schedule env grace now id is noted) in
    if is_overdue grace now i then missing else tick_schedule env grace now id is r

unfoldable pub tick_loans : BankEnv → ℤ → Time → List LoanView → TickReport → LoanCall TickReport
tick_loans env grace now [] r = pure r
tick_loans env grace now (v ∷ vs) r =
    let due : LoanCall TickReport = (do
      r' ← tick_schedule env grace now v.details.id v.schedule r
      tick_loans env grace now vs r') in
    if is_active v.status then due else tick_loans env grace now vs r

unfoldable pub tick : BankEnv → LoanCall TickReport
tick env = do
  loans ← list_loans
  live ← gets (λ b. get_content "loan_servicing" b.engine)
  content ← lift (wrap_error loan_rules_failed live)
  grace ← lift (wrap_error bad_rule (require_num "grace_period_days" content.0))
  now ← gets (λ b. time_now env b.world)
  tick_loans env grace now loans (record { missed_payments = []; defaults = [] })

abbrev pub seed_applicants : List Applicant
seed_applicants =
    record {
      id = "demo-applicant-1";
      name = "Demo Applicant One";
      deposit_account_id = "demo-account-1-usd";
      credit_score = pos 650;
      monthly_income_cents = pos 650000;
      existing_debt_monthly_cents = pos 80000;
      existing_balance_cents = pos 150000;
      account_age_days = pos 400;
    }
    ∷ record {
      id = "demo-applicant-2";
      name = "Demo Applicant Two";
      deposit_account_id = "demo-account-1-usd";
      credit_score = pos 760;
      monthly_income_cents = pos 900000;
      existing_debt_monthly_cents = pos 50000;
      existing_balance_cents = pos 500000;
      account_age_days = pos 900;
    }
    ∷ record {
      id = "demo-applicant-3";
      name = "Demo Applicant Three";
      deposit_account_id = "demo-account-1-usd";
      credit_score = pos 590;
      monthly_income_cents = pos 300000;
      existing_debt_monthly_cents = pos 120000;
      existing_balance_cents = pos 20000;
      account_age_days = pos 60;
    }
    ∷ []

unfoldable pub add_applicants : List Applicant → LoanCall (Unit {0})
add_applicants [] = pure tt
add_applicants (a ∷ more) = add_applicant a >> add_applicants more

abbrev pub has_id : List String → Bool
has_id [] = false
has_id (id ∷ ids) = true

unfoldable pub seed_loans : BankEnv → LoanCall (Unit {0})
seed_loans env = do
  add_applicants seed_applicants
  refresh_state
  seeded ← gets (λ b. has_id b.loans.order)
  let opening = originate env (record {
    applicant_id = "demo-applicant-2";
    principal_cents = pos 500000;
    term_months = pos 24;
  })
  if seeded then pure tt else opening >> pure tt
