-- ===== src/Loan/Service.antt =====
-- loan.Service (internal/loan/service.go): loans as they are read, and origination.
use Prim.Native.String.{◌++◌ as str_append}
use stable_bank.Base.{
  String, ◌||◌, not, Option, none, some, List, [], ◌∷◌, length, str_eq, Result, ok, err,
  if◌then◌else◌,
}
use stable_bank.Base.Int.{ℤ, pos, leb_ℤ}
use stable_bank.Base.Int64.{add64}
use stable_bank.Base.Dict.{Dict, lookup}
use stable_bank.Base.Stateful.{pure, gets, lift, fail_when, ◌>>=◌, ◌>>◌}
use stable_bank.Store.Events.{Event, Time, append}
use stable_bank.Ledger.Types.{Account, Amount, Transaction, loan_receivable, Payload, loan}
use stable_bank.Ledger.Amount.{codes, parse_int64}
use stable_bank.Ledger.Accounts.{open_account}
use stable_bank.Ledger.Posting.{post_and_finalize, list_transactions}
use stable_bank.Ledger.Balances.{balance}
use stable_bank.Account.Service.{transfer, kind_filter}
use stable_bank.Bank.{BankEnv, time_now, applications, on_ledger}
use stable_bank.Loan.Amortize.{
  Installment, paid, missed, schedule, WhatIfRequest, WhatIfResult, run_what_if,
}
use stable_bank.Loan.Documents.{LoanRecord, LoanDocument, originated}
use stable_bank.Loan.State.{
  LoanState, event_loan_originated, contains_no, refresh_loans, apply_appended_loans,
}
use stable_bank.Loan.Types.{
  LoanStatus, active, repaid_loan, defaulted_loan, LoanView, LoanError, not_approved,
  loan_not_found, loan_decode_failed, loan_ledger_failed, UnderwriteResult,
}
use stable_bank.Loan.Underwriting.{
  LoanCall, or_default, default_principal, default_term, underwrite,
}

-- `s.refresh(ctx)`
unfoldable pub refresh_state : LoanCall (Unit {0})
refresh_state b =
    let (decoded, p) = refresh_loans b.world.log b.loans in
    (if decoded then ok tt else err loan_decode_failed, record b { loans = p })

abbrev pub loan_event : String → String → LoanDocument → Time → Event Payload
loan_event kind id d at = record {
  id = "";
  seq = 0;
  kind = kind;
  aggregate_id = id;
  occurred_at = at;
  recorded_at = 0;
  payload = loan d;
}

-- `s.store.Append(ctx, e)`, then `s.applyAppended(events)`; the document is dated now.
unfoldable pub append_loan : BankEnv → String → String → (Time → LoanDocument) → LoanCall (Unit {0})
append_loan env kind id d b =
    let now = time_now env b.world in
    let (stored, log) =
      append env.ledger.oracle (loan_event kind id (d now) now ∷ []) b.world.log in
    (
      ok tt,
      record b {
        world = record { log = log; proj = b.world.proj };
        loans = apply_appended_loans stored b.loans;
      },
    )

-- `v, _ := strconv.ParseInt(tx.Metadata[key], 10, 64)`: 0 where there is no number.
unfoldable pub meta_int : String → Dict String → ℤ
meta_int key meta = elim (lookup key meta) [
  | none ↦ pos 0
  | some t ↦ elim (parse_int64 (codes t)) [ none ↦ pos 0 | some n ↦ n ]
]

-- What the loop over the repayments of `buildLoan` collects.
pub record Repayments : Type 0 where
  pub principal : ℤ
  pub interest : ℤ
  pub numbers : List ℤ

unfoldable pub sum_repayments : List Transaction → Repayments → Repayments
sum_repayments [] r = r
sum_repayments (tx ∷ txs) r = sum_repayments txs (record {
  principal = add64 r.principal (meta_int "principal_cents" tx.metadata);
  interest = add64 r.interest (meta_int "interest_cents" tx.metadata);
  numbers = meta_int "installment_no" tx.metadata ∷ r.numbers;
})

-- The overlay of the statuses on the schedule.
abbrev pub overlaid : List ℤ → List ℤ → Installment → Installment
overlaid paid_nos missed_nos i =
    if contains_no (pos i.number) paid_nos
    then record i { status = paid }
    else if contains_no (pos i.number) missed_nos
    then record i { status = missed }
    else i

unfoldable pub overlay : List ℤ → List ℤ → List Installment → List Installment
overlay paid_nos missed_nos [] = []
overlay paid_nos missed_nos (i ∷ is) =
    overlaid paid_nos missed_nos i ∷ overlay paid_nos missed_nos is

abbrev pub status_of : LoanState → ℤ → LoanStatus
status_of st outstanding =
    if st.defaulted
    then defaulted_loan
    else if st.repaid || leb_ℤ outstanding (pos 0)
    then repaid_loan
    else active

abbrev pub base_schedule : LoanRecord → List Installment
base_schedule r = schedule r.principal_cents r.annual_rate_bps r.term_months r.originated_at

unfoldable pub view_of : LoanState → List Transaction → ℤ → LoanView
view_of st txs outstanding =
    let sums = sum_repayments txs (record { principal = pos 0; interest = pos 0; numbers = [] }) in
    record {
      details = st.details;
      status = status_of st outstanding;
      missed_payments = pos (length st.missed);
      outstanding_principal_cents = outstanding;
      interest_paid_cents = sums.interest;
      principal_paid_cents = sums.principal;
      schedule = overlay sums.numbers st.missed (base_schedule st.details);
      default_reason = st.default_reason;
    }

unfoldable pub build_loan : LoanState → LoanCall LoanView
build_loan st = do
  let receivable = st.details.receivable_account_id
  txs ← on_ledger loan_ledger_failed (list_transactions (kind_filter receivable "loan.repayment"))
  bal ← on_ledger loan_ledger_failed (balance receivable)
  pure (view_of st txs bal.minor)

abbrev pub found_loan : Option LoanState → Result LoanError LoanState
found_loan none = err loan_not_found
found_loan (some st) = ok st

unfoldable pub get_loan : String → LoanCall LoanView
get_loan id = do
  refresh_state
  known ← gets (λ b. lookup id b.loans.loans)
  st ← lift (found_loan known)
  build_loan st

-- The loop of `List`; every id of the order is a key of the map.
unfoldable pub build_all : List String → LoanCall (List LoanView)
build_all [] = pure []
build_all (id ∷ ids) = do
  known ← gets (λ b. lookup id b.loans.loans)
  st ← lift (found_loan known)
  v ← build_loan st
  vs ← build_all ids
  pure (v ∷ vs)

unfoldable pub list_loans : LoanCall (List LoanView)
list_loans = do refresh_state; order ← gets (λ b. b.loans.order); build_all order

unfoldable pub loan_schedule : String → LoanCall (List Installment)
loan_schedule id = do v ← get_loan id; pure v.schedule

unfoldable pub what_if : String → WhatIfRequest → LoanCall WhatIfResult
what_if id req = do
  v ← get_loan id
  let r = v.details
  pure (run_what_if r.principal_cents r.annual_rate_bps r.term_months r.originated_at req)

pub record OriginateRequest : Type 0 where
  pub applicant_id : String
  pub principal_cents : ℤ
  pub term_months : ℤ

abbrev pub usd : ℤ → Amount
usd cents = record { currency = "USD"; minor = cents }

abbrev pub receivable_account : String → String → String → Account
receivable_account id receivable owner = record {
  id = receivable;
  owner_id = owner;
  account_type = loan_receivable;
  currency = "USD";
  name = str_append "Loan " (str_append id " Receivable");
  opened_at = 0;
}

unfoldable pub disbursement : String → String → String → ℤ → Transaction
disbursement id receivable deposit principal =
    transfer "loan.disbursement" (str_append "Disbursement for loan " id) "USD" receivable deposit
      (usd principal) []

abbrev pub record_of : UnderwriteResult → String → String → ℤ → ℤ → Time → LoanRecord
record_of r id receivable principal term at = record {
  id = id;
  applicant_id = r.applicant.id;
  principal_cents = principal;
  term_months = term;
  annual_rate_bps = r.pricing.annual_rate_bps;
  tier = r.pricing.tier;
  risk_score = r.risk.risk_score;
  pd_bps = r.risk.pd_bps;
  lgd_bps = r.risk.lgd_bps;
  originated_at = at;
  receivable_account_id = receivable;
  deposit_account_id = r.applicant.deposit_account_id;
}

-- `Originate` from where underwriting has approved.
unfoldable pub open_loan : BankEnv → UnderwriteResult → ℤ → ℤ → LoanCall LoanView
open_loan env result principal term = do
  id ← gets (λ b. env.loan_id (applications b.engine))
  let receivable = str_append "loan-" (str_append id "-receivable")
  let a = result.applicant
  on_ledger loan_ledger_failed (open_account env.ledger (receivable_account id receivable a.id))
  on_ledger loan_ledger_failed
      (post_and_finalize env.ledger (disbursement id receivable a.deposit_account_id principal))
  append_loan env event_loan_originated id λ at.
      let r = record_of result id receivable principal term at in originated r (base_schedule r)
  get_loan id

unfoldable pub originate : BankEnv → OriginateRequest → LoanCall LoanView
originate env req = do
  let principal = or_default default_principal req.principal_cents
  let term = or_default default_term req.term_months
  result ← underwrite env (record {
    applicant_id = req.applicant_id;
    requested_principal_cents = principal;
    term_months = term;
  })
  fail_when (not (str_eq result.decision "approved")) (not_approved result.reasons)
  open_loan env result principal term
