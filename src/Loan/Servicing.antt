-- ===== src/Loan/Servicing.antt =====
-- The servicing of loans, internal/loan/service.go: repayments, missed payments and defaults.
pub mod Entries
use Prim.Native.String.{◌++◌ as str_append}
use stable_bank.Base.{
  ℕ, ◌-◌, ◌/◌, String, Bool, true, false, not, Option, none, some, List, [], ◌∷◌, ◌++◌, Result, ok,
  err, if◌then◌else◌,
}
use stable_bank.Base.Int.{ℤ, pos, leb_ℤ, ltb_ℤ}
use stable_bank.Base.Int64.{add64, sub64}
use stable_bank.Base.Calendar.{day_length}
use stable_bank.Base.Dict.{lookup}
use stable_bank.Base.Stateful.{pure, fail, gets, lift, fail_when, ◌>>=◌, ◌>>◌}
use stable_bank.Value.{number, Fields, no_fields, field, get}
use stable_bank.Store.Events.{Time}
use stable_bank.Ledger.Types.{Entry, Transaction, debit, credit, unset}
use stable_bank.Ledger.Posting.{post_and_finalize}
use stable_bank.Ledger.Balances.{balance}
use stable_bank.Account.Service.{transfer}
use stable_bank.Account.Purchases.{int_text}
use stable_bank.Bank.{BankEnv, time_now, on_ledger, on_rules}
use stable_bank.Loan.Amortize.{Installment, InstallmentStatus, scheduled, paid, missed}
use stable_bank.Loan.Documents.{LoanRecord, payment_missed, defaulted, repaid}
use stable_bank.Loan.State.{
  LoanState, event_loan_payment_missed, event_loan_defaulted, event_loan_repaid,
}
use stable_bank.Loan.Types.{
  LoanStatus, active, repaid_loan, defaulted_loan, LoanView, LoanError, insufficient_funds,
  cannot_repay, cannot_miss, cannot_default, none_unpaid, loan_ledger_failed, loan_rules_failed,
}
use stable_bank.Loan.Underwriting.{LoanCall, int64_of, bool_of}
use stable_bank.Loan.Service.{usd, append_loan, get_loan}

abbrev pub is_scheduled : InstallmentStatus → Bool
is_scheduled scheduled = true
is_scheduled paid = false
is_scheduled missed = false

unfoldable pub first_scheduled : List Installment → Option Installment
first_scheduled [] = none
first_scheduled (i ∷ is) = if is_scheduled i.status then some i else first_scheduled is

abbrev pub next_unpaid : Option Installment → Result LoanError Installment
next_unpaid none = err none_unpaid
next_unpaid (some i) = ok i

abbrev pub is_active : LoanStatus → Bool
is_active active = true
is_active repaid_loan = false
is_active defaulted_loan = false

-- How a payment is divided: the interest first, then the principal.
abbrev pub interest_portion : Installment → ℤ → ℤ
interest_portion next amt = if ltb_ℤ amt next.interest_cents then amt else next.interest_cents

abbrev pub principal_portion : Installment → ℤ → ℤ
principal_portion next amt = sub64 amt (interest_portion next amt)

abbrev pub credit_entry : String → ℤ → List Entry
credit_entry account cents =
    if ltb_ℤ (pos 0) cents
    then record { account_id = account; direction = credit; amount = usd cents } ∷ []
    else []

unfoldable pub repayment_entries : LoanRecord → Installment → ℤ → List Entry
repayment_entries r next amt =
    record { account_id = r.deposit_account_id; direction = debit; amount = usd amt }
    ∷ (credit_entry r.receivable_account_id (principal_portion next amt)
        ++ credit_entry "interest-income-usd" (interest_portion next amt))

unfoldable pub repayment : String → LoanRecord → Installment → ℤ → Transaction
repayment id r next amt = record {
  id = "";
  kind = "loan.repayment";
  description =
      str_append "Repayment for loan "
        (str_append id (str_append " installment " (int_text (pos next.number))));
  currency = "USD";
  entries = repayment_entries r next amt;
  status = unset;
  linked_tx_id = "";
  metadata =
      ("installment_no", int_text (pos next.number))
      ∷ ("principal_cents", int_text (principal_portion next amt))
      ∷ ("interest_cents", int_text (interest_portion next amt))
      ∷ [];
  occurred_at = 0;
}

abbrev pub is_repaid : Option LoanState → Bool
is_repaid none = false
is_repaid (some st) = st.repaid

-- `appendRepaidEvent`
unfoldable pub append_repaid : BankEnv → String → LoanCall (Unit {0})
append_repaid env id = do
  already ← gets (λ b. is_repaid (lookup id b.loans.loans))
  if already then pure tt else append_loan env event_loan_repaid id (λ at. repaid id at)

unfoldable pub close_if_repaid : BankEnv → String → LoanView → LoanCall LoanView
close_if_repaid env id v =
    if leb_ℤ v.outstanding_principal_cents (pos 0)
    then append_repaid env id >> get_loan id
    else pure v

abbrev pub amount_or : ℤ → ℤ → ℤ
amount_or default amount = if leb_ℤ amount (pos 0) then default else amount

unfoldable pub repay : BankEnv → String → ℤ → LoanCall LoanView
repay env id amount = do
  v ← get_loan id
  fail_when (not (is_active v.status)) (cannot_repay v.status)
  next ← lift (next_unpaid (first_scheduled v.schedule))
  let amt = amount_or next.payment_cents amount
  bal ← on_ledger loan_ledger_failed (balance v.details.deposit_account_id)
  fail_when (ltb_ℤ bal.minor amt) (insufficient_funds v.details.deposit_account_id bal.minor amt)
  on_ledger loan_ledger_failed (post_and_finalize env.ledger (repayment id v.details next amt))
  updated ← get_loan id
  close_if_repaid env id updated

abbrev pub days_past : Time → Time → ℕ
days_past now due = (now - due) / day_length

abbrev pub servicing_input : ℕ → ℤ → Fields
servicing_input days missed_so_far =
    field "days_past_due" (number (pos days))
      (field "missed_payments_so_far" (number missed_so_far) no_fields)

unfoldable pub late_fee : String → LoanRecord → Installment → ℤ → Transaction
late_fee id r next cents =
    transfer "loan.late_fee"
      (str_append "Late fee for loan "
        (str_append id (str_append " installment " (int_text (pos next.number)))))
      "USD" r.receivable_account_id "fee-income-usd" (usd cents) []

unfoldable pub charge : BankEnv → String → LoanRecord → Installment → ℤ → LoanCall (Unit {0})
charge env id r next fee =
    let charging =
      on_ledger loan_ledger_failed (post_and_finalize env.ledger (late_fee id r next fee)) in
    if ltb_ℤ (pos 0) fee then charging >> pure tt else pure tt

-- `missPaymentInternal`
unfoldable pub miss_internal : BankEnv → String → LoanCall (LoanView × Bool)
miss_internal env id = do
  v ← get_loan id
  fail_when (not (is_active v.status)) (cannot_miss v.status)
  next ← lift (next_unpaid (first_scheduled v.schedule))
  now ← gets (λ b. time_now env b.world)
  let days = days_past now next.due_date
  decision ←
      on_rules loan_rules_failed env "loan_servicing" "loan" id
        (servicing_input days v.missed_payments)
  let fee = int64_of (get "late_fee_cents" decision.output)
  charge env id v.details next fee
  append_loan env event_loan_payment_missed id λ at. payment_missed (record {
    loan_id = id;
    installment_no = pos next.number;
    days_past_due = pos days;
    missed_payments_so_far = add64 v.missed_payments (pos 1);
    late_fee_cents = fee;
    occurred_at = at;
  })
  updated ← get_loan id
  pure (updated, bool_of (get "should_default" decision.output))

unfoldable pub miss_payment : BankEnv → String → LoanCall LoanView
miss_payment env id = do r ← miss_internal env id; pure r.0

unfoldable pub write_off : String → LoanRecord → ℤ → Transaction
write_off id r cents =
    transfer "loan.writeoff" (str_append "Write-off for loan " id) "USD" "loan-loss-expense-usd"
      r.receivable_account_id (usd cents) []

-- `Default` of a loan that is active.
unfoldable pub default_active : BankEnv → String → String → LoanRecord → LoanCall LoanView
default_active env id reason r = do
  bal ← on_ledger loan_ledger_failed (balance r.receivable_account_id)
  let writing =
      on_ledger loan_ledger_failed (post_and_finalize env.ledger (write_off id r bal.minor))
  if ltb_ℤ (pos 0) bal.minor then writing >> pure tt else pure tt
  append_loan env event_loan_defaulted id (λ at. defaulted id reason bal.minor at)
  get_loan id

abbrev pub by_status : LoanStatus → LoanView → LoanCall LoanView → LoanCall LoanView
by_status active v rest = rest
by_status repaid_loan v rest = fail cannot_default
by_status defaulted_loan v rest = pure v

unfoldable pub default_loan : BankEnv → String → String → LoanCall LoanView
default_loan env id reason = do
  v ← get_loan id
  by_status v.status v (default_active env id reason v.details)
