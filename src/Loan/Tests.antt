-- ===== src/Loan/Tests.antt =====
-- Tests of internal/loan, and its theorems at concrete inputs.
use stable_bank.Base.{ℕ, ◌+◌, ◌*◌, ◌≡◌, refl, All, length, arith}
use stable_bank.Base.Int.{pos, ◌≤ℤ◌, ◌<ℤ◌, ◌+ℤ◌, ◌-ℤ◌, ◌*ℤ◌}
use stable_bank.Base.Int64.{wrap64, add64, sub64}
use stable_bank.Base.Round.{half_up}
use stable_bank.Base.Calendar.{add_months}
use stable_bank.Base.{String, [], ◌∷◌, ok}
use stable_bank.Base.Dict.{Dict, lookup}
use stable_bank.Ledger.Types.{Account}
use stable_bank.Ledger.Posting.{validate}
use stable_bank.Store.Events.{Event}
use stable_bank.Ledger.Types.{Payload, loan}
use stable_bank.Loan.Documents.{LoanDocument, payment_missed, defaulted}
use stable_bank.Loan.State.{LoanState, LoanProjection, apply_loans}
use stable_bank.Loan.State.Persistence.{IsKnownAfter, apply_loans-Progress}
use stable_bank.Base.{List, false}
use stable_bank.Loan.Amortize.{Installment, scheduled}
use stable_bank.Loan.Documents.{LoanRecord}
use stable_bank.Loan.Servicing.{interest_portion, principal_portion, repayment}
use stable_bank.Loan.Servicing.Entries.{repayment-accepted}
use stable_bank.Loan.Amortize.{
  round_half_up_rat, pct_hundredths, monthly_payment, interest_on, schedule_loop, schedule,
  Scenario, extra_loop, schedule_with_extra, run_what_if, totals_of,
}
use stable_bank.Loan.Amortize.Closing.{final_remaining, sum_principal, Reconciles, schedule-closes}
use stable_bank.Loan.Amortize.Payoff.{no_extra, run_what_if-negative}

-- All that the amortisation computes with.
runs : Unit {0}
unfolding ◌+ℤ◌ ◌-ℤ◌ ◌*ℤ◌ wrap64 add64 sub64 half_up add_months round_half_up_rat pct_hundredths
    monthly_payment interest_on schedule_loop schedule extra_loop schedule_with_extra run_what_if
    totals_of
runs = tt

-- Twelve months from the 31st of January of the year 2024 (in nanoseconds since the year 1), and one
-- month, which runs over the end of February.
abbrev january : ℕ
january = 738915 * 86400000000000

months_test :
    (add_months 12 january ≡ (738915 + 366) * 86400000000000)
    × (add_months 1 january ≡ (738915 + 31) * 86400000000000)
unfolding runs
months_test = (refl, refl)

-- As in TestMonthlyPayment_ZeroRate of internal/loan/amortize_test.go; 5% a year over 12 months.
payment_test :
    (monthly_payment (pos 1000000) (pos 0) (pos 10) ≡ pos 100000)
    × (monthly_payment (pos 100000) (pos 500) (pos 12) ≡ pos 8561)
    × (pct_hundredths (pos 1723) (pos 10000) ≡ pos 1723)
unfolding runs
payment_test = (refl, refl, refl)

schedule-closes_example :
    let s = schedule (pos 100000) (pos 500) (pos 12) january in
    (length s ≡ 12)
    × (final_remaining (pos 100000) s ≡ pos 0)
    × (sum_principal s ≡ pos 100000)
    × All Reconciles s
schedule-closes_example = schedule-closes (pos 100000) 500 11 january (omega arith, omega arith)

abbrev scenario : Scenario
scenario = record {
  annual_rate_bps = pos 500;
  base_payment = pos 8561;
  request = record no_extra { extra_monthly_cents = pos 2000 };
  originated_at = january;
}

-- A scenario with a lump sum in its third month.
abbrev lump_scenario : Scenario
lump_scenario = record scenario {
  request = record no_extra { lump_sum_cents = pos 50000; lump_sum_at_installment = pos 3 };
}

-- A dollar over three months, without interest: 33, 33 and 34 cents, or four payments of 33 at most.
run_what_if-negative_example :
    (run_what_if (pos 100) (pos 0) (pos 3) january no_extra).months_saved <ℤ pos 0
unfolding runs
run_what_if-negative_example =
    run_what_if-negative 100 3 january (omega arith) (omega arith) (omega arith) (omega arith)

abbrev dollars : String → Account
dollars id = record {
  id = id;
  owner_id = "ana";
  account_type = "";
  currency = "USD";
  name = id;
  opened_at = 0;
}

abbrev known : Dict Account
known =
    ("ana-usd", dollars "ana-usd")
    ∷ ("loan-1-receivable", dollars "loan-1-receivable")
    ∷ ("interest-income-usd", dollars "interest-income-usd")
    ∷ []

abbrev loan_record : LoanRecord
loan_record = record {
  id = "1";
  applicant_id = "ana";
  principal_cents = pos 100000;
  term_months = pos 12;
  annual_rate_bps = pos 500;
  tier = "prime";
  risk_score = pos 85;
  pd_bps = pos 100;
  lgd_bps = pos 4500;
  originated_at = january;
  receivable_account_id = "loan-1-receivable";
  deposit_account_id = "ana-usd";
}

abbrev first_installment : Installment
first_installment = record {
  number = 1;
  due_date = january;
  payment_cents = pos 8561;
  principal_cents = pos 8144;
  interest_cents = pos 417;
  remaining_principal_cents = pos 91856;
  status = scheduled;
}

repayment-accepted_example :
    (validate known (repayment "1" loan_record first_installment (pos 5000)) ≡ ok tt)
    × (interest_portion first_installment (pos 5000) ≤ℤ pos 417)
    × (principal_portion first_installment (pos 5000)
          +ℤ interest_portion first_installment (pos 5000)
        ≡ pos 5000)
unfolding lookup
repayment-accepted_example =
    repayment-accepted known "1" loan_record first_installment 417 5000 refl (omega arith)
      (omega arith) (dollars "ana-usd", refl, refl) (dollars "loan-1-receivable", refl, refl)
      (dollars "interest-income-usd", refl, refl)

abbrev event : ℕ → String → LoanDocument → Event Payload
event seq kind d = record {
  seq = seq;
  id = "event";
  kind = kind;
  aggregate_id = "1";
  occurred_at = january;
  recorded_at = 0;
  payload = loan d;
}

abbrev missing : LoanDocument
missing = payment_missed (record {
  loan_id = "1";
  installment_no = pos 2;
  days_past_due = pos 20;
  missed_payments_so_far = pos 2;
  late_fee_cents = pos 0;
  occurred_at = january;
})

abbrev one_missed : LoanState
one_missed = record {
  details = loan_record;
  missed = pos 1 ∷ [];
  defaulted = false;
  default_reason = "";
  repaid = false;
}

abbrev projected : LoanProjection
projected = record { last_seq = 1; loans = ("1", one_missed) ∷ []; order = "1" ∷ [] }

abbrev events : List (Event Payload)
events =
    event 2 "loan.payment_missed" missing
    ∷ event 3 "loan.defaulted" (defaulted "1" "late" (pos 100) january)
    ∷ []

apply_loans-Progress_example : IsKnownAfter "1" one_missed (apply_loans events projected).1
unfolding lookup
apply_loans-Progress_example =
    apply_loans-Progress events projected "1" one_missed refl ((λ h. h), ((λ h. h), tt))
