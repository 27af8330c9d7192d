-- ===== src/Loan/Tick/Calls.antt =====
-- `Tick` of internal/loan/service.go and `Seed` of internal/loan/seed.go run through steps of the
-- ledger.
use stable_bank.Base.{String, List, [], ◌∷◌, ◌++◌}
use stable_bank.Base.Int.{ℤ}
use stable_bank.Store.Events.{Time}
use stable_bank.Bank.{BankEnv}
use stable_bank.Bank.Runs.{follows_rules, Follows-bind, Follows-if, Follows-pure}
use stable_bank.Loan.Amortize.{Installment}
use stable_bank.Loan.Types.{Applicant, LoanView}
use stable_bank.Loan.Servicing.{is_active}
use stable_bank.Loan.Tick.{
  TickReport, is_overdue, tick_schedule, tick_loans, tick, add_applicants, seed_loans,
}
use stable_bank.Loan.Calls.{
  KeepsLoan, Follows-refresh_state, Follows-add_applicant, Follows-list_loans,
  Follows-miss_internal, Follows-default_loan, Follows-originate,
}

module _ (env : BankEnv) where
  Follows-tick_schedule :
      (grace : ℤ) (now : Time) (id : String) (is : List Installment) (r : TickReport)
      → KeepsLoan env (tick_schedule env grace now id is r)
  unfolding tick_schedule
  Follows-tick_schedule grace now id [] r = Follows-pure r
  Follows-tick_schedule grace now id (i ∷ is) r =
      let noted = record r { missed_payments = r.missed_payments ++ id ∷ [] } in
      Follows-if (is_overdue grace now i)
        (Follows-bind (Follows-miss_internal env id) λ out.
          Follows-if out.1
            (Follows-bind (Follows-default_loan env id "missed_payments_threshold_reached")
              λ v. Follows-pure _)
            (Follows-tick_schedule grace now id is noted))
        (Follows-tick_schedule grace now id is r)

  Follows-tick_loans :
      (grace : ℤ) (now : Time) (vs : List LoanView) (r : TickReport)
      → KeepsLoan env (tick_loans env grace now vs r)
  unfolding tick_loans
  Follows-tick_loans grace now [] r = Follows-pure r
  Follows-tick_loans grace now (v ∷ vs) r =
      Follows-if (is_active v.status)
        (Follows-bind (Follows-tick_schedule grace now v.details.id v.schedule r)
          λ r'. Follows-tick_loans grace now vs r')
        (Follows-tick_loans grace now vs r)

  pub Follows-tick : KeepsLoan env (tick env)
  unfolding tick
  Follows-tick = search (follows_rules, Follows-list_loans, Follows-tick_loans) depth 24

  Follows-add_applicants : (as_ : List Applicant) → KeepsLoan env (add_applicants as_)
  unfolding add_applicants
  Follows-add_applicants [] = Follows-pure tt
  Follows-add_applicants (a ∷ more) =
      let rest : KeepsLoan env (add_applicants more) = Follows-add_applicants more in
      Follows-bind (Follows-add_applicant env a) (λ u. rest)

  pub Follows-seed_loans : KeepsLoan env (seed_loans env)
  unfolding seed_loans
  Follows-seed_loans =
      search (follows_rules, Follows-add_applicants, Follows-refresh_state, Follows-originate) depth
        24
