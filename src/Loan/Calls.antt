-- ===== src/Loan/Calls.antt =====
-- Every call of loan.Service (internal/loan/service.go) runs through steps of the ledger; storing a
-- loan's event is one of them.
use stable_bank.Base.{◌≡◌, refl, String, false, List, [], ◌∷◌}
use stable_bank.Base.Int.{ℤ}
use stable_bank.Store.Events.{Time, contains_string}
use stable_bank.Ledger.Projection.{ledger_event_types}
use stable_bank.Ledger.Steps.{here, notes, Steps-one}
use stable_bank.Ledger.Steps.Runs.{Runs-open_account, Runs-post_and_finalize}
use stable_bank.Bank.{BankEnv, world_of}
use stable_bank.Bank.Runs.{
  Follows, follows_rules, Follows-bind, Follows-pure, Follows-gets, Follows-lift, Follows-on_ledger,
  Follows-on_rules,
}
use stable_bank.Account.Calls.{Runs-balance, Runs-list_transactions}
use stable_bank.Loan.Amortize.{Installment, WhatIfRequest}
use stable_bank.Loan.Documents.{LoanRecord, LoanDocument}
use stable_bank.Loan.State.{
  LoanState, event_loan_originated, event_loan_payment_missed, event_loan_defaulted,
  event_loan_repaid,
}
use stable_bank.Loan.Types.{
  Applicant, LoanView, LoanStatus, active, repaid_loan, defaulted_loan, UnderwriteRequest,
  UnderwriteResult,
}
use stable_bank.Loan.Underwriting.{LoanCall, add_applicant, underwrite}
use stable_bank.Loan.Service.{
  refresh_state, append_loan, build_loan, get_loan, build_all, list_loans, what_if,
  OriginateRequest, open_loan, originate, found_loan,
}
use stable_bank.Loan.Servicing.{
  append_repaid, close_if_repaid, repay, charge, miss_internal, miss_payment, default_active,
  by_status, default_loan,
}

module _ (env : BankEnv) where
  abbrev pub KeepsLoan : {A : Type 0} → LoanCall A → Type 0
  KeepsLoan m = Follows env.ledger world_of m

  -- The ledger owns none of the kinds of a loan's event.
  Follows-append_loan :
      (kind id : String) (d : Time → LoanDocument)
      → contains_string ledger_event_types kind ≡ false
      → KeepsLoan (append_loan env kind id d)
  unfolding append_loan
  Follows-append_loan kind id d alien = record { at = λ b h. Steps-one (notes _ alien) }

  Follows-originated :
      (id : String) (d : Time → LoanDocument)
      → KeepsLoan (append_loan env event_loan_originated id d)
  unfolding contains_string
  Follows-originated id d = Follows-append_loan event_loan_originated id d refl

  Follows-missed :
      (id : String) (d : Time → LoanDocument)
      → KeepsLoan (append_loan env event_loan_payment_missed id d)
  unfolding contains_string
  Follows-missed id d = Follows-append_loan event_loan_payment_missed id d refl

  Follows-defaulted :
      (id : String) (d : Time → LoanDocument)
      → KeepsLoan (append_loan env event_loan_defaulted id d)
  unfolding contains_string
  Follows-defaulted id d = Follows-append_loan event_loan_defaulted id d refl

  Follows-repaid :
      (id : String) (d : Time → LoanDocument) → KeepsLoan (append_loan env event_loan_repaid id d)
  unfolding contains_string
  Follows-repaid id d = Follows-append_loan event_loan_repaid id d refl

  pub Follows-refresh_state : KeepsLoan refresh_state
  unfolding refresh_state
  Follows-refresh_state = record { at = λ b h. here }

  pub Follows-add_applicant : (a : Applicant) → KeepsLoan (add_applicant a)
  unfolding add_applicant
  Follows-add_applicant a = record { at = λ b h. here }

  ruleset loan_rules = (
    follows_rules, Follows-on_ledger, Follows-on_rules, Runs-balance, Runs-list_transactions,
    Runs-open_account, Runs-post_and_finalize, Follows-originated, Follows-missed,
    Follows-defaulted, Follows-repaid, Follows-refresh_state, Follows-add_applicant,
  )

  Follows-build_loan : (st : LoanState) → KeepsLoan (build_loan st)
  unfolding build_loan
  Follows-build_loan st = search loan_rules depth 14

  pub Follows-get_loan : (id : String) → KeepsLoan (get_loan id)
  unfolding get_loan
  Follows-get_loan id = search (loan_rules, Follows-build_loan) depth 14

  Follows-build_all : (ids : List String) → KeepsLoan (build_all ids)
  unfolding build_all
  Follows-build_all [] = search loan_rules
  Follows-build_all (id ∷ ids) =
      let rest : KeepsLoan (build_all ids) = Follows-build_all ids in
      Follows-bind (Follows-gets _) λ known. Follows-bind (Follows-lift (found_loan known)) λ st.
        Follows-bind (Follows-build_loan st) λ v. Follows-bind rest (λ vs. Follows-pure (v ∷ vs))

  pub Follows-list_loans : KeepsLoan list_loans
  unfolding list_loans
  Follows-list_loans = search (loan_rules, Follows-build_all) depth 14

  pub Follows-what_if : (id : String) (req : WhatIfRequest) → KeepsLoan (what_if id req)
  unfolding what_if
  Follows-what_if id req = search (loan_rules, Follows-get_loan) depth 14

  pub Follows-underwrite : (req : UnderwriteRequest) → KeepsLoan (underwrite env req)
  unfolding underwrite
  Follows-underwrite req = search loan_rules depth 24

  Follows-open_loan :
      (r : UnderwriteResult) (principal term : ℤ) → KeepsLoan (open_loan env r principal term)
  unfolding open_loan
  Follows-open_loan r principal term = search (loan_rules, Follows-get_loan) depth 24

  pub Follows-originate : (req : OriginateRequest) → KeepsLoan (originate env req)
  unfolding originate
  Follows-originate req = search (loan_rules, Follows-underwrite, Follows-open_loan) depth 14

  Follows-append_repaid : (id : String) → KeepsLoan (append_repaid env id)
  unfolding append_repaid
  Follows-append_repaid id = search loan_rules depth 14

  Follows-close_if_repaid : (id : String) (v : LoanView) → KeepsLoan (close_if_repaid env id v)
  unfolding close_if_repaid
  Follows-close_if_repaid id v =
      search (loan_rules, Follows-append_repaid, Follows-get_loan) depth 14

  pub Follows-repay : (id : String) (amount : ℤ) → KeepsLoan (repay env id amount)
  unfolding repay
  Follows-repay id amount = search (loan_rules, Follows-get_loan, Follows-close_if_repaid) depth 24

  Follows-charge :
      (id : String) (r : LoanRecord) (next : Installment) (fee : ℤ)
      → KeepsLoan (charge env id r next fee)
  unfolding charge
  Follows-charge id r next fee = search loan_rules depth 14

  pub Follows-miss_internal : (id : String) → KeepsLoan (miss_internal env id)
  unfolding miss_internal
  Follows-miss_internal id = search (loan_rules, Follows-get_loan, Follows-charge) depth 24

  pub Follows-miss_payment : (id : String) → KeepsLoan (miss_payment env id)
  unfolding miss_payment
  Follows-miss_payment id = search (loan_rules, Follows-miss_internal) depth 14

  Follows-default_active :
      (id reason : String) (r : LoanRecord) → KeepsLoan (default_active env id reason r)
  unfolding default_active
  Follows-default_active id reason r = search (loan_rules, Follows-get_loan) depth 24

  Follows-by_status :
      (s : LoanStatus) (v : LoanView) (rest : LoanCall LoanView)
      → KeepsLoan rest
      → KeepsLoan (by_status s v rest)
  Follows-by_status active v rest h = h
  Follows-by_status repaid_loan v rest h = search loan_rules
  Follows-by_status defaulted_loan v rest h = search loan_rules

  pub Follows-default_loan : (id reason : String) → KeepsLoan (default_loan env id reason)
  unfolding default_loan
  Follows-default_loan id reason =
      search (loan_rules, Follows-get_loan, Follows-by_status, Follows-default_active) depth 14
