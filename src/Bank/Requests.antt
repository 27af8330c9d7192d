-- ===== src/Bank/Requests.antt =====
-- The calls of the services of the bank, one after another: the ledger (internal/ledger), the rules
-- engine (internal/rules), the accounts (internal/account) and the loans (internal/loan). A call
-- that fails leaves what it wrote before it failed.
use stable_bank.Base.{String, List, [], ◌∷◌}
use stable_bank.Base.Int.{ℤ}
use stable_bank.Ledger.Types.{Amount}
use stable_bank.Ledger.Action.{new_world}
use stable_bank.Ledger.Requests.{Call, serve}
use stable_bank.Rules.Engine.{Engine}
use stable_bank.Rules.Engine.Live.Runs.{EngineCall, serve_call}
use stable_bank.Account.Service.{get_view, list_views, deposit, seed_account}
use stable_bank.Account.Purchases.{PurchaseRequest, purchase}
use stable_bank.Account.History.{list_purchases}
use stable_bank.Account.Bulk.{BulkRequest, Draw, bulk_random_purchases}
use stable_bank.Loan.State.{new_loan_projection}
use stable_bank.Loan.Types.{Applicant, UnderwriteRequest}
use stable_bank.Loan.Underwriting.{add_applicant, underwrite}
use stable_bank.Loan.Service.{get_loan, list_loans, OriginateRequest, originate}
use stable_bank.Loan.Servicing.{repay, miss_payment, default_loan}
use stable_bank.Loan.Tick.{tick, seed_loans}
use stable_bank.Bank.{Bank, BankEnv}

pub data BankCall : Type 0 where
  on_books : Call → BankCall
  on_engine : EngineCall → BankCall
  viewing : String → BankCall
  listing_views : BankCall
  listing_purchases : String → BankCall
  depositing : String → Amount → BankCall
  seeding_account : BankCall
  purchasing : PurchaseRequest → BankCall
  purchasing_many : (ℤ → ℤ → ℤ → List Draw) → BulkRequest → BankCall
  registering_applicant : Applicant → BankCall
  underwriting : UnderwriteRequest → BankCall
  originating : OriginateRequest → BankCall
  reading_loan : String → BankCall
  listing_loans : BankCall
  repaying : String → ℤ → BankCall
  missing : String → BankCall
  defaulting : String → String → BankCall
  ticking : BankCall
  seeding_loans : BankCall

abbrev pub new_bank : Engine → Bank
new_bank e = record { world = new_world; engine = e; loans = new_loan_projection; applicants = [] }

unfoldable pub serve_bank : BankEnv → BankCall → Bank → Bank
serve_bank env (on_books c) b = record b { world = serve env.ledger c b.world }
serve_bank env (on_engine c) b = record b { engine = serve_call env.library c b.engine }
serve_bank env (viewing id) b = (get_view env id b).1
serve_bank env listing_views b = (list_views env b).1
serve_bank env (listing_purchases id) b = (list_purchases env id b).1
serve_bank env (depositing id amt) b = (deposit env id amt b).1
serve_bank env seeding_account b = (seed_account env b).1
serve_bank env (purchasing req) b = (purchase env req b).1
serve_bank env (purchasing_many draws req) b = (bulk_random_purchases env draws req b).1
serve_bank env (registering_applicant a) b = (add_applicant a b).1
serve_bank env (underwriting req) b = (underwrite env req b).1
serve_bank env (originating req) b = (originate env req b).1
serve_bank env (reading_loan id) b = (get_loan id b).1
serve_bank env listing_loans b = (list_loans b).1
serve_bank env (repaying id amount) b = (repay env id amount b).1
serve_bank env (missing id) b = (miss_payment env id b).1
serve_bank env (defaulting id reason) b = (default_loan env id reason b).1
serve_bank env ticking b = (tick env b).1
serve_bank env seeding_loans b = (seed_loans env b).1

unfoldable pub serve_bank_all : BankEnv → List BankCall → Bank → Bank
serve_bank_all env [] b = b
serve_bank_all env (c ∷ cs) b = serve_bank_all env cs (serve_bank env c b)
