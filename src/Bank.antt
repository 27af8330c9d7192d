-- ===== src/Bank.antt =====
-- What the services of the bank share: the ledger (internal/ledger) and the rules engine
-- (internal/rules), as `main` of cmd/stablebank/main.go wires them together.
pub mod Runs
pub mod Requests
pub mod Books
mod Tests
use stable_bank.Base.{ℕ, String, Option, some, length, Result, ok, err}
use stable_bank.Base.Int.{ℤ}
use stable_bank.Base.Stateful.{Stateful, wrap_error}
use stable_bank.Value.{Fields}
use stable_bank.Store.Events.{Time}
use stable_bank.Ledger.Types.{LedgerError}
use stable_bank.Ledger.Action.{World, Env, Action}
use stable_bank.Ledger.Fx.{RateProvider}
use stable_bank.Ledger.Fx.Policy.{rule_provider}
use stable_bank.Rules.Documents.{RuleError, Library}
use stable_bank.Loan.State.{LoanProjection}
use stable_bank.Loan.Types.{Applicant}
use stable_bank.Base.Dict.{Dict}
use stable_bank.Rules.Engine.{Engine, Moment, Decision, evaluate, get_content}

-- The account service has no state of its own; the loan service has its projection and its
-- applicants.
pub record Bank : Type 0 where
  pub world : World
  pub engine : Engine
  pub loans : LoanProjection
  pub applicants : Dict Applicant

abbrev pub world_of : Bank → World
world_of b = b.world

-- What a call reads from outside. The store's own ids and times of rule applications are by the
-- number of applications that are stored, and so are the ids of purchases and of loans.
pub record BankEnv : Type 0 where
  pub ledger : Env
  pub library : Library
  pub wall : ℕ → Time
  pub fresh : ℕ → String
  pub purchase_id : ℕ → String
  pub loan_id : ℕ → String
  pub no_policy : LedgerError

abbrev pub time_now : BankEnv → World → Time
time_now env w = env.ledger.now w.log.seq

abbrev pub applications : Engine → ℕ
applications e = length e.rule_store.apps

abbrev pub moment_of : BankEnv → World → Engine → Moment
moment_of env w e = record {
  now = time_now env w;
  wall = env.wall (applications e);
  fresh = env.fresh (applications e);
}

-- `ruleReader.Get`, and the rate provider over it.
abbrev pub read_policy : BankEnv → Engine → Result LedgerError Fields
read_policy env e = elim (get_content "fx_policy" e) [ err x ↦ err env.no_policy | ok c ↦ ok c.0 ]

abbrev pub rates_of : BankEnv → Bank → Option RateProvider
rates_of env b = some (rule_provider (read_policy env b.engine) (time_now env b.world))

-- A call of the ledger.
abbrev pub on_ledger : {E A : Type 0} → (LedgerError → E) → Action A → Stateful Bank E A
on_ledger wrap m b = let (r, w) = m b.world in (wrap_error wrap r, record b { world = w })

-- `s.rules.Evaluate(ctx, ...)`
abbrev pub on_rules :
    {E : Type 0}
    → (RuleError → E)
    → BankEnv
    → String
    → String
    → String
    → Fields
    → Stateful Bank E Decision
on_rules wrap env id kind entity input b =
    let (r, e) =
      evaluate env.library (moment_of env b.world b.engine) id kind entity input b.engine in
    (wrap_error wrap r, record b { engine = e })
