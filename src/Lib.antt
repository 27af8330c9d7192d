-- ===== src/Lib.antt =====
-- stable_bank: a verification library of stableBank, a bank whose state is a log of events.
--
-- The program and its model. A store keeps an append-only event log and the versions of business
-- rules; the ledger folds the log into a projection and appends to it; loans and accounts are built
-- on the ledger and on rules. Paths are those of the repository.
--
-- - Base and its children: what all parts share. Int and Int64 are Go's int64 as an integer that wraps
--   around 2^64; Dict is a map with string keys; Fallible is a result with an error; Sort, Round, Rat,
--   Float and Calendar are sort.Slice, rounded division, big.Rat, float64 arithmetic and time.AddDate;
--   Selection relates a list to its elements that have a property.
-- - Value: decoded YAML and JSON documents, Go's `any`, which rule contents and evaluator inputs are.
-- - Store: internal/store/store.go and internal/store/memstore/memstore.go. Store/Events is the event
--   log (Append, List), generic in the payload; Store/Rules has the rule versions and the audit log
--   (InsertRuleVersion, GetRuleVersion, ListRuleVersions, InsertRuleApplication,
--   ListRuleApplications). Random ids and the wall clock are parameters.
-- - Ledger: internal/ledger. Types has account.go, transaction.go and the currencies; Amount is
--   amount.go; Projection is the read model of projection.go; Action is a method of Service, a
--   function from the store and the projection to a result and both as the call leaves them; Accounts,
--   Posting and Balances have the methods of service.go. Fx is fx.go, Fx/Convert its Convert, and
--   Fx/Policy the rule-backed rates of fx.go and the evaluators of policy.go.
-- - Ledger/Steps describes what a call does as a step relation: nothing, or one event appended under
--   the guards of its method. Ledger/Requests runs any list of calls, and its children go by
--   induction on the steps. Ledger/Lifecycle follows the status of one transaction, Ledger/Completion
--   one PostAndFinalize to its end. Ledger/Races has the one interleaving of two calls that is
--   modelled: a refresh between a writer's append and its fold.
-- - Simclock: internal/simclock/clock.go, the clock that every service reads, and its listeners.
-- - Rules: internal/rules. Documents has Validate of schema.go and rewriteVersionLine of loader.go; Match
--   is match.go, Diff is diff.go; Engine has the methods of engine.go and examples.go, Engine/Save
--   Save and Reactivate, Engine/Load LoadFromDisk. Engine/Live and its children relate the cache to
--   the open versions of the store, operation by operation.
-- - Bank: the state that the services share, as cmd/stablebank/main.go wires them: the event log with
--   the ledger's projection, the rules engine, the loans. on_ledger and on_rules run a call of a part
--   on it. Bank/Requests runs any list of calls of all services, Bank/Runs and Bank/Books follow what
--   they do to the ledger.
-- - Account: internal/account. Waterfall is waterfall.go, which balances fund a purchase; Service has
--   views, deposits and seeding, Purchases has Purchase, Bulk has BulkRandomPurchases, History has
--   ListPurchases. The children of Purchases follow one purchase from its call to its receipt.
-- - Loan: internal/loan. Amortize is amortize.go, payments, schedules and what-if scenarios. Documents
--   and State are state.go, the projection of the loans' events, which State/Persistence follows over a
--   refresh; Fields and Evaluators are evaluators.go; Types, Pricing and Underwriting have Underwrite,
--   Service has origination and reads, Servicing has repayments, missed payments and defaults, Tick has
--   Tick and seed.go.
--
-- Parameters. A call of the ledger reads the simulated clock and the random ids of newID; `Env` gives
-- both by the number of events stored at the time of the call. The ledger's rate provider is any
-- function; StaticRateProvider and RuleRateProvider are two. For the rules engine the YAML reader, the
-- JSON schemas, the hash, the commit and the rule files are parameters; an evaluator is any function.
-- The ids of purchases, loans and rule applications are by the number of applications stored, and a
-- bulk purchase takes any sequence of random draws.
--
-- Bounds. Loops are structural recursion: over the events, the entries, the months of a term, or the
-- installments up to the bound that the source gives. strconv.FormatInt has as many digits as an
-- int64 can have, 20.
--
-- Not modelled. The in-memory store returns no error but a conflict or a missing row, so failures of a
-- store, and of encoding as JSON, do not occur. A float64 field stands for a whole number, as in the
-- rule files, so that fractional values of a rule are not modelled; the ratio of debt to income is
-- rounded as float64 arithmetic rounds it, in Base/Float. An error's text is kept as far as
-- another part reads it. big.Rat.SetString is modelled on decimals, without fractions, exponents and
-- other bases. AddDate is in UTC. A rate of -240000 basis points, where the payment divides by zero, is
-- left out of the theorems on schedules. Locks are not modelled: calls run one after another, apart
-- from Ledger/Races. The loan forecast, the dashboard, the simulation and demo runners,
-- the Postgres store, the HTTP handlers and the start-up code are not modelled.
pub mod Base
pub mod Store
pub mod Rules
pub mod Ledger
pub mod Loan
pub mod Value
pub mod Bank
pub mod Account
pub mod Simclock
