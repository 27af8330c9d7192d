-- ===== src/Bank/Books.antt =====
-- The books of the bank (internal/ledger) after calls of all its services.
use stable_bank.Base.{
  ◌≡◌, refl, List, [], ◌∷◌, ◌++◌, Option, some, Result, ok, err, keep, Option-cases, inl, inr,
}
use stable_bank.Ledger.Projection.{new_projection, apply_all}
use stable_bank.Ledger.Projection.Replay.{is_ledger}
use stable_bank.Ledger.Sync.{InSync, InSync-new_world}
use stable_bank.Ledger.Steps.{Steps, here, Steps-trans}
use stable_bank.Ledger.Steps.Sync.{Steps-InSync}
use stable_bank.Ledger.Totals.{total64}
use stable_bank.Ledger.Requests.Replay.{serve-Steps}
use stable_bank.Ledger.Requests.Balance.{Steps-IsBalanced}
use stable_bank.Rules.Engine.{Engine}
use stable_bank.Account.Service.{Receipt, AccountError, purchase_declined}
use stable_bank.Account.Purchases.{purchase}
use stable_bank.Account.Bulk.{
  BulkRequest, Draw, random_request, bulk_loop, bulk_problem, bulk_random_purchases,
}
use stable_bank.Account.Calls.{
  Follows-get_view, Follows-list_views, Follows-list_purchases, Follows-deposit,
  Follows-seed_account, Follows-purchase,
}
use stable_bank.Loan.Calls.{
  Follows-add_applicant, Follows-underwrite, Follows-originate, Follows-get_loan,
  Follows-list_loans, Follows-repay, Follows-miss_payment, Follows-default_loan,
}
use stable_bank.Loan.Tick.Calls.{Follows-tick, Follows-seed_loans}
use stable_bank.Bank.{Bank, BankEnv}
use stable_bank.Bank.Requests.{
  BankCall, on_books, on_engine, viewing, listing_views, listing_purchases, depositing,
  seeding_account, purchasing, purchasing_many, registering_applicant, underwriting, originating,
  reading_loan, listing_loans, repaying, missing, defaulting, ticking, seeding_loans, new_bank,
  serve_bank, serve_bank_all,
}

module _ (env : BankEnv) where
  abbrev Goes : Bank → Bank → Type 0
  Goes b c = Steps env.ledger b.world c.world

  bulk_loop-Steps :
      (req : BulkRequest) (ds : List Draw) (rs : List Receipt) (b : Bank)
      → InSync b.world
      → Goes b (bulk_loop env req ds rs b).1
  unfolding bulk_loop
  bulk_loop-Steps req [] rs b h = here
  bulk_loop-Steps req (d ∷ ds) rs b h =
      let out = purchase env (random_request req d) b in
      let first : Goes b out.1 = (Follows-purchase env (random_request req d)).at b h in
      let next : InSync out.1.world = Steps-InSync first h in
      Steps-trans first (by_result out.0 out.1 next (λ rs' c k. bulk_loop-Steps req ds rs' c k))
    where
      by_result :
          (r : Result AccountError Receipt) (c : Bank)
          → InSync c.world
          → ((rs' : List Receipt) (c : Bank)
              → InSync c.world
              → Goes c (bulk_loop env req ds rs' c).1)
          → Goes c
              (elim r as (λ _. (List Receipt × Option AccountError) × Bank) [
                | ok receipt ↦ bulk_loop env req ds (rs ++ receipt ∷ []) c
                | err (purchase_declined receipt) ↦ bulk_loop env req ds (rs ++ receipt ∷ []) c
                | err e ↦ ((rs, some e), c)
              ]).1
      by_result (ok receipt) c k ih = ih (rs ++ receipt ∷ []) c k
      by_result (err (purchase_declined receipt)) c k ih = ih (rs ++ receipt ∷ []) c k
      by_result (err e) c k ih = here

  bulk-Steps :
      (draws : _) (req : BulkRequest) (b : Bank)
      → InSync b.world
      → Goes b (bulk_random_purchases env draws req b).1
  unfolding bulk_random_purchases
  bulk-Steps draws req b h = elim (Option-cases (bulk_problem req)) [
    | inl fine ↦ rw (bulk_random_purchases, fine) (bulk_loop-Steps req _ [] b h)
    | inr (why, bad) ↦ rw (bulk_random_purchases, bad) here
  ]

  serve_bank-Steps : (c : BankCall) (b : Bank) → InSync b.world → Goes b (serve_bank env c b)
  unfolding serve_bank
  serve_bank-Steps (on_books c) b h = serve-Steps env.ledger c b.world h
  serve_bank-Steps (on_engine c) b h = here
  serve_bank-Steps (viewing id) b h = (Follows-get_view env id).at b h
  serve_bank-Steps listing_views b h = (Follows-list_views env).at b h
  serve_bank-Steps (listing_purchases id) b h = (Follows-list_purchases env id).at b h
  serve_bank-Steps (depositing id amt) b h = (Follows-deposit env id amt).at b h
  serve_bank-Steps seeding_account b h = (Follows-seed_account env).at b h
  serve_bank-Steps (purchasing req) b h = (Follows-purchase env req).at b h
  serve_bank-Steps (purchasing_many draws req) b h = bulk-Steps draws req b h
  serve_bank-Steps (registering_applicant a) b h = (Follows-add_applicant env a).at b h
  serve_bank-Steps (underwriting req) b h = (Follows-underwrite env req).at b h
  serve_bank-Steps (originating req) b h = (Follows-originate env req).at b h
  serve_bank-Steps (reading_loan id) b h = (Follows-get_loan env id).at b h
  serve_bank-Steps listing_loans b h = (Follows-list_loans env).at b h
  serve_bank-Steps (repaying id amount) b h = (Follows-repay env id amount).at b h
  serve_bank-Steps (missing id) b h = (Follows-miss_payment env id).at b h
  serve_bank-Steps (defaulting id reason) b h = (Follows-default_loan env id reason).at b h
  serve_bank-Steps ticking b h = (Follows-tick env).at b h
  serve_bank-Steps seeding_loans b h = (Follows-seed_loans env).at b h

  pub serve_bank_all-Steps :
      (cs : List BankCall) (b : Bank) → InSync b.world → Goes b (serve_bank_all env cs b)
  unfolding serve_bank_all
  serve_bank_all-Steps [] b h = here
  serve_bank_all-Steps (c ∷ cs) b h =
      let one = serve_bank-Steps c b h in
      Steps-trans one (serve_bank_all-Steps cs (serve_bank env c b) (Steps-InSync one h))

pub serve_bank_all-InSync :
    (env : BankEnv) (e : Engine) (cs : List BankCall)
    → InSync (serve_bank_all env cs (new_bank e)).world
serve_bank_all-InSync env e cs =
    Steps-InSync (serve_bank_all-Steps env cs (new_bank e) InSync-new_world) InSync-new_world

-- After any calls of the ledger, the rules engine, the account service and the loan service on an
-- empty event store, failed ones included: replaying the ledger's events of the whole log gives the
-- projection that the ledger holds, and in it the lifetime debits of all accounts and their
-- lifetime credits have the same sum in int64.
pub bank_books :
    (env : BankEnv) (e : Engine) (cs : List BankCall)
    → let w = (serve_bank_all env cs (new_bank e)).world in
      (apply_all (keep is_ledger w.log.events) new_projection ≡ (ok tt, w.proj))
      × (total64 w.proj.debits ≡ total64 w.proj.credits)
bank_books env e cs = (
  (serve_bank_all-InSync env e cs).replayed,
  Steps-IsBalanced (serve_bank_all-Steps env cs (new_bank e) InSync-new_world) refl,
)
