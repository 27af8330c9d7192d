-- ===== src/Account/Purchases/Legs.antt =====
-- The legs of a purchase of internal/account/service.go, as they are decided and as they are posted.
use stable_bank.Base.{
  ◌≡◌, refl, sym, ap, ◌∙◌, subst, String, Bool, true, false, not, List, [], ◌∷◌, if◌then◌else◌,
  str_eq, eq_iff, length, arith, inl, inr, ok, ◌⊎◌, Option, ℕ,
}
use stable_bank.Base.Int.{ℤ}
use stable_bank.Base.Stateful.{fail, lift, fail_when, ◌>>=◌, ◌>>◌, wrap_error}
use stable_bank.Value.{Values, get}
use stable_bank.Ledger.Types.{Amount, Transaction, debit, credit}
use stable_bank.Ledger.Action.{World}
use stable_bank.Ledger.Amount.{display}
use stable_bank.Ledger.Posting.{post_and_finalize}
use stable_bank.Ledger.Fx.{FxQuote, RateProvider, quote}
use stable_bank.Rules.Documents.{str_of, items_of}
use stable_bank.Bank.{Bank, BankEnv, time_now, rates_of}
use stable_bank.Account.Waterfall.{Leg, Outcome, num_field}
use stable_bank.Account.Service.{
  Funding, Receipt, Call, unknown_funding_currency, no_funding_legs, purchase_declined,
  ledger_failed, ledger_account_id,
}
use stable_bank.Account.Purchases.Results.{
  From, From-pure, From-fail, From-check, From-ledger, From-gets, From-lift, From-then, From-weaken,
}
use stable_bank.Account.Purchases.{
  leg_value, leg_values, outcome_fields, Order, no_legs, settlement_of, leg_transaction, post_leg,
  post_usdc_leg, fund, fund_leg, fund_legs, ids_of, fundings_of, approved_receipt, declined_receipt,
  receipt_of, fund_approved, carry_out,
}

abbrev leg_of : Funding → Leg
leg_of f = record {
  currency = f.currency;
  usd_equivalent_cents = f.usd_equivalent_cents;
  share_pct = f.share_pct;
}

abbrev pub legs_of : List Funding → List Leg
legs_of [] = []
legs_of (f ∷ fs) = leg_of f ∷ legs_of fs

-- What a leg comes to in its currency, and the merchant's account for it: the dollars themselves, or
-- the coins that the ledger quotes for them.
abbrev pub IsPriced : BankEnv → World → Leg → Amount → String → Type 0
IsPriced env w l amount merchant =
    ((l.currency ≡ "USD")
      × (merchant ≡ "merchant-settlement-usd")
      × (amount ≡ record { currency = "USD"; minor = l.usd_equivalent_cents }))
    ⊎ ((l.currency ≡ "USDC")
        × (merchant ≡ "merchant-settlement-usdc")
        × ((c : Bank) × (q : FxQuote) × (c.world ≡ w)
            × (quote (rates_of env c) "USD" "USDC" l.usd_equivalent_cents ≡ ok q)
            × (amount ≡ q.to)))

-- A leg of the account, as the ledger has posted and finalized it: from the customer to the merchant.
pub record IsPosted (env : BankEnv) (account : String) (l : Leg) (before : World) (id : String)
    (f : Funding) (after : World) : Type 0 where
  pub amount : Amount
  pub merchant : String
  pub request : Transaction
  pub posted : Transaction
  pub priced : IsPriced env before l amount merchant
  pub of_leg : leg_of f ≡ l
  pub is_minor : f.amount_minor ≡ amount.minor
  pub entries :
      request.entries
      ≡ record {
        account_id = ledger_account_id account l.currency;
        direction = debit;
        amount = amount;
      }
        ∷ record { account_id = merchant; direction = credit; amount = amount }
        ∷ []
  pub given : (post_and_finalize env.ledger request before).0 ≡ ok posted
  pub left : after ≡ (post_and_finalize env.ledger request before).1
  pub named : posted.id ≡ id

-- The legs one after the other, with their ids and what the receipt says of them.
abbrev pub Postings :
    BankEnv → String → List Leg → World → List String → List Funding → World → Type 0
Postings env account [] w [] [] u = u ≡ w
Postings env account (l ∷ ls) w (id ∷ ids) (f ∷ fs) u =
    (v : World) × IsPosted env account l w id f v × Postings env account ls v ids fs u
Postings env account _ w _ _ u = ⊥

-- The posted legs are those of a list.
abbrev Posted : BankEnv → String → List Leg → World → List (String × Funding) → World → Type 0
Posted env account ls w fs u =
    (legs_of (fundings_of fs) ≡ ls)
    × (length (ids_of fs) ≡ length ls)
    × Postings env account ls w (ids_of fs) (fundings_of fs) u

abbrev leg_in : String → ℤ → ℤ → Leg
leg_in currency cents pct = record {
  currency = currency;
  usd_equivalent_cents = cents;
  share_pct = pct;
}

-- A receipt of an approved purchase, whose funding is a list of legs with a transaction for each.
abbrev pub Pays : BankEnv → String → List Leg → World → Receipt → World → Type 0
Pays env account ls w r u =
    (r.status ≡ "approved")
    × (legs_of r.funded_by ≡ ls)
    × (length r.ledger_transaction_ids ≡ length ls)
    × Postings env account ls w r.ledger_transaction_ids r.funded_by u

module _ (env : BankEnv) (o : Order) where
  abbrev OneLeg : Leg → World → String × Funding → World → Type 0
  OneLeg l w f u = IsPosted env o.account_id l w f.0 f.1 u

  From-post_leg :
      (currency : String) (amt : Amount) (cents pct : ℤ) (b : Bank)
      → IsPriced env b.world (leg_in currency cents pct) amt (settlement_of currency)
      → From b
          (λ f c. OneLeg (leg_in currency cents pct) b.world f c.world)
          (post_leg env o currency amt cents pct)
  unfolding post_leg leg_transaction
  From-post_leg currency amt cents pct b priced =
      From-ledger b (post_and_finalize env.ledger (leg_transaction o currency amt cents pct))
        λ tx given.
          From-pure _
            (
              tx.id,
              record {
                currency = currency;
                amount_minor = amt.minor;
                amount_display = display amt;
                usd_equivalent_cents = cents;
                share_pct = pct;
              },
            )
            (record {
              amount = amt;
              merchant = settlement_of currency;
              request = leg_transaction o currency amt cents pct;
              posted = tx;
              priced = priced;
              of_leg = refl;
              is_minor = refl;
              entries = refl;
              given = given;
              left = refl;
              named = refl;
            })

  -- `post_usdc_leg` from where it has the rates.
  abbrev coin_leg : ℤ → ℤ → Option RateProvider → Call (String × Funding)
  coin_leg cents pct rates = do
    quoted ← lift (wrap_error ledger_failed (quote rates "USD" "USDC" cents))
    post_leg env o "USDC" quoted.to cents pct

  From-post_usdc_leg :
      (cents pct : ℤ) (b : Bank)
      → From b
          (λ f c. OneLeg (leg_in "USDC" cents pct) b.world f c.world)
          (post_usdc_leg env o cents pct)
  unfolding post_usdc_leg
  From-post_usdc_leg cents pct b = From-gets b (rates_of env) (coin_leg cents pct) (
      From-lift b (quote (rates_of env b) "USD" "USDC" cents) λ quoted read.
        From-post_leg "USDC" quoted.to cents pct b
          (inr (refl, refl, (b, quoted, refl, read, refl))))

  From-fund :
      (currency : String) (cents pct : ℤ) (b : Bank)
      → From b
          (λ f c. OneLeg (leg_in currency cents pct) b.world f c.world)
          (fund env o currency cents pct)
  unfolding fund
  From-fund currency cents pct b =
      by_currency (str_eq currency "USD") (str_eq currency "USDC") ((eq_iff currency "USD").0)
        ((eq_iff currency "USDC").0)
    where
      by_currency :
          (dollars coins : Bool)
          → (dollars ≡ true → currency ≡ "USD")
          → (coins ≡ true → currency ≡ "USDC")
          → From b
              (λ f c. OneLeg (leg_in currency cents pct) b.world f c.world)
              (if dollars
                then post_leg env o "USD" (record { currency = "USD"; minor = cents }) cents pct
                else if coins
                then post_usdc_leg env o cents pct
                else fail (unknown_funding_currency currency))
      by_currency true coins h k = rw (h refl) (
          From-post_leg "USD" (record { currency = "USD"; minor = cents }) cents pct b
            (inl (refl, refl, refl)))
      by_currency false true h k = rw (k refl) (From-post_usdc_leg cents pct b)
      by_currency false false h k = From-fail b (unknown_funding_currency currency)

  From-fund_leg :
      (l : Leg) (b : Bank)
      → From b (λ f c. OneLeg l b.world f c.world) (fund_leg env o (leg_value l))
  unfolding fund_leg get num_field
  From-fund_leg l b = record { at = (From-fund l.currency l.usd_equivalent_cents l.share_pct b).at }

  From-fund_legs :
      (ls : List Leg) (b : Bank)
      → From b
          (λ fs c. Posted env o.account_id ls b.world fs c.world)
          (fund_legs env o (leg_values ls))
  unfolding fund_legs
  From-fund_legs [] b = From-pure b [] (refl, refl, refl)
  From-fund_legs (l ∷ ls) b = From-then b (From-fund_leg l b) λ first c posted.
      From-then c (From-fund_legs ls c) λ rest d (are_rest, as_many, postings).
        From-pure d (first ∷ rest)
          (rw (posted.of_leg, are_rest) refl, omega (arith, as_many), (c.world, posted, postings))

  -- A receipt that pays for an outcome, leg by leg.
  From-fund_approved :
      (r : Receipt) (ls : List Leg) (b : Bank)
      → From b
          (λ r c. Pays env o.account_id ls b.world r c.world)
          (fund_approved env o r (leg_values ls))
  unfolding fund_approved
  From-fund_approved r ls b = From-check b (no_legs (leg_values ls)) no_funding_legs λ _.
      From-then b (From-fund_legs ls b) λ fs c (legs, ids, postings).
        From-pure c (approved_receipt r fs) (refl, legs, ids, postings)

  approved_of : (d : String) → not (str_eq d "approved") ≡ false → d ≡ "approved"
  approved_of d h = (eq_iff d "approved").0 (ground arith)

  reads_outcome :
      (out : Outcome)
      → (str_of (get "decision" (outcome_fields out)) ≡ out.decision)
        × (items_of (get "funding" (outcome_fields out)) ≡ leg_values out.funding)
  unfolding get outcome_fields
  reads_outcome out = (refl, refl)

  -- `carry_out` from where it has the time, with its legs.
  abbrev after_now : Values → ℕ → Call Receipt
  after_now legs now = do
    fail_when (not (str_eq (str_of (get "decision" o.decision.output)) "approved"))
        (purchase_declined (declined_receipt (receipt_of o now)))
    fund_approved env o (receipt_of o now) legs

  -- An order that the waterfall decided with an outcome.
  pub From-carry_out :
      (out : Outcome) (b : Bank)
      → o.decision.output ≡ outcome_fields out
      → From b
          (λ r c. (out.decision ≡ "approved") × Pays env o.account_id out.funding b.world r c.world)
          (carry_out env o)
  unfolding carry_out
  From-carry_out out b h =
      let now = time_now env b.world in
      let d : String = str_of (get "decision" o.decision.output) in
      let reads : d ≡ out.decision =
        ap (λ fs. str_of (get "decision" fs)) h ∙ (reads_outcome out).0 in
      let legs : items_of (get "funding" o.decision.output) ≡ leg_values out.funding =
        ap (λ fs. items_of (get "funding" fs)) h ∙ (reads_outcome out).1 in
      From-gets b (λ a. time_now env a.world)
        (after_now (items_of (get "funding" o.decision.output)))
        (From-check b (not (str_eq d "approved"))
          (purchase_declined (declined_receipt (receipt_of o now)))
          λ t.
            subst
              (λ vs.
                From b
                  (λ r c.
                    (out.decision ≡ "approved")
                    × Pays env o.account_id out.funding b.world r c.world)
                  (fund_approved env o (receipt_of o now) vs))
              (sym legs)
              (From-weaken b (From-fund_approved (receipt_of o now) out.funding b)
                λ r c pays. (sym reads ∙ approved_of d t, pays)))
