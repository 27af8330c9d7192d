-- ===== src/Account/Purchases/Payments.antt =====
-- How an approved purchase of internal/account/service.go comes to its receipt.
use stable_bank.Base.{
  ◌≡◌, refl, subst, String, Option, some, OnOk, Result, ok, err, if◌then◌else◌, str_eq,
  Result-cases, inl, inr,
}
use stable_bank.Base.Int.{ℤ, pos, leb_ℤ}
use stable_bank.Base.Dict.{lookup}
use stable_bank.Base.Stateful.{gets, lift, ◌>>=◌, wrap_error}
use stable_bank.Value.{Fields, get}
use stable_bank.Ledger.Types.{Amount}
use stable_bank.Ledger.Balances.{balance}
use stable_bank.Ledger.Fx.{FxQuote, RateProvider, quote}
use stable_bank.Rules.Documents.{Rule, RuleError, Library, str_of}
use stable_bank.Rules.Engine.{Engine, Decision, Moment, get_rule, recorded, evaluate}
use stable_bank.Bank.{Bank, BankEnv, rates_of, moment_of, applications, on_ledger, on_rules}
use stable_bank.Account.Waterfall.{Outcome, evaluate_waterfall}
use stable_bank.Account.Service.{
  Receipt, invalid_request, ledger_failed, rules_failed, Call, ledger_account_id,
}
use stable_bank.Account.Purchases.Results.{
  OnGiven, From-pure, From-weaken, From, From-check, From-ledger, From-gets, From-lift, From-then,
}
use stable_bank.Account.Purchases.Legs.{Pays, From-carry_out}
use stable_bank.Account.Purchases.{
  outcome_fields, waterfall_evaluator, Order, PurchaseRequest, purchase_input, carry_out,
  decide_purchase, purchase,
}

-- How a purchase from the bank `b` came to its receipt and to the bank `c`: the balances, the quote,
-- the outcome, and the postings.
pub record Paid (env : BankEnv) (rule : Rule) (req : PurchaseRequest) (b : Bank) (r : Receipt)
    (c : Bank) : Type 0 where
  pub usd : Amount
  pub usdc : Amount
  pub quoted : FxQuote
  pub outcome : Outcome
  pub usd_read : (balance (ledger_account_id req.account_id "USD") b.world).0 ≡ ok usd
  pub usdc_read :
      (balance
        (ledger_account_id req.account_id "USDC")
        (balance (ledger_account_id req.account_id "USD") b.world).1).0
      ≡ ok usdc
  pub quote_read :
      quote
        (rates_of env (record b {
          world =
              (balance
                (ledger_account_id req.account_id "USDC")
                (balance (ledger_account_id req.account_id "USD") b.world).1).1;
        }))
        "USDC"
        "USD"
        usdc.minor
      ≡ ok quoted
  pub decided :
      evaluate_waterfall rule.content (purchase_input req.amount_cents usd.minor quoted.to.minor)
      ≡ ok outcome
  pub approved : outcome.decision ≡ "approved"
  pub pays :
      Pays env req.account_id outcome.funding
        (balance
          (ledger_account_id req.account_id "USDC")
          (balance (ledger_account_id req.account_id "USD") b.world).1).1
        r
        c.world

-- The rule that is live for purchases, and its evaluator.
abbrev pub IsServed : Rule → Engine → Type 0
IsServed rule e =
    (lookup "spend_waterfall" e.cache ≡ some rule)
    × (lookup rule.rule_type e.evaluators ≡ some waterfall_evaluator)

-- A decision by a map of an outcome of the waterfall.
abbrev DecidedBy : Rule → Fields → Decision → Type 0
DecidedBy rule input d =
    (out : Outcome) × (evaluate_waterfall rule.content input ≡ ok out)
    × (d.output ≡ outcome_fields out)

evaluate-served :
    (lib : Library) (m : Moment) (rule : Rule) (kind entity : String) (input : Fields) (e : Engine)
    → IsServed rule e
    → OnOk (DecidedBy rule input) (evaluate lib m "spend_waterfall" kind entity input e).0
unfolding evaluate get_rule recorded waterfall_evaluator
evaluate-served lib m rule kind entity input e (live, served) =
    elim (Result-cases (evaluate_waterfall rule.content input)) [
      | inl (out, h) ↦ rw (evaluate, get_rule, live, served, waterfall_evaluator, h) (out, h, refl)
      | inr (x, h) ↦ rw (evaluate, get_rule, live, served, waterfall_evaluator, h) tt
    ]

module _ (env : BankEnv) (rule : Rule) (req : PurchaseRequest) where
  From-on_rules :
      (kind entity : String) (input : Fields) (b : Bank)
      → IsServed rule b.engine
      → From b
          (λ d c. DecidedBy rule input d × (c.world ≡ b.world))
          (on_rules rules_failed env "spend_waterfall" kind entity input)
  From-on_rules kind entity input b served = record {
    at = by_result _ _ refl (
        evaluate-served env.library (moment_of env b.world b.engine) rule kind entity input b.engine
          served);
  }
    where
      by_result :
          (r : Result RuleError Decision) (c : Bank)
          → c.world ≡ b.world
          → OnOk (DecidedBy rule input) r
          → OnGiven
              (λ d c. DecidedBy rule input d × (c.world ≡ b.world))
              (wrap_error rules_failed r)
              c
      by_result (ok d) c same h = (h, same)
      by_result (err e) c same h = tt

  abbrev input_of : ℤ → ℤ → Fields
  input_of usd usdc = purchase_input req.amount_cents usd usdc

  abbrev order_of : String → Decision → Order
  order_of id d = record {
    purchase_id = id;
    account_id = req.account_id;
    amount_cents = req.amount_cents;
    merchant = if str_eq req.merchant "" then "General Store" else req.merchant;
    matched_rule = str_of (get "matched_rule" d.output);
    decision = d;
  }

  -- What an order was made from, in a bank whose ledger is as it was.
  abbrev Ordered : ℤ → ℤ → Bank → Order → Bank → Type 0
  Ordered usd usdc b o c =
      DecidedBy rule (input_of usd usdc) o.decision
      × (o.account_id ≡ req.account_id)
      × (c.world ≡ b.world)

  From-decide_purchase :
      (usd usdc : ℤ) (b : Bank)
      → IsServed rule b.engine
      → From b (Ordered usd usdc b) (decide_purchase env req usd usdc)
  unfolding decide_purchase
  From-decide_purchase usd usdc b served =
      let id : String = env.purchase_id (applications b.engine) in
      record {
        at =
            (From-then {Holds = Ordered usd usdc b} b
              (From-on_rules "purchase" id (input_of usd usdc) b served)
              (λ d c (decided, same). From-pure c (order_of id d) (decided, refl, same))).at;
      }

  -- `purchase` from where it has both balances, and from where it has the first.
  abbrev priced : Amount → Amount → Option RateProvider → Call Receipt
  priced usd usdc rates = do
    quoted ← lift (wrap_error ledger_failed (quote rates "USDC" "USD" usdc.minor))
    order ← decide_purchase env req usd.minor quoted.to.minor
    carry_out env order

  abbrev coins_priced : Amount → Call Receipt
  coins_priced usd = do
    usdc ← on_ledger ledger_failed (balance (ledger_account_id req.account_id "USDC"))
    rates ← gets (rates_of env)
    priced usd usdc rates

  From-purchase :
      (b : Bank) → IsServed rule b.engine → From b (Paid env rule req b) (purchase env req)
  unfolding purchase
  From-purchase b served =
      From-check b (str_eq req.account_id "") (invalid_request "account_id is required") λ _.
        From-check b (leb_ℤ req.amount_cents (pos 0))
          (invalid_request "amount_cents must be positive")
          λ _.
            From-ledger b (balance (ledger_account_id req.account_id "USD")) {f = coins_priced}
              λ usd usd_read.
                From-ledger _ (balance (ledger_account_id req.account_id "USDC"))
                  {f = λ usdc. gets (rates_of env) >>= priced usd usdc}
                  λ usdc usdc_read. From-gets _ (rates_of env) (priced usd usdc) (
                    From-lift _ (quote _ "USDC" "USD" usdc.minor) λ quoted quote_read.
                      From-then _ (From-decide_purchase usd.minor quoted.to.minor _ served)
                        λ o c ((out, decided, output), account, world).
                          From-weaken c (From-carry_out env o out c output) λ r d (approved, pays).
                            record {
                              usd = usd;
                              usdc = usdc;
                              quoted = quoted;
                              outcome = out;
                              usd_read = usd_read;
                              usdc_read = usdc_read;
                              quote_read = quote_read;
                              decided = decided;
                              approved = approved;
                              pays =
                                  subst (λ w. Pays env req.account_id out.funding w r d.world) world
                                    (subst (λ a. Pays env a out.funding c.world r d.world) account
                                      pays);
                            })

-- A purchase that succeeds pays, leg by leg and with a transaction for each, what the live rule's
-- evaluation decides on the amount, the dollar balance and the quoted coin balance, and that is an
-- approval; where the rule for purchases is served by the waterfall's evaluator.
pub purchase-Paid :
    (env : BankEnv) (rule : Rule) (req : PurchaseRequest) (b : Bank) (r : Receipt)
    → IsServed rule b.engine
    → (purchase env req b).0 ≡ ok r
    → Paid env rule req b r (purchase env req b).1
purchase-Paid env rule req b r served given =
    subst (λ x. OnGiven (Paid env rule req b) x (purchase env req b).1) given
      (From-purchase env rule req b served).at
