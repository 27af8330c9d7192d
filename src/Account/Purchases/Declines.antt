-- ===== src/Account/Purchases/Declines.antt =====
-- Declined purchases of internal/account/service.go, and the ledger.
use stable_bank.Base.{◌≡◌, refl, String, Bool, true, false, not, List, [], ◌∷◌, str_eq}
use stable_bank.Base.Int.{ℤ}
use stable_bank.Base.Stateful.{fail_when, ◌>>◌}
use stable_bank.Value.{Value, mapping, Values, none_left, item, get}
use stable_bank.Ledger.Types.{Amount}
use stable_bank.Rules.Documents.{str_of, items_of}
use stable_bank.Store.Events.{Time}
use stable_bank.Rules.Engine.{Engine}
use stable_bank.Bank.{Bank, BankEnv, time_now}
use stable_bank.Bank.Requests.{BankCall, new_bank, serve_bank_all}
use stable_bank.Bank.Books.{serve_bank_all-InSync}
use stable_bank.Account.Service.{Receipt, purchase_declined, Call}
use stable_bank.Account.Purchases.Silence.{
  Untouched, Silent, Certain, Spares, Spares-Certain, Spares-bind, Certain-bind, Certain-pure,
  Certain-gets, Silent-gets, Silent-pure, Silent-bind, certain_rules, silent_rules,
}
use stable_bank.Account.Purchases.{
  Order, PurchaseRequest, receipt_of, declined_receipt, post_leg, post_usdc_leg, fund, fund_leg,
  fund_legs, fund_approved, carry_out, decide_purchase, purchase,
}

module _ (env : BankEnv) where
  Certain-post_leg :
      (o : Order) (currency : String) (amt : Amount) (cents pct : ℤ)
      → Certain (post_leg env o currency amt cents pct)
  unfolding post_leg
  Certain-post_leg o currency amt cents pct = search certain_rules depth 14

  Certain-post_usdc_leg : (o : Order) (cents pct : ℤ) → Certain (post_usdc_leg env o cents pct)
  unfolding post_usdc_leg
  Certain-post_usdc_leg o cents pct = search (certain_rules, Certain-post_leg) depth 14

  Certain-fund : (o : Order) (c : String) (cents pct : ℤ) → Certain (fund env o c cents pct)
  unfolding fund
  Certain-fund o c cents pct =
      search (certain_rules, Certain-post_leg, Certain-post_usdc_leg) depth 14

  Certain-fund_leg : (o : Order) (v : Value) → Certain (fund_leg env o v)
  unfolding fund_leg
  Certain-fund_leg o (mapping fs) = search (certain_rules, Certain-fund) depth 14
  Certain-fund_leg o _ = record { at = λ b. tt }

  Certain-fund_legs : (o : Order) (vs : Values) → Certain (fund_legs env o vs)
  unfolding fund_legs
  Certain-fund_legs o none_left = Certain-pure []
  Certain-fund_legs o (item v vs) =
      Certain-bind (Certain-fund_leg o v)
        λ first. Certain-bind (Certain-fund_legs o vs) λ rest. Certain-pure (first ∷ rest)

  Certain-fund_approved :
      (o : Order) (r : Receipt) (legs : Values) → Certain (fund_approved env o r legs)
  unfolding fund_approved
  Certain-fund_approved o r legs = search (certain_rules, Certain-fund_legs) depth 14

  -- The test that declines, and what follows it.
  Spares-declining :
      {B : Type 0} (t : Bool) (r : Receipt) {k : Call B}
      → Spares k
      → r.funded_by ≡ []
      → r.ledger_transaction_ids ≡ []
      → Spares (fail_when t (purchase_declined (declined_receipt r)) >> k)
  Spares-declining true r s f ids = record { at = λ b h. (refl, refl, f, ids) }
  Spares-declining false r s f ids = record { at = λ b h. s.at b h }

  Spares-carry_out : (o : Order) → Spares (carry_out env o)
  unfolding carry_out
  Spares-carry_out o =
      let clock : Bank → Time = λ b. time_now env b.world in
      Spares-bind (Silent-gets clock) (Certain-gets clock) λ now.
        Spares-declining (not (str_eq (str_of (get "decision" o.decision.output)) "approved"))
          (receipt_of o now)
          (Spares-Certain (
            Certain-fund_approved o (receipt_of o now)
              (items_of (get "funding" o.decision.output))))
          refl refl

  Certain-decide_purchase :
      (req : PurchaseRequest) (usd usdc : ℤ) → Certain (decide_purchase env req usd usdc)
  unfolding decide_purchase
  Certain-decide_purchase req usd usdc = search certain_rules depth 14

  Silent-decide_purchase :
      (req : PurchaseRequest) (usd usdc : ℤ) → Silent (decide_purchase env req usd usdc)
  unfolding decide_purchase
  Silent-decide_purchase req usd usdc = search (silent_rules, Silent-bind, Silent-pure) depth 14

  Spares-purchase : (req : PurchaseRequest) → Spares (purchase env req)
  unfolding purchase
  Spares-purchase req =
      search
        (
          Spares-bind, Spares-carry_out, certain_rules, silent_rules, Certain-decide_purchase,
          Silent-decide_purchase,
        )
        depth 24

-- A purchase that is declined, after any calls of the bank's services, leaves the ledger as it was:
-- its log and its projection are unchanged, and the receipt names no funding and no transaction.
pub purchase-Untouched :
    (env : BankEnv) (e : Engine) (cs : List BankCall) (req : PurchaseRequest)
    → let b = serve_bank_all env cs (new_bank e) in Untouched b.world (purchase env req b)
purchase-Untouched env e cs req =
    let b = serve_bank_all env cs (new_bank e) in
    (Spares-purchase env req).at b (serve_bank_all-InSync env e cs)
