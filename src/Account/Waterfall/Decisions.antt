-- ===== src/Account/Waterfall/Decisions.antt =====
-- `EvaluateWaterfall` (internal/account/waterfall.go) comes to a decision.
use stable_bank.Base.{ℕ, ◌<◌, ◌≡◌, refl, ap, ◌∙◌, String, Option, none, some, Result, ok}
use stable_bank.Base.Int.{ℤ, pos}
use stable_bank.Value.{sequence, mapping, Values, item, Fields, get}
use stable_bank.Account.Waterfall.{
  Outcome, Purchase, WaterfallError, rule_name, try_rule, decide, walk, is_set, conditions,
  num_field, evaluate_waterfall, declined,
}
use stable_bank.Account.Waterfall.Funding.{evaluate-eq}

-- The four rules that may let the walk go on.
pub data IsFundingRule : String → Type 0 where
  fiat_first : IsFundingRule "prefer_fiat_if_sufficient"
  coin_first : IsFundingRule "prefer_stablecoin_if_sufficient"
  split_fiat : IsFundingRule "split_fiat_then_stablecoin"
  split_coin : IsFundingRule "split_stablecoin_then_fiat"

-- Funding rules, and then the rule that declines; what follows is never read.
pub data EndsInDecline : Values → Type 0 where
  declines :
      (m : Fields) (cs : Values)
      → rule_name (get "rule" m) ≡ "decline"
      → EndsInDecline (item (mapping m) cs)
  tries :
      (m : Fields) (cs : Values)
      → IsFundingRule (rule_name (get "rule" m))
      → EndsInDecline cs
      → EndsInDecline (item (mapping m) cs)

module _ (p : Purchase) where
  tried : (name : String) → IsFundingRule name → (r : Option Outcome) × (try_rule p name ≡ ok r)
  unfolding try_rule
  tried name fiat_first = (_, refl)
  tried name coin_first = (_, refl)
  tried name split_fiat = (_, refl)
  tried name split_coin = (_, refl)

  ends : (name : String) → name ≡ "decline" → try_rule p name ≡ ok (some declined)
  unfolding try_rule
  ends name h = ap (try_rule p) h

  decide-some :
      (r : Option Outcome) (rest : Result WaterfallError Outcome)
      → (o : Outcome) × (rest ≡ ok o)
      → (o : Outcome) × (decide (ok r) rest ≡ ok o)
  decide-some none rest found = found
  decide-some (some o) rest found = (o, refl)

  walk-decides : (cs : Values) → EndsInDecline cs → (o : Outcome) × (walk p cs ≡ ok o)
  unfolding walk
  walk-decides cs (declines m rest h) =
      (declined, ap (λ r. decide r (walk p rest)) (ends (rule_name (get "rule" m)) h))
  walk-decides cs (tries m rest funding later) =
      let (r, h) = tried (rule_name (get "rule" m)) funding in
      let (o, e) = decide-some r (walk p rest) (walk-decides rest later) in
      (o, ap (λ x. decide x (walk p rest)) h ∙ e)

-- Where the amount is read as a positive number and the balances as numbers, and the conditions are
-- funding rules followed by the rule that declines, the evaluation gives an outcome.
pub evaluate_waterfall-decides :
    (content input : Fields) (cs : Values) (amount : ℕ) (usd usdc : ℤ)
    → num_field "amount_cents" (get "amount_cents" input) ≡ ok (pos amount)
    → num_field "usd_balance_cents" (get "usd_balance_cents" input) ≡ ok usd
    → num_field "usdc_balance_usd_equivalent_cents" (get "usdc_balance_usd_equivalent_cents" input)
      ≡ ok usdc
    → get "conditions_evaluated_in_order" content ≡ sequence cs
    → 0 < amount
    → EndsInDecline cs
    → (o : Outcome) × (evaluate_waterfall content input ≡ ok o)
evaluate_waterfall-decides content input cs amount usd usdc h_amount h_usd h_usdc h_cs positive
      ends_well =
    let p : Purchase = record {
      amount = amount;
      usd = usd;
      usdc = usdc;
      allow_split = is_set (get "allow_split" content);
    } in
    let (o, e) = walk-decides p cs ends_well in
    (
      o,
      evaluate-eq content input amount usd usdc h_amount h_usd h_usdc positive
          ∙ ap (λ v. conditions v p) h_cs
          ∙ e,
    )
