-- ===== src/Account/Tests.antt =====
-- Tests of the spend waterfall (internal/account/waterfall.go), and its theorem at a concrete input.
use stable_bank.Base.{◌≡◌, refl, true, String, [], ◌∷◌, ok, arith}
use stable_bank.Base.Int.{ℤ, pos, ◌+ℤ◌, ◌*ℤ◌}
use stable_bank.Base.Int64.{wrap64, add64, sub64}
use stable_bank.Value.{
  flag, number, text, sequence, mapping, Values, none_left, item, Fields, no_fields, field, get,
}
use stable_bank.Ledger.Amount.{parse_int64, is_digits, all_digits, value_from}
use stable_bank.Account.Waterfall.{
  Outcome, leg, approved, num_field, approved_single, approved_split, try_rule, walk,
  evaluate_waterfall,
}
use stable_bank.Account.Waterfall.Decisions.{
  fiat_first, split_fiat, declines, tries, evaluate_waterfall-decides,
}
use stable_bank.Account.Waterfall.Funding.{Funded, evaluate_waterfall-Funded}

-- All that an evaluation computes with.
runs : Unit {0}
unfolding ◌+ℤ◌ ◌*ℤ◌ wrap64 add64 sub64 get is_digits all_digits value_from num_field parse_int64
    approved_single approved_split try_rule walk evaluate_waterfall
runs = tt

abbrev condition : String → Values → Values
condition name cs = item (mapping (field "rule" (text name) no_fields)) cs

abbrev content : Fields
content = field "allow_split" (flag true) (
    field "conditions_evaluated_in_order"
      (sequence (
        condition "prefer_fiat_if_sufficient"
          (condition "split_fiat_then_stablecoin" (condition "decline" none_left))))
      no_fields)

abbrev input : ℤ → Fields
input cents = field "amount_cents" (text "1500") (
    field "usd_balance_cents" (number cents)
      (field "usdc_balance_usd_equivalent_cents" (number (pos 1000)) no_fields))

abbrev split : Outcome
split =
    approved "split_fiat_then_stablecoin"
      (leg "USD" (pos 1000) (pos 66) ∷ leg "USDC" (pos 500) (pos 34) ∷ [])

split_test : evaluate_waterfall content (input (pos 1000)) ≡ ok split
unfolding runs
split_test = refl

declined_test :
    evaluate_waterfall content (input (pos 499))
    ≡ ok (record { decision = "declined"; matched_rule = "decline"; funding = [] })
unfolding runs
declined_test = refl

evaluate_waterfall-Funded_example :
    Funded (record { amount = 1500; usd = pos 1000; usdc = pos 1000; allow_split = true }) split
unfolding runs
evaluate_waterfall-Funded_example =
    evaluate_waterfall-Funded content (input (pos 1000)) 1500 (pos 1000) (pos 1000) split refl refl
      refl (omega arith, omega arith, (omega arith, omega arith)) refl

abbrev listed : Values
listed =
    condition "prefer_fiat_if_sufficient"
      (condition "split_fiat_then_stablecoin" (condition "decline" none_left))

evaluate_waterfall-decides_example :
    (o : Outcome) × (evaluate_waterfall content (input (pos 499)) ≡ ok o)
unfolding runs
evaluate_waterfall-decides_example =
    evaluate_waterfall-decides content (input (pos 499)) listed 1500 (pos 499) (pos 1000) refl refl
      refl refl (omega arith) (tries _ _ fiat_first (tries _ _ split_fiat (declines _ _ refl)))
