-- ===== src/Ledger/Fx/Tests.antt =====
-- Tests of conversions (internal/ledger/fx.go) and of the FX policy (internal/ledger/policy.go), and
-- their theorems at concrete inputs.
use stable_bank.Base.{◌+◌, ◌*◌, ◌≤◌, ◌⊎◌, ◌≡◌, refl, some, ok, err}
use stable_bank.Base.Int.{ℤ, pos, negsuc, ◌+ℤ◌, ◌-ℤ◌, ◌*ℤ◌, nat_abs}
use stable_bank.Base.Int64.{wrap64, sub64, half_mod}
use stable_bank.Base.Round.{half_up}
use stable_bank.Value.{
  text, sequence, mapping, none_left, item, Fields, no_fields, field, get, has_key,
}
use stable_bank.Ledger.Types.{amount_overflow, currency_of}
use stable_bank.Ledger.Amount.{
  is_digits, all_digits, split_point, value_from, trim_left, trim_space, format_minor, format_int,
  digits, pad_left, text_of,
}
use stable_bank.Ledger.Fx.{convert_minor, round_rat, invert_scaled, quote, is_negative}
use stable_bank.Ledger.Fx.Rounding.{
  IsNearest, IsCut, exact, unit, convert_minor-half_up, convert_minor-down,
}
use stable_bank.Ledger.Fx.Policy.{
  string_field, rat_of_string, decimal_string_to_scaled, try_pair, pair_loop, find_fx_pair,
  effective, rounding_mode_from_content, rule_provider, evaluate_pair, evaluate_fx,
}
use stable_bank.Ledger.Fx.Policy.Agreement.{quoted, decided, quote-evaluate_fx}

-- All that a conversion computes with.
runs : Unit {0}
unfolding ◌+ℤ◌ ◌-ℤ◌ ◌*ℤ◌ wrap64 sub64 half_up get has_key currency_of is_digits all_digits
    split_point value_from trim_left trim_space format_minor format_int digits pad_left text_of
    convert_minor round_rat invert_scaled quote string_field rat_of_string decimal_string_to_scaled
    try_pair pair_loop find_fx_pair effective rounding_mode_from_content rule_provider evaluate_pair
    evaluate_fx
runs = tt

-- 12.345 USDC (six decimals) at 0.9996 dollars each: 12.34 dollars.
rate_test : convert_minor (pos 12345000) 6 2 (pos 99960000) "half_up" ≡ ok (pos 1234)
unfolding runs
rate_test = refl

-- The least int64 at the rate one, which is refused.
least_test :
    convert_minor (negsuc 9223372036854775807) 2 2 (pos 100000000) "half_up" ≡ err amount_overflow
unfolding runs
least_test = refl

convert_minor-half_up_example :
    let x = exact (pos 12345000) 2 (pos 99960000) in
    let r = convert_minor (pos 12345000) 6 2 (pos 99960000) "half_up" in
    ((v : ℤ) × (r ≡ ok v) × IsNearest (is_negative x) (nat_abs x) (unit 6) v)
    ⊎ ((r ≡ err amount_overflow) × (half_mod * unit 6 * 2 ≤ nat_abs x * 2 + unit 6))
convert_minor-half_up_example = convert_minor-half_up (pos 12345000) 6 2 (pos 99960000)

convert_minor-down_example :
    let x = exact (negsuc 4) 6 (pos 100040016) in
    let r = convert_minor (negsuc 4) 2 6 (pos 100040016) "down" in
    ((v : ℤ) × (r ≡ ok v) × IsCut (is_negative x) (nat_abs x) (unit 2) v)
    ⊎ ((r ≡ err amount_overflow) × (half_mod * unit 2 ≤ nat_abs x))
convert_minor-down_example = convert_minor-down (negsuc 4) 2 6 (pos 100040016)

-- As in the examples of rules/ledger/fx_policy.yaml.
abbrev policy : Fields
policy =
    field "pairs"
      (sequence (
        item
          (mapping (
            field "base" (text "USDC") (
              field "quote" (text "USD")
                (field "mock_rate" (text "0.99850000") (field "source" (text "mock") no_fields)))))
          none_left))
      (field "rounding" (text "half_up") no_fields)

policy_test :
    evaluate_fx policy "USD" "USDC" (pos 10000)
    ≡ ok (record {
      to_amount_minor = pos 100150225;
      rate_scaled = pos 99850000;
      rate_display = "0.99850000";
      source = "mock";
    })
unfolding runs
policy_test = refl

-- A million dollars. The rate of the inverse direction is rounded to eight places first, so the
-- amount is 3380 millionths below the quotient by the rule's own rate, rounded to the nearest.
inverse_test :
    (decided (evaluate_fx policy "USD" "USDC" (pos 100000000)) ≡ some (pos 1001502250000))
    × (half_up (100000000 * 10000 * 100000000) 99850000 ≡ 1001502253380)
unfolding runs
inverse_test = (refl, refl)

quote-evaluate_fx_example :
    quoted (quote (some (rule_provider (ok policy) 5)) "USDC" "USD" (pos 7000000))
    ≡ decided (evaluate_fx policy "USDC" "USD" (pos 7000000))
quote-evaluate_fx_example = quote-evaluate_fx policy 5 "USDC" "USD" (pos 7000000)
