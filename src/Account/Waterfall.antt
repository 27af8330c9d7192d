-- ===== src/Account/Waterfall.antt =====
-- `EvaluateWaterfall` of internal/account/waterfall.go: which balances fund a purchase.
pub mod Split
pub mod Funding
pub mod Decisions
use stable_bank.Base.{
  ℕ, zero, suc, ◌/◌, ◌==◌, String, Bool, true, false, ◌&&◌, ◌||◌, not, Option, none, some, List, [],
  ◌∷◌, ltb, leb, str_eq, Result, ok, err, ◌>>=◌, if◌then◌else◌,
}
use stable_bank.Base.Int.{ℤ, pos, negsuc, ◌*ℤ◌, ltb_ℤ, leb_ℤ}
use stable_bank.Base.Int64.{wrap64, add64, sub64, half_mod}
use stable_bank.Value.{
  Value, null, flag, number, float, text, sequence, mapping, Values, none_left, item, Fields, get,
}
use stable_bank.Ledger.Amount.{codes, parse_int64}

pub data WaterfallError : Type 0 where
  not_a_number : String → WaterfallError
  amount_not_positive : WaterfallError
  missing_conditions : WaterfallError
  malformed_condition : WaterfallError
  unknown_rule : String → WaterfallError
  exhausted : WaterfallError

-- One entry of `funding`, and the evaluator's output map.
pub record Leg : Type 0 where
  pub currency : String
  pub usd_equivalent_cents : ℤ
  pub share_pct : ℤ

pub record Outcome : Type 0 where
  pub decision : String
  pub matched_rule : String
  pub funding : List Leg

-- `numField` of the value under a key of the input.
unfoldable pub num_field : String → Value → Result WaterfallError ℤ
num_field key (number n) = ok n
num_field key (float n) = ok n
num_field key (text t) = elim (parse_int64 (codes t)) [
  | none ↦ err (not_a_number key)
  | some n ↦ ok n
]
num_field key _ = err (not_a_number key)

abbrev pub leg : String → ℤ → ℤ → Leg
leg currency cents pct = record {
  currency = currency;
  usd_equivalent_cents = cents;
  share_pct = pct;
}

abbrev pub approved : String → List Leg → Outcome
approved rule funding = record { decision = "approved"; matched_rule = rule; funding = funding }

unfoldable pub approved_single : String → String → ℤ → Outcome
approved_single rule currency amount = approved rule (leg currency amount (pos 100) ∷ [])

-- Go's int64 division, truncated, by a positive divisor.
abbrev pub quot64 : ℤ → ℕ → ℤ
quot64 (pos n) d = pos (n / d)
quot64 (negsuc n) d = sub64 (pos 0) (pos (suc n / d))

-- What the first balance pays of the amount.
abbrev pub first_portion : ℤ → ℕ → ℤ
first_portion first_bal amount =
    let capped = if ltb_ℤ (pos amount) first_bal then pos amount else first_bal in
    if ltb_ℤ capped (pos 0) then pos 0 else capped

-- `int(firstPortion * 100 / amount)`
abbrev pub first_pct : ℤ → ℕ → ℤ
first_pct portion amount = quot64 (wrap64 (portion *ℤ pos 100)) amount

-- The three cases of `approvedSplit`, by the portions.
abbrev pub split_legs : String → ℤ → ℤ → String → ℤ → List Leg
split_legs first_ccy first pct second_ccy second =
    if ltb_ℤ (pos 0) first && ltb_ℤ (pos 0) second
    then leg first_ccy first pct ∷ leg second_ccy second (sub64 (pos 100) pct) ∷ []
    else if ltb_ℤ (pos 0) first
    then leg first_ccy first (pos 100) ∷ []
    else leg second_ccy second (pos 100) ∷ []

-- The amount is positive, as its caller has checked.
unfoldable pub approved_split : String → String → ℤ → String → ℕ → Outcome
approved_split rule first_ccy first_bal second_ccy amount =
    let first = first_portion first_bal amount in
    approved rule
      (split_legs first_ccy first (first_pct first amount) second_ccy (sub64 (pos amount) first))

-- What the conditions are evaluated against.
pub record Purchase : Type 0 where
  pub amount : ℕ
  pub usd : ℤ
  pub usdc : ℤ
  pub allow_split : Bool

abbrev pub declined : Outcome
declined = record { decision = "declined"; matched_rule = "decline"; funding = [] }

-- One condition: an outcome, or the next condition.
unfoldable pub try_rule : Purchase → String → Result WaterfallError (Option Outcome)
try_rule p name =
    let covered = p.allow_split && leb_ℤ (pos p.amount) (add64 p.usd p.usdc) in
    if str_eq name "prefer_fiat_if_sufficient"
    then ok (
        if leb_ℤ (pos p.amount) p.usd
        then some (approved_single name "USD" (pos p.amount))
        else none)
    else if str_eq name "prefer_stablecoin_if_sufficient"
    then ok (
        if leb_ℤ (pos p.amount) p.usdc
        then some (approved_single name "USDC" (pos p.amount))
        else none)
    else if str_eq name "split_fiat_then_stablecoin"
    then ok (if covered then some (approved_split name "USD" p.usd "USDC" p.amount) else none)
    else if str_eq name "split_stablecoin_then_fiat"
    then ok (if covered then some (approved_split name "USDC" p.usdc "USD" p.amount) else none)
    else if str_eq name "decline"
    then ok (some declined)
    else err (unknown_rule name)

-- `name, _ := cm["rule"].(string)`
abbrev pub rule_name : Value → String
rule_name (text t) = t
rule_name _ = ""

abbrev pub decide :
    Result WaterfallError (Option Outcome)
    → Result WaterfallError Outcome
    → Result WaterfallError Outcome
decide (err e) rest = err e
decide (ok none) rest = rest
decide (ok (some o)) rest = ok o

unfoldable pub walk : Purchase → Values → Result WaterfallError Outcome
walk p none_left = err exhausted
walk p (item (mapping cm) cs) =
    let rest = walk p cs in decide (try_rule p (rule_name (get "rule" cm))) rest
walk p (item _ cs) = err malformed_condition

abbrev pub is_set : Value → Bool
is_set (flag b) = b
is_set _ = false

abbrev pub conditions : Value → Purchase → Result WaterfallError Outcome
conditions (sequence cs) p = walk p cs
conditions _ p = err missing_conditions

abbrev pub positive : ℤ → Result WaterfallError ℕ
positive (pos zero) = err amount_not_positive
positive (pos (suc n)) = ok (suc n)
positive (negsuc n) = err amount_not_positive

unfoldable pub evaluate_waterfall : Fields → Fields → Result WaterfallError Outcome
evaluate_waterfall content input = do
  n ← num_field "amount_cents" (get "amount_cents" input)
  amount ← positive n
  usd ← num_field "usd_balance_cents" (get "usd_balance_cents" input)
  usdc ←
      num_field "usdc_balance_usd_equivalent_cents" (get "usdc_balance_usd_equivalent_cents" input)
  conditions (get "conditions_evaluated_in_order" content) (record {
    amount = amount;
    usd = usd;
    usdc = usdc;
    allow_split = is_set (get "allow_split" content);
  })
