-- ===== src/Ledger/Fx/Policy.antt =====
-- The rule contents fx_policy and depeg_policy: the readers at the end of internal/ledger/fx.go with
-- RuleRateProvider, and the evaluators of internal/ledger/policy.go.
pub mod Agreement
use stable_bank.Base.{
  ℕ, ◌*◌, ◌^◌, ◌%◌, ◌/◌, ◌==◌, Bool, true, false, ◌&&◌, ◌||◌, not, Option, none, some, String, List,
  [], ◌∷◌, ◌++◌, length, str_eq, Result, ok, err, ◌>>=◌, if◌then◌else◌,
}
use stable_bank.Base.Int.{ℤ, pos, negsuc, ◌*ℤ◌, ltb_ℤ, nat_abs}
use stable_bank.Base.Int64.{wrap64, half_mod}
use stable_bank.Base.Rat.{Rat, rat_of, rat_mul}
use stable_bank.Value.{
  Value, null, flag, number, float, text, sequence, mapping, Values, none_left, item, Fields, get,
  has_key,
}
use stable_bank.Store.Events.{Time}
use stable_bank.Ledger.Types.{
  Currency, currency_of, LedgerError, wrong_type, pairs_missing, no_pair, invalid_decimal,
  unknown_rounding, unknown_currency, invalid_amount, amount_overflow,
}
use stable_bank.Ledger.Amount.{
  Bytes, codes, is_nil, all_digits, split_point, value_from, trim_space, parse_int64, format_minor,
  text_of,
}
use stable_bank.Ledger.Fx.{Rate, RateProvider, negate, is_negative, convert_minor, invert_scaled}

-- `stringField` and `intField`, of the value under a key.
unfoldable pub string_field : String → Value → Result LedgerError String
string_field key (text t) = ok t
string_field key _ = err (wrong_type key)

unfoldable pub int_field : String → Value → Result LedgerError ℤ
int_field key (number n) = ok n
int_field key (float n) = ok n
int_field key (text t) = elim (parse_int64 (codes t)) [ none ↦ err invalid_amount | some n ↦ ok n ]
int_field key _ = err (wrong_type key)

-- `new(big.Rat).SetString` of a decimal, with or without a sign and a point. Fractions, exponents
-- and other bases, which no rule file of the repository uses, are refused here.
abbrev unsigned_rat : Bool → Bytes → Option Rat
unsigned_rat neg s =
    let (before, behind) = split_point s in
    let ds = before ++ behind in
    let v = value_from 0 ds in
    if is_nil ds || not (all_digits ds)
    then none
    else some (record { num = if neg then negate v else pos v; den = 10 ^ length behind })

unfoldable pub rat_of_string : Bytes → Option Rat
rat_of_string [] = none
rat_of_string (c ∷ s) =
    if c == b'-'
    then unsigned_rat true s
    else if c == b'+'
    then unsigned_rat false s
    else unsigned_rat false (c ∷ s)

-- Whether an integer is an int64: `IsInt64`.
abbrev is_int64 : ℤ → Bool
is_int64 a = not (ltb_ℤ a (negsuc 9223372036854775807)) && ltb_ℤ a (pos half_mod)

-- The integer of a fraction whose denominator divides it.
abbrev whole : Rat → ℤ
whole r = if is_negative r.num then negate (nat_abs r.num / r.den) else pos (nat_abs r.num / r.den)

unfoldable pub decimal_string_to_scaled : Bytes → ℕ → Result LedgerError ℤ
decimal_string_to_scaled s decimals = elim (rat_of_string (trim_space s)) [
  | none ↦ err (invalid_decimal (text_of s))
  | some r ↦
      let scaled = rat_mul r (rat_of (pos (10 ^ decimals))) in
      if not (nat_abs scaled.num % scaled.den == 0)
      then err (invalid_decimal (text_of s))
      else if is_int64 (whole scaled)
      then ok (whole scaled)
      else err amount_overflow
]

-- A pair as `findFXPair` returns it.
pub record FxPair : Type 0 where
  pub scaled : ℤ
  pub source : String
  pub inverted : Bool

abbrev string_or_empty : Value → String
string_or_empty (text t) = t
string_or_empty _ = ""

abbrev priced : String → String → Bool → Result LedgerError FxPair
priced rate source inverted = do
  scaled ← decimal_string_to_scaled (codes rate) 8
  ok (record { scaled = scaled; source = source; inverted = inverted })

-- One pair: `none` where the loop goes on.
unfoldable pub try_pair : String → String → Fields → Option (Result LedgerError FxPair)
try_pair from to m =
    let base = string_or_empty (get "base" m) in
    let quoted = string_or_empty (get "quote" m) in
    let source = string_or_empty (get "source" m) in
    elim (string_field "mock_rate" (get "mock_rate" m)) [
      | err e ↦ none
      | ok rate ↦
          if str_eq base from && str_eq quoted to
          then some (priced rate source false)
          else if str_eq base to && str_eq quoted from
          then some (priced rate source true)
          else none
    ]

unfoldable pub pair_loop : String → String → Values → Result LedgerError FxPair
pair_loop from to none_left = err (no_pair from to)
pair_loop from to (item (mapping m) ps) =
    let rest = pair_loop from to ps in elim (try_pair from to m) [ none ↦ rest | some r ↦ r ]
pair_loop from to (item _ ps) = pair_loop from to ps

-- A missing key and one that holds something else fail alike.
unfoldable pub find_fx_pair : Fields → String → String → Result LedgerError FxPair
find_fx_pair content from to = elim (get "pairs" content) [
  | sequence ps ↦ pair_loop from to ps
  | _ ↦ err pairs_missing
]

-- The rate that a pair gives in the direction asked for.
unfoldable pub effective : FxPair → String → Result LedgerError ℤ
effective pair mode = if pair.inverted then invert_scaled pair.scaled mode else ok pair.scaled

unfoldable pub rate_from_policy :
    Fields → String → String → String → Result LedgerError (ℤ × String)
rate_from_policy content from to mode = do
  pair ← find_fx_pair content from to
  scaled ← effective pair mode
  ok (scaled, pair.source)

abbrev pub known_mode : Value → Result LedgerError String
known_mode (text s) =
    if str_eq s "half_up" || str_eq s "down" then ok s else err (unknown_rounding s)
known_mode _ = err (wrong_type "rounding")

unfoldable pub rounding_mode_from_content : Fields → Result LedgerError String
rounding_mode_from_content content =
    if not (has_key "rounding" content) then ok "half_up" else known_mode (get "rounding" content)

-- RuleRateProvider over what `Rules.Get` returns, with its clock's time.
unfoldable pub rule_rate :
    Result LedgerError Fields → Time → String → String → Result LedgerError Rate
rule_rate rules now from to = do
  content ← rules
  mode ← rounding_mode_from_content content
  found ← rate_from_policy content from to mode
  ok (record { from = from; to = to; scaled = found.0; source = found.1; as_of = now })

unfoldable pub rule_provider : Result LedgerError Fields → Time → RateProvider
rule_provider rules now = record {
  rate = rule_rate rules now;
  rounding_mode = some (rules >>= rounding_mode_from_content);
}

-- The output of `EvaluateFXPolicy`.
pub record FxDecision : Type 0 where
  pub to_amount_minor : ℤ
  pub rate_scaled : ℤ
  pub rate_display : String
  pub source : String

-- `EvaluateFXPolicy` from where it has its mode and its pair.
unfoldable pub evaluate_pair : String → String → ℤ → String → FxPair → Result LedgerError FxDecision
evaluate_pair from to minor mode pair = elim (currency_of from) [
  | none ↦ err (unknown_currency from)
  | some from_cur ↦ elim (currency_of to) [
    | none ↦ err (unknown_currency to)
    | some to_cur ↦ do
      rate ← effective pair mode
      to_minor ← convert_minor minor from_cur.decimals to_cur.decimals rate mode
      ok (record {
        to_amount_minor = to_minor;
        rate_scaled = pair.scaled;
        rate_display = text_of (format_minor pair.scaled 8);
        source = pair.source;
      })
  ]
]

-- `EvaluateFXPolicy` after its input is read.
unfoldable pub evaluate_fx : Fields → String → String → ℤ → Result LedgerError FxDecision
evaluate_fx content from to minor = do
  mode ← rounding_mode_from_content content
  pair ← find_fx_pair content from to
  evaluate_pair from to minor mode pair

unfoldable pub evaluate_fx_policy : Fields → Fields → Result LedgerError FxDecision
evaluate_fx_policy content input = do
  from ← string_field "from" (get "from" input)
  to ← string_field "to" (get "to" input)
  minor ← int_field "amount_minor" (get "amount_minor" input)
  evaluate_fx content from to minor

-- a < b, of fractions with positive denominators.
abbrev ltb_rat : Rat → Rat → Bool
ltb_rat a b = ltb_ℤ (a.num *ℤ pos b.den) (b.num *ℤ pos a.den)

abbrev price_field : String → Fields → Result LedgerError Rat
price_field key m = do
  t ← string_field key (get key m)
  elim (rat_of_string (codes t)) [ none ↦ err (invalid_decimal t) | some r ↦ ok r ]

abbrev thresholds : Value → Result LedgerError Fields
thresholds (mapping m) = ok m
thresholds _ = err (wrong_type "thresholds")

-- `EvaluateDepegPolicy`: the status. It reads both texts before it parses the first of them, which
-- matters for the error only.
unfoldable pub evaluate_depeg_policy : Fields → Fields → Result LedgerError String
evaluate_depeg_policy content input = do
  price ← price_field "usdc_price_usd" input
  bounds ← thresholds (get "thresholds" content)
  watch ← price_field "watch_below_usd" bounds
  depeg ← price_field "depeg_below_usd" bounds
  ok (if ltb_rat price depeg then "depeg" else if ltb_rat price watch then "watch" else "normal")
