-- ===== src/Ledger/Fx.antt =====
-- internal/ledger/fx.go: rates, quotes, and conversions between two accounts. The rate provider of
-- the service is a parameter; StaticRateProvider is one.
pub mod Rounding
pub mod Convert
pub mod Runs
pub mod Policy
mod Tests
use Prim.Native.String.{◌++◌ as str_append}
use stable_bank.Base.{
  ℕ, zero, suc, ◌+◌, ◌*◌, ◌/◌, ◌%◌, ◌^◌, ◌==◌, String, Bool, true, false, not, ◌||◌, Option, none,
  some, List, [], ◌∷◌, ltb, str_eq, if◌then◌else◌, Result, ok, err, ◌>>=◌,
}
use stable_bank.Base.Int.{ℤ, pos, negsuc, ◌*ℤ◌, nat_abs}
use stable_bank.Base.Int64.{half_mod}
use stable_bank.Base.Dict.{Dict, lookup, insert, is_none}
use stable_bank.Base.Round.{half_up}
use stable_bank.Store.Events.{Time}
use stable_bank.Ledger.Types.{
  Account, Amount, Entry, Transaction, Direction, debit, credit, unset, Currency, currency_of,
  LedgerError, unknown_currency, no_rate_provider, no_rate, unknown_rounding, amount_overflow,
  zero_rate, accounts_required, account_missing, entry_currency_mismatch,
}

-- `scaled` is to-per-from × 10^8, an int64.
pub record Rate : Type 0 where
  pub from : String
  pub to : String
  pub scaled : ℤ
  pub source : String
  pub as_of : Time

-- RateProvider, with its optional roundingModeProvider: `none` where it has none.
pub record RateProvider : Type 0 where
  pub rate : String → String → Result LedgerError Rate
  pub rounding_mode : Option (Result LedgerError String)

pub record FxRequest : Type 0 where
  pub from_account_id : String
  pub to_account_id : String
  pub from : Amount
  pub kind : String
  pub description : String
  pub metadata : Dict String

pub record FxQuote : Type 0 where
  pub from : Amount
  pub to : Amount
  pub rate : Rate
  pub rounding_mode : String

pub record FxResult : Type 0 where
  pub quote : FxQuote
  pub from_tx : Transaction
  pub to_tx : Transaction

-- StaticRateProvider: the key is "FROM->TO".
unfoldable pub static_provider : Dict Rate → String → RateProvider
static_provider rates mode = record {
  rate = λ from to. elim (lookup (str_append from (str_append "->" to)) rates) [
    | none ↦ err no_rate
    | some r ↦ ok r
  ];
  rounding_mode = some (ok (if str_eq mode "" then "half_up" else mode));
}

abbrev pub is_negative : ℤ → Bool
is_negative (pos n) = false
is_negative (negsuc n) = true

abbrev pub negate : ℕ → ℤ
negate zero = pos zero
negate (suc n) = negsuc n

-- `roundRat` of the fraction with this sign, numerator and denominator.
unfoldable pub round_rat : Bool → ℕ → ℕ → String → Result LedgerError ℤ
round_rat neg n d mode = do
  q ←
      if str_eq mode "down" || str_eq mode ""
      then ok (n / d)
      else if str_eq mode "half_up"
      then ok (half_up n d)
      else err (unknown_rounding mode)
  if not (ltb q half_mod) then err amount_overflow else ok (if neg then negate q else pos q)

-- `scaleFactor` is 10^8.
unfoldable pub convert_minor : ℤ → ℕ → ℕ → ℤ → String → Result LedgerError ℤ
convert_minor from_minor from_decimals to_decimals scaled mode =
    let num = from_minor *ℤ scaled *ℤ pos (10 ^ to_decimals) in
    round_rat (is_negative num) (nat_abs num) (10 ^ 8 * 10 ^ from_decimals) mode

unfoldable pub invert_scaled : ℤ → String → Result LedgerError ℤ
invert_scaled scaled mode =
    if nat_abs scaled == 0
    then err zero_rate
    else round_rat (is_negative scaled) (10 ^ 16) (nat_abs scaled) mode

-- The mode of a quote: "half_up" unless the provider names another one.
unfoldable pub quote_mode : RateProvider → String
quote_mode p = elim p.rounding_mode [
  | none ↦ "half_up"
  | some r ↦ elim r [ ok m ↦ if str_eq m "" then "half_up" else m | err e ↦ "half_up" ]
]

-- `Quote`, over the provider of the service, which may be nil.
unfoldable pub quote : Option RateProvider → String → String → ℤ → Result LedgerError FxQuote
quote none from to from_minor = err no_rate_provider
quote (some p) from to from_minor = elim (currency_of from) [
  | none ↦ err (unknown_currency from)
  | some from_cur ↦ elim (currency_of to) [
    | none ↦ err (unknown_currency to)
    | some to_cur ↦ do
      r ← p.rate from to
      let mode = quote_mode p
      to_minor ← convert_minor from_minor from_cur.decimals to_cur.decimals r.scaled mode
      ok (record {
        from = record { currency = from; minor = from_minor };
        to = record { currency = to; minor = to_minor };
        rate = r;
        rounding_mode = mode;
      })
  ]
]
