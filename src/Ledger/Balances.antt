-- ===== src/Ledger/Balances.antt =====
-- The balances of ledger.Service (internal/ledger/service.go).
use stable_bank.Base.{String, none, some, List, [], ◌∷◌, map}
use stable_bank.Base.Int.{ℤ}
use stable_bank.Base.Int64.{sub64}
use stable_bank.Base.Dict.{Dict, lookup, insert, values}
use stable_bank.Ledger.Types.{Account, Amount, Direction, debit, normal_balance, not_found}
use stable_bank.Ledger.Projection.{Projection, lookup_zero, bump}
use stable_bank.Ledger.Action.{Action, gets, or_fail, refresh, ◌>>=◌, ◌>>◌}

-- By the side on which the balance grows.
unfoldable pub natural_by : Direction → ℤ → ℤ → ℤ
natural_by debit d c = sub64 d c
natural_by _ d c = sub64 c d

-- `naturalBalanceLocked`
unfoldable pub natural_balance : Projection → Account → ℤ
natural_balance p acc =
    natural_by (normal_balance acc.account_type) (lookup_zero acc.id p.debits)
      (lookup_zero acc.id p.credits)

abbrev pub balance_amount : Projection → Account → Amount
balance_amount p acc = record { currency = acc.currency; minor = natural_balance p acc }

unfoldable pub balance_refreshed : String → Action Amount
balance_refreshed id = do
  found ← gets (λ w. lookup id w.proj.accounts)
  acc ← or_fail found not_found
  gets (λ w. balance_amount w.proj acc)

unfoldable pub balance : String → Action Amount
balance id = refresh >> balance_refreshed id

unfoldable pub balances : Action (Dict Amount)
balances = refresh >> gets (λ w. map (λ kv. (kv.0, balance_amount w.proj kv.1)) w.proj.accounts)

abbrev pub lookup_empty : String → Dict (Dict ℤ) → Dict ℤ
lookup_empty k m = elim (lookup k m) [ none ↦ [] | some v ↦ v ]

-- The loop of `BalancesByType`, over the accounts.
unfoldable pub sum_by_type : Projection → List Account → Dict (Dict ℤ) → Dict (Dict ℤ)
sum_by_type p [] out = out
sum_by_type p (acc ∷ accs) out =
    let by_currency = lookup_empty acc.account_type out in
    let summed = bump acc.currency (natural_balance p acc) by_currency in
    sum_by_type p accs (insert acc.account_type summed out)

unfoldable pub balances_by_type : Action (Dict (Dict ℤ))
balances_by_type = refresh >> gets (λ w. sum_by_type w.proj (values w.proj.accounts) [])
