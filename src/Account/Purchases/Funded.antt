-- ===== src/Account/Purchases/Funded.antt =====
-- The receipt of a purchase of internal/account/service.go, and the amount that it is for.
use stable_bank.Base.{ℕ}
use stable_bank.Base.Int.{ℤ}
use stable_bank.Value.{get}
use stable_bank.Rules.Documents.{Rule}
use stable_bank.Bank.{Bank}
use stable_bank.Account.Waterfall.{Purchase, is_set}
use stable_bank.Account.Service.{Funding}

-- What the waterfall is asked about a purchase.
abbrev pub asked : Rule → ℕ → ℤ → ℤ → Purchase
asked rule amount usd usdc = record {
  amount = amount;
  usd = usd;
  usdc = usdc;
  allow_split = is_set (get "allow_split" rule.content);
}
