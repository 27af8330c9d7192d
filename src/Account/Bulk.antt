-- ===== src/Account/Bulk.antt =====
-- `BulkRandomPurchases` of account.Service (internal/account/service.go).
use stable_bank.Base.{
  ℕ, zero, suc, String, ◌||◌, Option, none, some, List, [], ◌∷◌, ◌++◌, str_eq, ok, err,
  if◌then◌else◌,
}
use stable_bank.Base.Int.{ℤ, pos, leb_ℤ, ltb_ℤ}
use stable_bank.Base.Int64.{add64, sub64}
use stable_bank.Bank.{Bank, BankEnv}
use stable_bank.Account.Service.{Receipt, AccountError, invalid_request, purchase_declined}
use stable_bank.Account.Purchases.{PurchaseRequest, purchase}

abbrev pub default_merchants : List String
default_merchants =
    "General Store" ∷ "Coffee Corner" ∷ "Grocery Mart" ∷ "Metro Transit" ∷ "Cloud Hosting Co"
    ∷ "Bookstore Nine" ∷ "Pharmacy Plus" ∷ "Streaming Plus" ∷ []

pub record BulkRequest : Type 0 where
  pub account_id : String
  pub count : ℤ
  pub min_cents : ℤ
  pub max_cents : ℤ
  pub seed : ℤ

-- The draws of math/rand of one turn: `Int63n(span)`, which is not asked where the span is 1, and
-- `Intn(8)`.
pub record Draw : Type 0 where
  pub offset : ℤ
  pub merchant : ℕ

abbrev pub nth_merchant : List String → ℕ → String
nth_merchant [] i = ""
nth_merchant (m ∷ ms) zero = m
nth_merchant (m ∷ ms) (suc i) = nth_merchant ms i

abbrev pub random_request : BulkRequest → Draw → PurchaseRequest
random_request req d =
    let span = add64 (sub64 req.max_cents req.min_cents) (pos 1) in
    record {
      account_id = req.account_id;
      amount_cents = if ltb_ℤ (pos 1) span then add64 req.min_cents d.offset else req.min_cents;
      merchant = nth_merchant default_merchants d.merchant;
    }

-- The loop of `BulkRandomPurchases`: the receipts so far come with the error that stops it.
unfoldable pub bulk_loop :
    BankEnv
    → BulkRequest
    → List Draw
    → List Receipt
    → Bank
    → (List Receipt × Option AccountError) × Bank
bulk_loop env req [] receipts b = ((receipts, none), b)
bulk_loop env req (d ∷ ds) receipts b =
    let (r, b') = purchase env (random_request req d) b in
    elim r [
      | ok receipt ↦ bulk_loop env req ds (receipts ++ receipt ∷ []) b'
      | err (purchase_declined receipt) ↦ bulk_loop env req ds (receipts ++ receipt ∷ []) b'
      | err e ↦ ((receipts, some e), b')
    ]

abbrev pub bulk_problem : BulkRequest → Option String
bulk_problem req =
    if str_eq req.account_id ""
    then some "account_id is required"
    else if leb_ℤ req.count (pos 0)
    then some "count must be positive"
    else if leb_ℤ req.min_cents (pos 0)
        || leb_ℤ req.max_cents (pos 0)
        || ltb_ℤ req.max_cents req.min_cents
    then some "min_cents/max_cents must be positive with max_cents >= min_cents"
    else none

-- `draws` gives the draws of a generator with the seed, as many as there are turns.
unfoldable pub bulk_random_purchases :
    BankEnv
    → (ℤ → ℤ → ℤ → List Draw)
    → BulkRequest
    → Bank
    → (List Receipt × Option AccountError) × Bank
bulk_random_purchases env draws req b = elim (bulk_problem req) [
  | some why ↦ (([], some (invalid_request why)), b)
  | none ↦
      let span = add64 (sub64 req.max_cents req.min_cents) (pos 1) in
      bulk_loop env req (draws req.seed span req.count) [] b
]
