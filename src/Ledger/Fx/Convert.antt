-- ===== src/Ledger/Fx/Convert.antt =====
-- `Convert` of internal/ledger/fx.go: two linked transactions through the treasury accounts.
use Prim.Native.String.{◌++◌ as str_append}
use stable_bank.Base.{String, not, ◌||◌, Option, [], ◌∷◌, str_eq, if◌then◌else◌}
use stable_bank.Base.Dict.{Dict, lookup, insert}
use stable_bank.Ledger.Types.{
  Transaction, debit, credit, unset, accounts_required, account_missing, entry_currency_mismatch,
}
use stable_bank.Ledger.Amount.{format_minor, text_of}
use stable_bank.Ledger.Action.{
  Env, Action, pure, gets, lift, or_fail, fail_when, refresh, ◌>>=◌, ◌>>◌,
}
use stable_bank.Ledger.Posting.{post, settle, finalize}
use stable_bank.Ledger.Fx.{RateProvider, FxRequest, FxQuote, FxResult, quote}

-- strings.ToLower, on the codes of the map Currencies: no other code comes this far, since `Quote`
-- has refused it.
abbrev pub lower_code : String → String
lower_code c = if str_eq c "USD" then "usd" else if str_eq c "USDC" then "usdc" else c

abbrev pub fx_account : String → String
fx_account currency = str_append "treasury-fx-" (lower_code currency)

-- `buildMeta`
unfoldable pub build_meta : FxRequest → FxQuote → Dict String
build_meta req q =
    insert "fx_source" q.rate.source
      (insert "fx_rate" (text_of (format_minor q.rate.scaled 8)) req.metadata)

-- The kind of both transactions.
abbrev pub kind_of : FxRequest → String
kind_of req = if str_eq req.kind "" then "fx" else req.kind

unfoldable pub from_transaction : FxRequest → FxQuote → String → String → Transaction
from_transaction req q id linked = record {
  id = id;
  kind = kind_of req;
  description = req.description;
  currency = req.from.currency;
  entries =
      record { account_id = req.from_account_id; direction = debit; amount = req.from }
      ∷ record { account_id = fx_account req.from.currency; direction = credit; amount = req.from }
      ∷ [];
  status = unset;
  linked_tx_id = linked;
  metadata = build_meta req q;
  occurred_at = 0;
}

unfoldable pub to_transaction : FxRequest → FxQuote → String → String → String → Transaction
to_transaction req q currency id linked = record {
  id = id;
  kind = kind_of req;
  description = req.description;
  currency = currency;
  entries =
      record { account_id = fx_account currency; direction = debit; amount = q.to }
      ∷ record { account_id = req.to_account_id; direction = credit; amount = q.to }
      ∷ [];
  status = unset;
  linked_tx_id = linked;
  metadata = build_meta req q;
  occurred_at = 0;
}

-- The six ledger calls, in their order: both postings, and then each to its end.
unfoldable pub post_both : Env → FxQuote → Transaction → Transaction → Action FxResult
post_both env q from_tx to_tx = do
  posted_from ← post env from_tx
  posted_to ← post env to_tx
  settled_from ← settle env posted_from.id
  final_from ← finalize env settled_from.id
  settled_to ← settle env posted_to.id
  final_to ← finalize env settled_to.id
  pure (record { quote = q; from_tx = final_from; to_tx = final_to })

unfoldable pub convert_refreshed : Env → Option RateProvider → FxRequest → Action FxResult
convert_refreshed env rates req = do
  from_found ← gets (λ w. lookup req.from_account_id w.proj.accounts)
  from_acc ← or_fail from_found (account_missing req.from_account_id)
  to_found ← gets (λ w. lookup req.to_account_id w.proj.accounts)
  to_acc ← or_fail to_found (account_missing req.to_account_id)
  fail_when (not (str_eq from_acc.currency req.from.currency))
      (entry_currency_mismatch from_acc.currency req.from.currency)
  q ← lift (quote rates req.from.currency to_acc.currency req.from.minor)
  from_id ← gets (λ w. env.new_id w.log.seq 1)
  to_id ← gets (λ w. env.new_id w.log.seq 2)
  post_both env q (from_transaction req q from_id to_id)
      (to_transaction req q to_acc.currency to_id from_id)

unfoldable pub convert : Env → Option RateProvider → FxRequest → Action FxResult
convert env rates req = do
  fail_when (str_eq req.from_account_id "" || str_eq req.to_account_id "") accounts_required
  refresh >> convert_refreshed env rates req
