-- ===== src/Ledger/Requests.antt =====
-- The writing methods of ledger.Service (internal/ledger/service.go) called one after another, in
-- any order and with any arguments; a call that fails leaves what it wrote before it failed.
pub mod Replay
pub mod Balance
use stable_bank.Base.{String, Option, List, [], ◌∷◌}
use stable_bank.Base.Int.{ℤ}
use stable_bank.Ledger.Types.{Account, Transaction}
use stable_bank.Ledger.Action.{World, Env}
use stable_bank.Ledger.Fx.{RateProvider, FxRequest}
use stable_bank.Ledger.Fx.Convert.{convert}
use stable_bank.Ledger.Accounts.{open_account, ensure_system_accounts}
use stable_bank.Ledger.Posting.{post, settle, finalize, post_and_finalize, seed_capital}

pub data Call : Type 0 where
  opening : Account → Call
  ensuring : Call
  seeding : ℤ → Call
  posting : Transaction → Call
  settling : String → Call
  finalizing : String → Call
  posting_final : Transaction → Call
  converting : Option RateProvider → FxRequest → Call

unfoldable pub serve : Env → Call → World → World
serve env (opening a) w = (open_account env a w).1
serve env ensuring w = (ensure_system_accounts env w).1
serve env (seeding cents) w = (seed_capital env cents w).1
serve env (posting tx) w = (post env tx w).1
serve env (settling id) w = (settle env id w).1
serve env (finalizing id) w = (finalize env id w).1
serve env (posting_final tx) w = (post_and_finalize env tx w).1
serve env (converting rates req) w = (convert env rates req w).1

unfoldable pub serve_all : Env → List Call → World → World
serve_all env [] w = w
serve_all env (c ∷ cs) w = serve_all env cs (serve env c w)
