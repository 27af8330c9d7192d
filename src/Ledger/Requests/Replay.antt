-- ===== src/Ledger/Requests/Replay.antt =====
-- Whatever calls are made, the projection is the replay of the event log.
use stable_bank.Base.{◌≡◌, List, [], ◌∷◌, ok, keep}
use stable_bank.Ledger.Projection.{new_projection, apply_all}
use stable_bank.Ledger.Projection.Replay.{is_ledger}
use stable_bank.Ledger.Action.{World, Env, new_world}
use stable_bank.Ledger.Sync.{InSync, InSync-new_world}
use stable_bank.Ledger.Steps.{Steps, here, Steps-trans}
use stable_bank.Ledger.Steps.Sync.{Steps-InSync}
use stable_bank.Ledger.Steps.Runs.{
  Runs-post, Runs-settle, Runs-finalize, Runs-open_account, Runs-post_and_finalize,
  Runs-ensure_system_accounts, Runs-seed_capital,
}
use stable_bank.Ledger.Fx.Runs.{Runs-convert}
use stable_bank.Ledger.Requests.{
  Call, opening, ensuring, seeding, posting, settling, finalizing, posting_final, converting, serve,
  serve_all,
}

pub serve-Steps : (env : Env) (c : Call) (w : World) → InSync w → Steps env w (serve env c w)
unfolding serve
serve-Steps env (opening a) w h = (Runs-open_account a).at w h
serve-Steps env ensuring w h = Runs-ensure_system_accounts.at w h
serve-Steps env (seeding cents) w h = (Runs-seed_capital cents).at w h
serve-Steps env (posting tx) w h = (Runs-post tx).at w h
serve-Steps env (settling id) w h = (Runs-settle id).at w h
serve-Steps env (finalizing id) w h = (Runs-finalize id).at w h
serve-Steps env (posting_final tx) w h = (Runs-post_and_finalize tx).at w h
serve-Steps env (converting rates req) w h = (Runs-convert rates req).at w h

pub serve_all-Steps :
    (env : Env) (cs : List Call) (w : World) → InSync w → Steps env w (serve_all env cs w)
unfolding serve_all
serve_all-Steps env [] w h = here
serve_all-Steps env (c ∷ cs) w h =
    let one = serve-Steps env c w h in
    Steps-trans one (serve_all-Steps env cs (serve env c w) (Steps-InSync one h))

pub serve_all-InSync : (env : Env) (cs : List Call) → InSync (serve_all env cs new_world)
serve_all-InSync env cs =
    Steps-InSync (serve_all-Steps env cs new_world InSync-new_world) InSync-new_world

-- After any calls on an empty store, failed ones included, replaying the ledger's events of the
-- whole log into a new projection succeeds and gives the projection that the service holds.
pub replay-serve_all :
    (env : Env) (cs : List Call)
    → let w = serve_all env cs new_world in
      apply_all (keep is_ledger w.log.events) new_projection ≡ (ok tt, w.proj)
replay-serve_all env cs = (serve_all-InSync env cs).replayed
