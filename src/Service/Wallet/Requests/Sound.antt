-- ===== src/Service/Wallet/Requests/Sound.antt =====
-- The books after any sequence of requests.
use go_ewallet_backend.Prelude.{List, [], ◌∷◌, refl, sym, subst}
use go_ewallet_backend.Runtime.{Env, World}
use go_ewallet_backend.Service.Books.{IsSound}
use go_ewallet_backend.Service.Books.Orders.{UniqueOrders}
use go_ewallet_backend.Service.Wallet.Requests.{Request, serve, serve_all}
use go_ewallet_backend.Service.Wallet.Transfer.{transfer_with_idempotency}
use go_ewallet_backend.Service.Wallet.Transfer.Books.{
  committed-by-transfer, Transferred-IsConsistent, Transferred-orders,
}
use go_ewallet_backend.Service.Wallet.TopUp.{create_top_up}
use go_ewallet_backend.Service.Wallet.TopUp.Opened.{committed-by-create, Creation-IsSound}
use go_ewallet_backend.Service.Wallet.TopUp.Promise.{confirm_top_up-IsSound}

-- A request, whatever it is and whatever fails, keeps the books and the ids of the orders unique.
pub serve-IsSound :
    (env : Env) (r : Request) (w : World) → IsSound w.committed → IsSound (serve env r w).committed
serve-IsSound env (Request.send user_id key req) w sound =
    committed-by-transfer env user_id key req w IsSound sound
      (λ i r c x. (
        Transferred-IsConsistent x sound.0,
        subst UniqueOrders (sym (Transferred-orders x)) sound.1,
      ))
      (transfer_with_idempotency env user_id key req w) refl
serve-IsSound env (Request.open_order user_id key req) w sound =
    committed-by-create env user_id key req w IsSound sound (λ r c x. Creation-IsSound x sound)
      (create_top_up env user_id key req w) refl
serve-IsSound env (Request.confirm_order user_id reference key req) w sound =
    confirm_top_up-IsSound env user_id reference key req w sound

-- After any sequence of requests, with any faults in between, the books are in order if they were
-- at the start: the ids of wallets and of orders are unique, every balance is between 0 and the
-- largest int64 and equal to the net of its ledger entries, and no entry moves money of a wallet
-- that is not there.
pub serve_all-IsSound :
    (rs : List (Env × Request)) (w : World)
    → IsSound w.committed
    → IsSound (serve_all rs w).committed
serve_all-IsSound [] w sound = sound
serve_all-IsSound ((env, r) ∷ rs) w sound =
    serve_all-IsSound rs (serve env r w) (serve-IsSound env r w sound)
