-- ===== src/Service/Wallet/Requests.antt =====
-- The calls of the wallet service that write, one after the other. Requests that run at the same
-- time lock the rows they change (`FOR UPDATE`), so their transactions have an order.
pub mod Sound
pub mod Money
pub mod Keys
pub mod Bank
pub mod Refinement
pub mod Replayed
use go_ewallet_backend.Prelude.{ℕ, String, List, [], ◌∷◌}
use go_ewallet_backend.Model.{
  Scope, wallet_transfer, wallet_topup_create, wallet_topup_confirm, TransferRequest,
  CreateTopUpRequest, ConfirmTopUpRequest,
}
use go_ewallet_backend.Runtime.{Env, World}
use go_ewallet_backend.Service.Wallet.Transfer.{transfer_with_idempotency}
use go_ewallet_backend.Service.Wallet.TopUp.{create_top_up, confirm_top_up}

-- A call with the user that the access token names.
pub data Request : Type 0 where
  send : ℕ → String → TransferRequest → Request
  open_order : ℕ → String → CreateTopUpRequest → Request
  confirm_order : ℕ → String → String → ConfirmTopUpRequest → Request

-- The world after a request, whatever it returns.
abbrev pub serve : Env → Request → World → World
serve env (Request.send user_id key req) w = (transfer_with_idempotency env user_id key req w).1
serve env (Request.open_order user_id key req) w = (create_top_up env user_id key req w).1
serve env (Request.confirm_order user_id reference key req) w =
    (confirm_top_up env user_id reference key req w).1

-- Each request meets surroundings of its own: other faults, other random bytes.
abbrev pub serve_all : List (Env × Request) → World → World
serve_all [] w = w
serve_all ((env, r) ∷ rs) w = serve_all rs (serve env r w)

abbrev pub user_of : Request → ℕ
user_of (Request.send user_id key req) = user_id
user_of (Request.open_order user_id key req) = user_id
user_of (Request.confirm_order user_id reference key req) = user_id

abbrev pub scope_of : Request → Scope
scope_of (Request.send user_id key req) = wallet_transfer
scope_of (Request.open_order user_id key req) = wallet_topup_create
scope_of (Request.confirm_order user_id reference key req) = wallet_topup_confirm

-- The `Idempotency-Key` header.
abbrev pub key_of : Request → String
key_of (Request.send user_id key req) = key
key_of (Request.open_order user_id key req) = key
key_of (Request.confirm_order user_id reference key req) = key
