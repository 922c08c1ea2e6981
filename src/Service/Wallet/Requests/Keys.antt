-- ===== src/Service/Wallet/Requests/Keys.antt =====
-- Idempotency keys over requests.
use go_ewallet_backend.Prelude.{ℕ, String, [], ◌∷◌, ◌≡◌, refl, ap, false, inl, inr, ◌⊎◌, ◌++◌}
use go_ewallet_backend.Prelude.Table.{any, update_where}
use go_ewallet_backend.Model.{
  Db, Scope, wallet_transfer, wallet_topup_create, wallet_topup_confirm, IdempotencyReserveResult,
  TransferRequest, CreateTopUpRequest, ConfirmTopUpRequest, TransferResponse, TopUpOrder, has_key,
  has_key_id,
}
use go_ewallet_backend.Runtime.{Env, World}
use go_ewallet_backend.Repository.Idempotency.{completed_with}
use go_ewallet_backend.Repository.TopUp.{scan_top_up_order}
use go_ewallet_backend.Service.Reservation.Completion.{Completion}
use go_ewallet_backend.Service.Reservation.Fresh.{Fresh}
use go_ewallet_backend.Service.Wallet.Requests.{Request, serve, user_of, scope_of, key_of}
use go_ewallet_backend.Service.Wallet.Transfer.{transfer_with_idempotency}
use go_ewallet_backend.Service.Wallet.Transfer.Books.{committed-by-transfer}
use go_ewallet_backend.Service.Wallet.Transfer.Outcome.{Transferred}
use go_ewallet_backend.Service.Wallet.TopUp.{create_top_up, confirm_top_up}
use go_ewallet_backend.Service.Wallet.TopUp.Opened.{committed-by-create, Creation}
use go_ewallet_backend.Service.Wallet.TopUp.Outcome.{Confirmation}
use go_ewallet_backend.Service.Wallet.TopUp.Promise.{committed-by-confirm}

-- From `d` to `c` nothing has changed, or a free key has been reserved and completed.
abbrev pub Effect : ℕ → Scope → String → Db → Db → Type 0
Effect user_id scope key d c =
    (c ≡ d)
    ⊎ (Completion user_id scope key d c
        × (any (has_key user_id scope key) d.idempotency_keys ≡ false))

-- The key that was reserved has been completed.
Fresh-Effect :
    {user_id : ℕ} {scope : Scope} {key : String} {t : ℕ} {d c : Db} {x : IdempotencyReserveResult}
    {v : World} (resource_type : String) (resource_id : ℕ)
    → Fresh user_id scope key t d x v
    → c.idempotency_keys
      ≡ update_where
          (has_key_id x.key.id)
          (completed_with t resource_type resource_id)
          (d.idempotency_keys ++ x.key ∷ [])
    → Effect user_id scope key d c
Fresh-Effect {t = t} {x = x} resource_type resource_id fresh keys = inr (
  record {
    row = x.key;
    time = t;
    hash = fresh.hash;
    resource_type = resource_type;
    resource_id = resource_id;
    shape = fresh.row;
    keys = keys;
  },
  fresh.key_free,
)

Transferred-Effect :
    {user_id from_wallet_id : ℕ} {key : String} {req : TransferRequest} {d c : Db}
    {r : TransferResponse}
    → Transferred user_id from_wallet_id key req d r c
    → Effect user_id wallet_transfer key d c
Transferred-Effect {r = r} x =
    Fresh-Effect "transfer" r.id x.fresh (ap (λ (y : Db). y.idempotency_keys) x.result)

Creation-Effect :
    {user_id : ℕ} {key : String} {req : CreateTopUpRequest} {d c : Db} {r : TopUpOrder}
    → Creation user_id key req d r c
    → Effect user_id wallet_topup_create key d c
Creation-Effect {r = r} x =
    Fresh-Effect "top_up_order" r.id x.fresh (ap (λ (y : Db). y.idempotency_keys) x.opened.result)

Confirmation-Effect :
    {user_id : ℕ} {reference key : String} {req : ConfirmTopUpRequest} {d c : Db} {r : TopUpOrder}
    → Confirmation user_id reference key req d r c
    → Effect user_id wallet_topup_confirm key d c
Confirmation-Effect {r = r} x = elim x.outcome [
  | inl (_, _, same) ↦
      Fresh-Effect "top_up_order_confirm" (scan_top_up_order x.row).id x.fresh
        (ap (λ (y : Db). y.idempotency_keys) same)
  | inr (_, y) ↦
      Fresh-Effect "top_up_order_confirm" r.id x.fresh
        (ap (λ (z : Db). z.idempotency_keys) y.paid.result)
]

-- A request changes nothing, or it completes its key, which was free.
pub serve-Effect :
    (env : Env) (r : Request) (w : World)
    → Effect (user_of r) (scope_of r) (key_of r) w.committed (serve env r w).committed
serve-Effect env (Request.send user_id key req) w =
    committed-by-transfer env user_id key req w (Effect user_id wallet_transfer key w.committed)
      (inl refl) (λ i r c x. Transferred-Effect x) (transfer_with_idempotency env user_id key req w)
      refl
serve-Effect env (Request.open_order user_id key req) w =
    committed-by-create env user_id key req w (Effect user_id wallet_topup_create key w.committed)
      (inl refl) (λ r c x. Creation-Effect x) (create_top_up env user_id key req w) refl
serve-Effect env (Request.confirm_order user_id reference key req) w =
    committed-by-confirm env user_id reference key req w
      (Effect user_id wallet_topup_confirm key w.committed) (inl refl)
      (λ r c x. Confirmation-Effect x) (confirm_top_up env user_id reference key req w) refl
