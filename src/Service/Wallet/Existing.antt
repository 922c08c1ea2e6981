-- ===== src/Service/Wallet/Existing.antt =====
-- internal/service/wallet.go: what a request gets whose key has been used: `resolveExisting…`.
use go_ewallet_backend.Prelude.{ℕ, Option}
use go_ewallet_backend.Model.{
  IdempotencyReserveResult, IdempotencyStatus, processing, completed, TransferResponse, TopUpOrder,
}
use go_ewallet_backend.Runtime.{
  no_rows, request_failed, request_in_progress, Env, Exec, raise, or_raise, ◌>>=◌, Runner,
}
use go_ewallet_backend.Repository.Wallet.Transfers.{get_transfer_by_id}
use go_ewallet_backend.Repository.TopUp

module _ {A : Type 0} (fetch : ℕ → Exec A) (resource_id : Option ℕ) where
  unfoldable pub resolve_existing : IdempotencyStatus → Exec A
  resolve_existing completed = do id ← or_raise resource_id no_rows; fetch id
  resolve_existing IdempotencyStatus.failed = raise request_failed
  resolve_existing processing = raise request_in_progress

unfoldable pub resolve_existing_transfer : Env → IdempotencyReserveResult → Exec TransferResponse
resolve_existing_transfer env reservation =
    resolve_existing (get_transfer_by_id env Runner.tx_runner) reservation.key.resource_id
      reservation.key.status

unfoldable pub resolve_existing_top_up_create : Env → IdempotencyReserveResult → Exec TopUpOrder
resolve_existing_top_up_create env reservation =
    resolve_existing (TopUp.get_by_id env Runner.tx_runner) reservation.key.resource_id
      reservation.key.status

unfoldable pub resolve_existing_top_up_confirm : Env → IdempotencyReserveResult → Exec TopUpOrder
resolve_existing_top_up_confirm env reservation =
    resolve_existing (TopUp.get_by_id env Runner.tx_runner) reservation.key.resource_id
      reservation.key.status
