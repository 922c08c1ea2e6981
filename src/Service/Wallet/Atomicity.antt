-- ===== src/Service/Wallet/Atomicity.antt =====
-- internal/service/wallet.go: calls that fail, and the committed tables.
use go_ewallet_backend.Prelude.{ℕ, String, ◌≡◌, arith}
use go_ewallet_backend.Prelude.Int.{ℤ, pos}
use go_ewallet_backend.Prelude.Table.{find?}
use go_ewallet_backend.Model.{
  TransferRequest, CreateTopUpRequest, ConfirmTopUpRequest, TopUpOrder, Status, success, has_user,
}
use go_ewallet_backend.Runtime.{Error, err, Env, World, on_db}
use go_ewallet_backend.Runtime.Atomicity.{
  Quiet, Atomic, atomic_rules, quiet_rules, Quiet-on_db-query,
}
use go_ewallet_backend.Repository.TopUp
use go_ewallet_backend.Repository.Wallet.Balances.{
  get_wallet_by_user_id, select_by_user, get_wallet_by_id_for_update_tx,
  update_balance_by_wallet_id_tx,
}
use go_ewallet_backend.Service.Wallet.Quiet.{step_rules}
use go_ewallet_backend.Service.Wallet.Existing.{
  resolve_existing_transfer, resolve_existing_top_up_create, resolve_existing_top_up_confirm,
}
use go_ewallet_backend.Service.Wallet.Transfer.{
  transfer_with_idempotency, transfer_in_tx, transfer_reserved, record_transfer, fail_transfer,
}
use go_ewallet_backend.Service.Wallet.TopUp.{
  create_top_up, create_top_up_with, create_in_tx, create_reserved, confirm_top_up, confirm_in_tx,
  confirm_reserved, confirm_order, confirm_pending, pay_order,
}

module _ (env : Env) where
  Quiet-select_by_user : (user_id : ℕ) → Quiet (on_db env (select_by_user user_id))
  unfolding select_by_user
  Quiet-select_by_user user_id = Quiet-on_db-query env (λ t d. find? (has_user user_id) d.wallets)

  Quiet-get_wallet_by_user_id : (user_id : ℕ) → Quiet (get_wallet_by_user_id env user_id)
  unfolding get_wallet_by_user_id
  Quiet-get_wallet_by_user_id user_id = search (quiet_rules, Quiet-select_by_user) depth 20

  Atomic-transfer_reserved :
      (from_user_id from_wallet_id key_id : ℕ) (req : TransferRequest)
      → Atomic (transfer_reserved env from_user_id from_wallet_id key_id req)
  unfolding transfer_reserved fail_transfer record_transfer
  Atomic-transfer_reserved from_user_id from_wallet_id key_id req =
      search (atomic_rules, step_rules) depth 30

  Atomic-transfer_in_tx :
      (from_user_id from_wallet_id : ℕ) (key : String) (req : TransferRequest)
      → Atomic (transfer_in_tx env from_user_id from_wallet_id key req)
  unfolding transfer_in_tx resolve_existing_transfer
  Atomic-transfer_in_tx from_user_id from_wallet_id key req =
      search (atomic_rules, step_rules, Atomic-transfer_reserved) depth 30

  pub Atomic-transfer :
      (from_user_id : ℕ) (key : String) (req : TransferRequest)
      → Atomic (transfer_with_idempotency env from_user_id key req)
  unfolding transfer_with_idempotency
  Atomic-transfer from_user_id key req =
      search (atomic_rules, step_rules, Quiet-get_wallet_by_user_id, Atomic-transfer_in_tx) depth 30

  pub Atomic-create_top_up :
      (user_id : ℕ) (key : String) (req : CreateTopUpRequest)
      → Atomic (create_top_up env user_id key req)
  unfolding create_top_up create_top_up_with create_in_tx create_reserved TopUp.create_tx
      resolve_existing_top_up_create TopUp.get_by_id
  Atomic-create_top_up user_id key req =
      search (atomic_rules, step_rules, Quiet-get_wallet_by_user_id) depth 40

  Quiet-balance_steps :
      (id : ℕ) (amount : ℤ)
      → Quiet (get_wallet_by_id_for_update_tx env id)
        × Quiet (update_balance_by_wallet_id_tx env id amount)
  unfolding get_wallet_by_id_for_update_tx update_balance_by_wallet_id_tx
  Quiet-balance_steps id amount = (search quiet_rules depth 20, search quiet_rules depth 20)

  Quiet-lock_wallet : (id : ℕ) → Quiet (get_wallet_by_id_for_update_tx env id)
  Quiet-lock_wallet id = (Quiet-balance_steps id (pos 0)).0

  Quiet-pay_wallet : (id : ℕ) (amount : ℤ) → Quiet (update_balance_by_wallet_id_tx env id amount)
  Quiet-pay_wallet id amount = (Quiet-balance_steps id amount).1

  Atomic-confirm_order :
      (user_id key_id : ℕ) (req : ConfirmTopUpRequest) (order : TopUpOrder) (status : Status)
      → Atomic (confirm_order env user_id key_id req order status)
  unfolding confirm_order confirm_pending pay_order TopUp.mark_successful_tx
  Atomic-confirm_order user_id key_id req order success = search (atomic_rules, step_rules) depth 30
  Atomic-confirm_order user_id key_id req order Status.failed =
      search (atomic_rules, step_rules) depth 30
  Atomic-confirm_order user_id key_id req order Status.pending =
      search (atomic_rules, step_rules, Quiet-lock_wallet, Quiet-pay_wallet) depth 30

  pub Atomic-confirm_top_up :
      (user_id : ℕ) (reference key : String) (req : ConfirmTopUpRequest)
      → Atomic (confirm_top_up env user_id reference key req)
  unfolding confirm_top_up confirm_in_tx confirm_reserved TopUp.get_by_reference_id_for_user_tx
      resolve_existing_top_up_confirm TopUp.get_by_id
  Atomic-confirm_top_up user_id reference key req =
      search (atomic_rules, step_rules, Atomic-confirm_order) depth 30

module _ (env : Env) {e : Error} (w : World) where
  -- A transfer that fails, for whatever reason, leaves every committed table as it was.
  pub transfer-atomic :
      (from_user_id : ℕ) (key : String) (req : TransferRequest)
      → (transfer_with_idempotency env from_user_id key req w).0 ≡ err e
      → (transfer_with_idempotency env from_user_id key req w).1.committed ≡ w.committed
  transfer-atomic from_user_id key req h =
      ground (arith, (Atomic-transfer env from_user_id key req).at w)

  -- Opening a top up order that fails, for whatever reason, leaves every committed table as it was.
  pub create_top_up-atomic :
      (user_id : ℕ) (key : String) (req : CreateTopUpRequest)
      → (create_top_up env user_id key req w).0 ≡ err e
      → (create_top_up env user_id key req w).1.committed ≡ w.committed
  create_top_up-atomic user_id key req h =
      ground (arith, (Atomic-create_top_up env user_id key req).at w)

  -- A confirmation that fails, for whatever reason, leaves every committed table as it was: no
  -- credit without its ledger entry, its order and its event.
  pub confirm_top_up-atomic :
      (user_id : ℕ) (reference key : String) (req : ConfirmTopUpRequest)
      → (confirm_top_up env user_id reference key req w).0 ≡ err e
      → (confirm_top_up env user_id reference key req w).1.committed ≡ w.committed
  confirm_top_up-atomic user_id reference key req h =
      ground (arith, (Atomic-confirm_top_up env user_id reference key req).at w)
