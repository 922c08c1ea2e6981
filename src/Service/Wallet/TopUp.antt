-- ===== src/Service/Wallet/TopUp.antt =====
-- internal/service/wallet.go: `CreateTopUp` and `ConfirmTopUp`.
pub mod Confirmed
pub mod Outcome
pub mod Books
pub mod Promise
pub mod Opened
pub mod Waiting
use go_ewallet_backend.Prelude.{ℕ, String, Bool, Option, none, some, ◌==◌, str_eq, if◌then◌else◌}
use go_ewallet_backend.Prelude.Int.{ℤ}
use go_ewallet_backend.Model.{
  wallet_topup_create, wallet_topup_confirm, IdempotencyReserveResult, TransactionType, Status,
  credit, LedgerEntry, CreateTopUpRequest, ConfirmTopUpRequest, TopUpOrder, success,
}
use go_ewallet_backend.Runtime.{
  top_up_already_failed, Env, Payload, Exec, pure, raise, raise_if, lift, ◌>>=◌, ◌>>◌, begin_tx,
  commit, with_rollback,
}
use go_ewallet_backend.Repository.Ledger
use go_ewallet_backend.Repository.TopUp
use go_ewallet_backend.Repository.Wallet.Balances.{
  get_wallet_by_user_id, get_wallet_by_id_for_update_tx, update_balance_by_wallet_id_tx,
}
use go_ewallet_backend.Service.Amount.{validate_and_apply_top_up}
use go_ewallet_backend.Service.Reference.{generate_reference}
use go_ewallet_backend.Service.Reservation.{reserve, complete_idempotency, fail_idempotency}
use go_ewallet_backend.Service.Wallet.Event.{publish_event_tx}
use go_ewallet_backend.Service.Wallet.Existing.{
  resolve_existing_top_up_create, resolve_existing_top_up_confirm,
}

-- An empty payment channel is "manual".
abbrev pub with_channel : CreateTopUpRequest → CreateTopUpRequest
with_channel req =
    if str_eq req.payment_channel "" then record req { payment_channel = "manual" } else req

unfoldable pub create_reserved : Env → ℕ → ℕ → CreateTopUpRequest → Exec TopUpOrder
create_reserved env wallet_id key_id req = do
  reference_id ← generate_reference env "TUP"
  order ← TopUp.create_tx env wallet_id key_id reference_id req
  complete_idempotency env key_id "top_up_order" order.id
  commit env
  pure order

abbrev pub create_or_existing :
    Env → ℕ → CreateTopUpRequest → IdempotencyReserveResult → Exec TopUpOrder
create_or_existing env wallet_id req reservation =
    if reservation.is_new
    then create_reserved env wallet_id reservation.key.id req
    else resolve_existing_top_up_create env reservation

unfoldable pub create_in_tx : Env → ℕ → ℕ → String → CreateTopUpRequest → Exec TopUpOrder
create_in_tx env user_id wallet_id idempotency_key req = do
  reservation ← reserve env user_id wallet_topup_create idempotency_key (Payload.create_top_up req)
  create_or_existing env wallet_id req reservation

unfoldable pub create_top_up_with : Env → ℕ → String → CreateTopUpRequest → Exec TopUpOrder
create_top_up_with env user_id idempotency_key req = do
  wallet ← get_wallet_by_user_id env user_id
  lift (validate_and_apply_top_up wallet.balance req.amount)
  begin_tx env
  with_rollback (create_in_tx env user_id wallet.id idempotency_key req)

unfoldable pub create_top_up : Env → ℕ → String → CreateTopUpRequest → Exec TopUpOrder
create_top_up env user_id idempotency_key req =
    create_top_up_with env user_id idempotency_key (with_channel req)

abbrev pub top_up_entry : TopUpOrder → ℤ → ℤ → String → LedgerEntry
top_up_entry order before after description = record {
  wallet_id = order.wallet_id;
  reference_id = order.reference_id;
  transaction_type = TransactionType.top_up;
  direction = credit;
  amount = order.amount;
  balance_before = before;
  balance_after = after;
  description = description;
  transfer_id = none;
  top_up_order_id = some order.id;
}

abbrev pub confirm_description : ConfirmTopUpRequest → TopUpOrder → String
confirm_description req order =
    if str_eq req.description "" then order.description else req.description

-- From the update of the balance to the end of the transaction.
unfoldable pub pay_order : Env → ℕ → ℕ → ConfirmTopUpRequest → TopUpOrder → ℤ → ℤ → Exec TopUpOrder
pay_order env user_id key_id req order balance_before balance_after = do
  update_balance_by_wallet_id_tx env order.wallet_id order.amount
  paid ←
      TopUp.mark_successful_tx env order.id req.external_reference (confirm_description req order)
        balance_before balance_after
  Ledger.create_tx env
      (top_up_entry paid balance_before balance_after (confirm_description req order))
  complete_idempotency env key_id "top_up_order_confirm" paid.id
  publish_event_tx env "topup.confirmed" user_id paid.amount
  commit env
  pure paid

-- A pending order is paid into its wallet.
unfoldable pub confirm_pending : Env → ℕ → ℕ → ConfirmTopUpRequest → TopUpOrder → Exec TopUpOrder
confirm_pending env user_id key_id req order = do
  wallet ← get_wallet_by_id_for_update_tx env order.wallet_id
  balance_after ← lift (validate_and_apply_top_up wallet.balance order.amount)
  pay_order env user_id key_id req order wallet.balance balance_after

-- The order's status decides.
unfoldable pub confirm_order :
    Env → ℕ → ℕ → ConfirmTopUpRequest → TopUpOrder → Status → Exec TopUpOrder
confirm_order env user_id key_id req order success = do
  complete_idempotency env key_id "top_up_order_confirm" order.id
  commit env
  pure order
confirm_order env user_id key_id req order Status.failed = do
  fail_idempotency env key_id
  raise top_up_already_failed
confirm_order env user_id key_id req order Status.pending =
    confirm_pending env user_id key_id req order

unfoldable pub confirm_reserved : Env → ℕ → ℕ → String → ConfirmTopUpRequest → Exec TopUpOrder
confirm_reserved env user_id key_id reference_id req = do
  order ← TopUp.get_by_reference_id_for_user_tx env user_id reference_id
  confirm_order env user_id key_id req order order.status

abbrev pub confirm_or_existing :
    Env → ℕ → String → ConfirmTopUpRequest → IdempotencyReserveResult → Exec TopUpOrder
confirm_or_existing env user_id reference_id req reservation =
    if reservation.is_new
    then confirm_reserved env user_id reservation.key.id reference_id req
    else resolve_existing_top_up_confirm env reservation

unfoldable pub confirm_in_tx : Env → ℕ → String → String → ConfirmTopUpRequest → Exec TopUpOrder
confirm_in_tx env user_id reference_id idempotency_key req = do
  reservation ←
      reserve env user_id wallet_topup_confirm idempotency_key
        (Payload.confirm_top_up reference_id req)
  confirm_or_existing env user_id reference_id req reservation

unfoldable pub confirm_top_up : Env → ℕ → String → String → ConfirmTopUpRequest → Exec TopUpOrder
confirm_top_up env user_id reference_id idempotency_key req = do
  begin_tx env
  with_rollback (confirm_in_tx env user_id reference_id idempotency_key req)
