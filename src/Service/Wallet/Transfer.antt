-- ===== src/Service/Wallet/Transfer.antt =====
-- internal/service/wallet.go: `TransferWithIdempotency` and `Transfer`.
pub mod Recorded
pub mod Outcome
pub mod Books
pub mod Receipt
pub mod Refused
pub mod Records
pub mod Affordable
pub mod Afforded
pub mod Recordable
pub mod Ready
pub mod Prepared
pub mod Succeeds
use go_ewallet_backend.Prelude.{ℕ, String, Bool, Option, none, some, ◌==◌, if◌then◌else◌}
use go_ewallet_backend.Prelude.Int.{ℤ, pos, leb_ℤ}
use go_ewallet_backend.Model.{
  Scope, wallet_transfer, IdempotencyReserveResult, TransactionType, debit, credit, LedgerEntry,
  TransferRequest, TransferResponse, WalletResponse,
}
use go_ewallet_backend.Runtime.{
  Error, no_rows, amount_not_positive, sender_wallet_not_found, same_wallet, Env, Payload, Exec,
  pure, raise, raise_if, recover, ◌>>=◌, ◌>>◌, begin_tx, commit, with_rollback,
}
use go_ewallet_backend.Repository.Ledger
use go_ewallet_backend.Repository.Wallet.Balances.{get_wallet_by_user_id}
use go_ewallet_backend.Repository.Wallet.Transfers.{
  TransferRequestParams, transfer_with_metadata_tx,
}
use go_ewallet_backend.Service.Reference.{generate_reference}
use go_ewallet_backend.Service.Reservation.{reserve, complete_idempotency, fail_idempotency}
use go_ewallet_backend.Service.Wallet.Event.{publish_event_tx}
use go_ewallet_backend.Service.Wallet.Existing.{resolve_existing_transfer}

-- `if err == sql.ErrNoRows`
abbrev pub sender_error : Error → Error
sender_error Error.no_rows = sender_wallet_not_found
sender_error e = e

abbrev pub debit_entry : TransferResponse → LedgerEntry
debit_entry t = record {
  wallet_id = t.from_wallet_id;
  reference_id = t.reference_id;
  transaction_type = TransactionType.transfer;
  direction = debit;
  amount = t.amount;
  balance_before = t.sender_balance_before;
  balance_after = t.sender_balance_after;
  description = t.description;
  transfer_id = some t.id;
  top_up_order_id = none;
}

abbrev pub credit_entry : TransferResponse → LedgerEntry
credit_entry t = record {
  wallet_id = t.to_wallet_id;
  reference_id = t.reference_id;
  transaction_type = TransactionType.transfer;
  direction = credit;
  amount = t.amount;
  balance_before = t.recipient_balance_before;
  balance_after = t.recipient_balance_after;
  description = t.description;
  transfer_id = some t.id;
  top_up_order_id = none;
}

abbrev pub transfer_params : ℕ → ℕ → ℕ → String → TransferRequest → TransferRequestParams
transfer_params from_user_id from_wallet_id key_id reference_id req = record {
  from_wallet_id = from_wallet_id;
  to_wallet_id = req.to_wallet_id;
  amount = req.amount;
  reference_id = reference_id;
  description = req.description;
  idempotency_key_id = if key_id == 0 then none else some key_id;
  created_by_user_id = some from_user_id;
}

-- A failed transfer marks the reservation; an error of that is logged and dropped.
unfoldable pub fail_transfer : {A : Type 0} → Env → ℕ → Error → Exec A
fail_transfer env key_id e = do recover (fail_idempotency env key_id) (λ _. pure tt); raise e

-- From the transfer to the end of the transaction: the ledger, the reservation, the event.
unfoldable pub record_transfer :
    Env → ℕ → ℕ → TransferRequest → TransferResponse → Exec TransferResponse
record_transfer env from_user_id key_id req transfer = do
  Ledger.create_tx env (debit_entry transfer)
  Ledger.create_tx env (credit_entry transfer)
  complete_idempotency env key_id "transfer" transfer.id
  publish_event_tx env "transfer.success" from_user_id req.amount
  commit env
  pure transfer

-- From the new reservation on.
unfoldable pub transfer_reserved : Env → ℕ → ℕ → ℕ → TransferRequest → Exec TransferResponse
transfer_reserved env from_user_id from_wallet_id key_id req = do
  reference_id ← generate_reference env "TRF"
  transfer ←
      recover
        (transfer_with_metadata_tx env
          (transfer_params from_user_id from_wallet_id key_id reference_id req))
        (fail_transfer env key_id)
  record_transfer env from_user_id key_id req transfer

abbrev pub transfer_or_existing :
    Env → ℕ → ℕ → TransferRequest → IdempotencyReserveResult → Exec TransferResponse
transfer_or_existing env from_user_id from_wallet_id req reservation =
    if reservation.is_new
    then transfer_reserved env from_user_id from_wallet_id reservation.key.id req
    else resolve_existing_transfer env reservation

-- What runs inside the transaction, up to the deferred rollback.
unfoldable pub transfer_in_tx : Env → ℕ → ℕ → String → TransferRequest → Exec TransferResponse
transfer_in_tx env from_user_id from_wallet_id idempotency_key req = do
  reservation ← reserve env from_user_id wallet_transfer idempotency_key (Payload.transfer req)
  transfer_or_existing env from_user_id from_wallet_id req reservation

unfoldable pub transfer_with_idempotency :
    Env → ℕ → String → TransferRequest → Exec TransferResponse
transfer_with_idempotency env from_user_id idempotency_key req = do
  raise_if (leb_ℤ req.amount (pos 0)) amount_not_positive
  from_wallet ← recover (get_wallet_by_user_id env from_user_id) (λ e. raise (sender_error e))
  raise_if (from_wallet.id == req.to_wallet_id) same_wallet
  begin_tx env
  with_rollback (transfer_in_tx env from_user_id from_wallet.id idempotency_key req)

-- `Transfer` has no key to give.
unfoldable pub transfer : Env → ℕ → ℕ → ℤ → Exec TransferResponse
transfer env from_user_id to_wallet_id amount =
    transfer_with_idempotency env from_user_id ""
      (record { to_wallet_id = to_wallet_id; amount = amount; description = "" })
