-- ===== src/Tests/Failures.antt =====
-- Calls of the wallet service that fail in the middle of their transaction.
use go_ewallet_backend.Prelude.{◌≡◌, refl}
use go_ewallet_backend.Prelude.Int.{◌+ℤ◌, ◌-ℤ◌}
use go_ewallet_backend.Prelude.Int64.{add64, sub64, wrap}
use go_ewallet_backend.Runtime.{
  DbError, Error, err, ◌>>=◌, recover, run_in, in_tx, on_db, begin_tx, commit_as, commit,
  with_rollback, run_on,
}
use go_ewallet_backend.Repository.Idempotency
use go_ewallet_backend.Repository.Ledger
use go_ewallet_backend.Repository.TopUp
use go_ewallet_backend.Repository.Wallet.Balances.{
  get_wallet_by_user_id, select_by_user, subtract_by_id, add_by_id, get_wallet_by_id_for_update_tx,
  update_balance_by_wallet_id_tx, select_by_id, add_by_id_touching,
}
use go_ewallet_backend.Repository.Wallet.Transfers.{
  transfer_with_metadata_tx, apply_transfer, select_locked, insert_transfer,
}
use go_ewallet_backend.Service.Amount.{validate_and_apply_top_up}
use go_ewallet_backend.Service.Reference.{generate_reference}
use go_ewallet_backend.Service.Reservation.{
  reserve, hash_payload, complete_idempotency, fail_idempotency,
}
use go_ewallet_backend.Service.Wallet.Atomicity.{
  transfer-atomic, create_top_up-atomic, confirm_top_up-atomic,
}
use go_ewallet_backend.Service.Wallet.Transfer.{
  transfer_with_idempotency, transfer_in_tx, transfer_reserved, record_transfer, fail_transfer,
}
use go_ewallet_backend.Service.Wallet.TopUp.{
  confirm_top_up, confirm_in_tx, confirm_reserved, confirm_order, confirm_pending, pay_order,
  create_top_up, create_top_up_with, create_in_tx, create_reserved,
}
use go_ewallet_backend.Tests.Fixture.{cut, cut_early, start, ordered, coffee, by_bank, from_bank}

-- The money has moved in the transaction when the connection is lost.
lost_transfer :
    (transfer_with_idempotency cut 11 "k1" coffee start).0 ≡ err (Error.db DbError.unavailable)
unfolding transfer_with_idempotency transfer_in_tx transfer_reserved record_transfer fail_transfer
    ◌>>=◌ recover run_in in_tx on_db begin_tx commit_as commit with_rollback run_on
    get_wallet_by_user_id select_by_user reserve hash_payload Idempotency.reserve
    Idempotency.insert_key generate_reference transfer_with_metadata_tx select_locked apply_transfer
    subtract_by_id add_by_id insert_transfer add64 sub64 wrap ◌+ℤ◌ ◌-ℤ◌ Ledger.create_tx
    Ledger.insert_entry complete_idempotency fail_idempotency Idempotency.mark_failed
lost_transfer = refl

transfer-atomic_example :
    (transfer_with_idempotency cut 11 "k1" coffee start).1.committed ≡ start.committed
transfer-atomic_example = transfer-atomic cut start 11 "k1" coffee lost_transfer

lost_payment :
    (confirm_top_up cut 12 "TUP-2" "k2" by_bank ordered).0 ≡ err (Error.db DbError.unavailable)
unfolding confirm_top_up confirm_in_tx confirm_reserved confirm_order confirm_pending pay_order
    ◌>>=◌ recover run_in in_tx on_db begin_tx commit_as commit with_rollback run_on
    get_wallet_by_id_for_update_tx update_balance_by_wallet_id_tx select_by_id add_by_id_touching
    reserve hash_payload Idempotency.reserve Idempotency.insert_key TopUp.scan_row
    TopUp.scan_top_up_order TopUp.get_by_reference_id_for_user_tx TopUp.select_order_of
    TopUp.mark_successful_tx TopUp.mark_successful validate_and_apply_top_up add64 sub64 wrap ◌+ℤ◌
    ◌-ℤ◌ Ledger.create_tx Ledger.insert_entry
lost_payment = refl

confirm_top_up-atomic_example :
    (confirm_top_up cut 12 "TUP-2" "k2" by_bank ordered).1.committed ≡ ordered.committed
confirm_top_up-atomic_example =
    confirm_top_up-atomic cut ordered 12 "TUP-2" "k2" by_bank lost_payment

lost_order :
    (create_top_up cut_early 12 "k3" from_bank start).0 ≡ err (Error.db DbError.unavailable)
unfolding create_top_up create_top_up_with create_in_tx create_reserved ◌>>=◌ recover run_in in_tx
    on_db begin_tx commit_as commit with_rollback run_on get_wallet_by_user_id select_by_user
    reserve hash_payload Idempotency.reserve Idempotency.insert_key generate_reference
    TopUp.scan_row TopUp.scan_top_up_order TopUp.create_tx TopUp.insert_order
    validate_and_apply_top_up add64 sub64 wrap ◌+ℤ◌ ◌-ℤ◌ complete_idempotency
    Idempotency.mark_completed Idempotency.complete_key
lost_order = refl

create_top_up-atomic_example :
    (create_top_up cut_early 12 "k3" from_bank start).1.committed ≡ start.committed
create_top_up-atomic_example = create_top_up-atomic cut_early start 12 "k3" from_bank lost_order
