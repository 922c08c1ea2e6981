-- ===== src/Tests/Transfers.antt =====
-- Transfers of internal/service/wallet.go, run.
use go_ewallet_backend.Prelude.{◌≡◌, refl, ◌⊎◌}
use go_ewallet_backend.Prelude.Int.{pos, ◌+ℤ◌, ◌-ℤ◌}
use go_ewallet_backend.Prelude.Int64.{add64, sub64, wrap}
use go_ewallet_backend.Model.{success, TransferResponse}
use go_ewallet_backend.Runtime.{
  World, ok, ◌>>=◌, recover, run_in, in_tx, on_db, begin_tx, commit_as, commit, with_rollback,
  run_on,
}
use go_ewallet_backend.Repository.Idempotency
use go_ewallet_backend.Repository.Ledger
use go_ewallet_backend.Repository.Outbox
use go_ewallet_backend.Repository.Wallet.Balances.{
  get_wallet_by_user_id, select_by_user, subtract_by_id, add_by_id,
}
use go_ewallet_backend.Repository.Wallet.Transfers.{
  transfer_with_metadata_tx, apply_transfer, select_locked, insert_transfer,
}
use go_ewallet_backend.Service.Reference.{generate_reference}
use go_ewallet_backend.Service.Reservation.{reserve, hash_payload, complete_idempotency}
use go_ewallet_backend.Service.Wallet.Event.{publish_event_tx}
use go_ewallet_backend.Service.Wallet.Transfer.{
  transfer_with_idempotency, transfer_in_tx, transfer_reserved, record_transfer,
}
use go_ewallet_backend.Service.Wallet.Transfer.Receipt.{Receipt, transfer-pays}
use go_ewallet_backend.Service.Wallet.Transfer.Records.{Trail, transfer-records}
use go_ewallet_backend.Service.Wallet.Transfer.Refused.{transfer-refused}
use go_ewallet_backend.Tests.Fixture.{calm, start, start-IsSound, coffee, used_key}

abbrev pub after_coffee : World
after_coffee = (transfer_with_idempotency calm 11 "k1" coffee start).1

abbrev pub coffee_response : TransferResponse
coffee_response = record {
  id = 1;
  from_wallet_id = 1;
  to_wallet_id = 2;
  amount = pos 20000;
  reference_id = "TRF-20260101000000-aaa";
  status = success;
  description = "kopi";
  sender_balance_before = pos 50000;
  sender_balance_after = pos 30000;
  recipient_balance_before = pos 0;
  recipient_balance_after = pos 20000;
  created_at = 1001;
}

pub coffee_runs :
    transfer_with_idempotency calm 11 "k1" coffee start ≡ (ok coffee_response, after_coffee)
unfolding transfer_with_idempotency transfer_in_tx transfer_reserved record_transfer ◌>>=◌ recover
    run_in in_tx on_db begin_tx commit_as commit with_rollback run_on get_wallet_by_user_id
    select_by_user reserve hash_payload Idempotency.reserve Idempotency.insert_key
    generate_reference transfer_with_metadata_tx select_locked apply_transfer subtract_by_id
    add_by_id insert_transfer add64 sub64 wrap ◌+ℤ◌ ◌-ℤ◌ Ledger.create_tx Ledger.insert_entry
    complete_idempotency Idempotency.mark_completed Idempotency.complete_key publish_event_tx
    Outbox.create_tx Outbox.insert_event
coffee_runs = refl

transfer-pays_example :
    (after_coffee.committed ≡ start.committed)
    ⊎ Receipt 11 coffee start.committed coffee_response after_coffee.committed
transfer-pays_example = transfer-pays calm 11 "k1" coffee start start-IsSound.0 coffee_runs

transfer-records_example :
    (after_coffee.committed ≡ start.committed)
    ⊎ ((x : Receipt 11 coffee start.committed coffee_response after_coffee.committed) × Trail coffee
          start.committed coffee_response after_coffee.committed x)
transfer-records_example = transfer-records calm 11 "k1" coffee start start-IsSound.0 coffee_runs

transfer-refused_example :
    ¬ (transfer_with_idempotency calm 11 "k1" coffee used_key ≡ (ok coffee_response, used_key))
transfer-refused_example =
    transfer-refused calm 11 "k1" coffee used_key coffee_response used_key refl refl
