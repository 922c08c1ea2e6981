-- ===== src/Tests/TopUps.antt =====
-- Top ups of internal/service/wallet.go, run.
use go_ewallet_backend.Prelude.{◌≡◌, refl, ◌⊎◌, some, none}
use go_ewallet_backend.Prelude.Int.{pos, ◌+ℤ◌, ◌-ℤ◌}
use go_ewallet_backend.Prelude.Int64.{add64, sub64, wrap}
use go_ewallet_backend.Model.{Status, success, TopUpOrder}
use go_ewallet_backend.Runtime.{
  World, ok, ◌>>=◌, recover, run_in, in_tx, on_db, begin_tx, commit_as, commit, with_rollback,
  run_on,
}
use go_ewallet_backend.Repository.Idempotency
use go_ewallet_backend.Repository.Ledger
use go_ewallet_backend.Repository.Outbox
use go_ewallet_backend.Repository.TopUp
use go_ewallet_backend.Repository.Wallet.Balances.{
  get_wallet_by_user_id, select_by_user, get_wallet_by_id_for_update_tx,
  update_balance_by_wallet_id_tx, select_by_id, add_by_id_touching,
}
use go_ewallet_backend.Service.Amount.{validate_and_apply_top_up}
use go_ewallet_backend.Service.Reference.{generate_reference}
use go_ewallet_backend.Service.Reservation.{reserve, hash_payload, complete_idempotency}
use go_ewallet_backend.Service.Wallet.Event.{publish_event_tx}
use go_ewallet_backend.Service.Wallet.TopUp.{
  confirm_top_up, confirm_in_tx, confirm_reserved, confirm_order, confirm_pending, pay_order,
  create_top_up, create_top_up_with, create_in_tx, create_reserved,
}
use go_ewallet_backend.Service.Wallet.TopUp.Waiting.{Waiting, create_top_up-opens}
use go_ewallet_backend.Service.Wallet.TopUp.Promise.{
  Receipt, confirm_top_up-pays, confirm_top_up-once,
}
use go_ewallet_backend.Tests.Fixture.{
  calm, start, ordered, ordered-IsSound, waiting_order, first_order, by_bank, from_bank,
}

abbrev pub after_payment : World
after_payment = (confirm_top_up calm 12 "TUP-2" "k2" by_bank ordered).1

abbrev pub paid_order : TopUpOrder
paid_order = record {
  id = 2;
  wallet_id = 2;
  reference_id = "TUP-2";
  amount = pos 5000;
  status = success;
  payment_channel = "manual";
  external_reference = some "BANK-9";
  description = "";
  balance_before = some (pos 0);
  balance_after = some (pos 5000);
  created_at = 1;
  updated_at = 1000;
  confirmed_at = some 1000;
  failed_at = none;
}

pub payment_runs :
    confirm_top_up calm 12 "TUP-2" "k2" by_bank ordered ≡ (ok paid_order, after_payment)
unfolding confirm_top_up confirm_in_tx confirm_reserved confirm_order confirm_pending pay_order
    ◌>>=◌ recover run_in in_tx on_db begin_tx commit_as commit with_rollback run_on
    get_wallet_by_id_for_update_tx update_balance_by_wallet_id_tx select_by_id add_by_id_touching
    reserve hash_payload Idempotency.reserve Idempotency.insert_key TopUp.scan_row
    TopUp.scan_top_up_order TopUp.get_by_reference_id_for_user_tx TopUp.select_order_of
    TopUp.mark_successful_tx TopUp.mark_successful validate_and_apply_top_up add64 sub64 wrap ◌+ℤ◌
    ◌-ℤ◌ Ledger.create_tx Ledger.insert_entry complete_idempotency Idempotency.mark_completed
    Idempotency.complete_key publish_event_tx Outbox.create_tx Outbox.insert_event
payment_runs = refl

abbrev pub after_order : World
after_order = (create_top_up calm 12 "k3" from_bank start).1

abbrev pub new_order : TopUpOrder
new_order = record {
  id = 2;
  wallet_id = 2;
  reference_id = "TUP-20260101000000-aaa";
  amount = pos 7000;
  status = Status.pending;
  payment_channel = "manual";
  external_reference = none;
  description = "gaji";
  balance_before = none;
  balance_after = none;
  created_at = 1001;
  updated_at = 1001;
  confirmed_at = none;
  failed_at = none;
}

pub order_runs : create_top_up calm 12 "k3" from_bank start ≡ (ok new_order, after_order)
unfolding create_top_up create_top_up_with create_in_tx create_reserved ◌>>=◌ recover run_in in_tx
    on_db begin_tx commit_as commit with_rollback run_on get_wallet_by_user_id select_by_user
    reserve hash_payload Idempotency.reserve Idempotency.insert_key generate_reference
    TopUp.scan_row TopUp.scan_top_up_order TopUp.create_tx TopUp.insert_order
    validate_and_apply_top_up add64 sub64 wrap ◌+ℤ◌ ◌-ℤ◌ complete_idempotency
    Idempotency.mark_completed Idempotency.complete_key
order_runs = refl

confirm_top_up-pays_example :
    (after_payment.committed ≡ ordered.committed)
    ⊎ Receipt waiting_order ordered.committed paid_order after_payment.committed
confirm_top_up-pays_example =
    confirm_top_up-pays calm 12 "TUP-2" "k2" by_bank ordered waiting_order ordered-IsSound refl refl
      payment_runs

-- The first order has been paid.
confirm_top_up-once_example :
    let c = (confirm_top_up calm 11 "TUP-1" "k4" by_bank ordered).1.committed in
    (c.wallets ≡ ordered.committed.wallets)
    × (c.ledger_entries ≡ ordered.committed.ledger_entries)
    × (c.top_up_orders ≡ ordered.committed.top_up_orders)
confirm_top_up-once_example =
    confirm_top_up-once calm 11 "TUP-1" "k4" by_bank ordered first_order refl refl

create_top_up-opens_example :
    (after_order.committed ≡ start.committed)
    ⊎ Waiting 12 from_bank start.committed new_order after_order.committed
create_top_up-opens_example = create_top_up-opens calm 12 "k3" from_bank start order_runs
