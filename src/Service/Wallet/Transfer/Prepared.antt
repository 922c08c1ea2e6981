-- ===== src/Service/Wallet/Transfer/Prepared.antt =====
-- internal/service/wallet.go: a transfer that is ready has what its inserts need.
use go_ewallet_backend.Prelude.{ℕ, suc, ◌≡◌, ap, true, not, [], ◌∷◌, ◌++◌, ◌==◌, arith, String}
use go_ewallet_backend.Prelude.Int.{ℤ, ◌≤ℤ◌}
use go_ewallet_backend.Prelude.Int64.{max_int64}
use go_ewallet_backend.Prelude.Table.{any-append, any_of_find?, any_of_last}
use go_ewallet_backend.Model.{
  Db, Sequences, TransferRequest, IdempotencyKey, has_user, has_id, has_key_id,
}
use go_ewallet_backend.Runtime.{Env}
use go_ewallet_backend.Repository.Wallet.Transfers.{has_transfer_id}
use go_ewallet_backend.Service.Amount.Bounds.{add64-eq, sub64-eq}
use go_ewallet_backend.Repository.Wallet.Made.{response, paid}
use go_ewallet_backend.Service.Books.{IsConsistent}
use go_ewallet_backend.Service.Books.Rows.{find?-row_id}
use go_ewallet_backend.Service.Wallet.Transfer.{transfer_params}
use go_ewallet_backend.Service.Wallet.Transfer.Affordable.{Admits, Affords, still_there}
use go_ewallet_backend.Service.Wallet.Transfer.Afforded.{is_positive}
use go_ewallet_backend.Service.Wallet.Transfer.Ready.{HasNewIds, IsNewReference, IsReady}
use go_ewallet_backend.Service.Wallet.Transfer.Recordable.{Recordable, not_zero}

module _ (env : Env) (user_id : ℕ) (key : String) (req : TransferRequest) (d : Db)
    (ready : IsReady env user_id key req d) (books : IsConsistent d) where
  -- The sender's row is the one that its id finds.
  pub sender-Affords :
      Affords ready.sender.id req.to_wallet_id req.amount ready.sender ready.recipient d.wallets
  sender-Affords =
      let by_id = find?-row_id (has_user user_id) d.wallets books.unique ready.sent_by in
      let held = books.in_range ready.sender.id ready.sender by_id in
      record {
        distinct = ready.distinct;
        sent_by = by_id;
        sent_to = ready.sent_to;
        unique = books.unique;
        held = held;
        receives = books.in_range req.to_wallet_id ready.recipient ready.sent_to;
        positive = (
          ready.positive,
          at_most req.amount ready.sender.balance max_int64 ready.covered held.1,
        );
        covered = ready.covered;
        room = ready.room;
      }
    where
      at_most : (a b c : ℤ) → a ≤ℤ b → b ≤ℤ c → a ≤ℤ c
      at_most a b c h k = omega arith

  -- `transfers` takes the new row under the key that was reserved.
  pub transfer_params-Admits :
      (s : Sequences) (reference : String) (row : IdempotencyKey)
      → row.id ≡ suc s.idempotency_keys
      → HasNewIds d s
      → IsNewReference reference d
      → Admits
          (transfer_params user_id ready.sender.id row.id reference req)
          (record d { idempotency_keys = d.idempotency_keys ++ row ∷ [] })
          (record s { idempotency_keys = suc s.idempotency_keys })
  transfer_params-Admits s reference row e ids new = record {
    named = new.nonempty;
    new_id = ids.new_transfer;
    new_reference = new.no_transfer;
    new_key = rw (e, not_zero s.idempotency_keys) ids.new_key_reference;
    known_key =
        rw (e, not_zero s.idempotency_keys)
          (ground
            (arith, e, any-append (has_key_id (suc s.idempotency_keys)) d.idempotency_keys row));
    known_user = ap not ready.account;
  }

pub same_id : (n : ℕ) → (n == n) ≡ true
same_id n = ground arith

module _ (env : Env) (user_id : ℕ) (key : String) (req : TransferRequest) (d : Db)
    (ready : IsReady env user_id key req d) (books : IsConsistent d) (t : ℕ) (s : Sequences)
    (ids : HasNewIds d s) where
  -- The ledger takes both entries of the new transfer.
  pub response-Recordable :
      (reference : String) (row : IdempotencyKey)
      → IsNewReference reference d
      → let params = transfer_params user_id ready.sender.id row.id reference req in
        let d1 : Db = record d { idempotency_keys = d.idempotency_keys ++ row ∷ [] } in
        let id = suc s.transfers in
        Recordable
          (response id t params ready.sender.balance ready.recipient.balance)
          (paid id t d1 params ready.sender.balance ready.recipient.balance)
          (record s { idempotency_keys = suc s.idempotency_keys; transfers = id })
  response-Recordable reference row new =
      let a = sender-Affords env user_id key req d ready books in
      record {
        amount_ok = is_positive req.amount a.positive;
        sender_sum = sub64-eq ready.sender.balance req.amount a.held a.positive;
        recipient_sum = add64-eq ready.recipient.balance req.amount a.receives a.positive a.room;
        first_id = ids.new_entry;
        second_id = ids.new_second_entry;
        new_name = new.no_entry;
        sender_known =
            still_there a ready.sender.id
              (any_of_find? (has_id ready.sender.id) d.wallets a.sent_by);
        recipient_known =
            still_there a req.to_wallet_id
              (any_of_find? (has_id req.to_wallet_id) d.wallets a.sent_to);
        transfer_known = ap not (
            any_of_last (has_transfer_id (suc s.transfers)) d.transfers _
              (same_id (suc s.transfers)));
        event_id = ids.new_event;
      }
