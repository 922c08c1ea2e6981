-- ===== src/Service/Wallet/Transfer/Records.antt =====
-- What a transfer that is carried out writes beside the balances.
use go_ewallet_backend.Prelude.{
  ℕ, ◌≡◌, refl, sym, ◌∙◌, ap, arith, some, [], ◌∷◌, ◌++◌, String, ◌⊎◌, inl, inr,
}
use go_ewallet_backend.Prelude.Int.{◌+ℤ◌, ◌-ℤ◌}
use go_ewallet_backend.Prelude.Table.{find?}
use go_ewallet_backend.Model.{
  Wallet, has_user, Db, TransferRequest, TransferResponse, LedgerRow, OutboxEvent, OutboxStatus,
  debit, credit,
}
use go_ewallet_backend.Runtime.{Env, World, ok}
use go_ewallet_backend.Repository.Ledger.{ledger_row}
use go_ewallet_backend.Service.Books.{IsConsistent}
use go_ewallet_backend.Service.Wallet.Transfer.Receipt.{Receipt, Transferred-Receipt}
use go_ewallet_backend.Service.Wallet.Transfer.{
  transfer_with_idempotency, debit_entry, credit_entry,
}
use go_ewallet_backend.Service.Wallet.Transfer.Outcome.{Transferred, transfer-cases}

-- The audit trail of a transfer whose receipt is `x`: a debit entry of the sender's wallet, a credit
-- entry of the recipient's, each with the amount and that wallet's balances, and one event that
-- waits to be published.
pub record Trail {user_id : ℕ} (req : TransferRequest) (d : Db) (r : TransferResponse) (c : Db)
    (x : Receipt user_id req d r c) : Type 0 where
  pub debit_row : LedgerRow
  pub credit_row : LedgerRow
  pub event : OutboxEvent
  pub entries : c.ledger_entries ≡ (d.ledger_entries ++ debit_row ∷ []) ++ credit_row ∷ []
  pub events : c.outbox_events ≡ d.outbox_events ++ event ∷ []
  pub taken :
      (debit_row.direction ≡ debit)
      × (debit_row.wallet_id ≡ x.sender.id)
      × (debit_row.amount ≡ req.amount)
      × (debit_row.balance_before ≡ x.sender.balance)
      × (debit_row.balance_after ≡ x.sender.balance -ℤ req.amount)
  pub given :
      (credit_row.direction ≡ credit)
      × (credit_row.wallet_id ≡ req.to_wallet_id)
      × (credit_row.amount ≡ req.amount)
      × (credit_row.balance_before ≡ x.recipient.balance)
      × (credit_row.balance_after ≡ x.recipient.balance +ℤ req.amount)
  pub same_transfer : (debit_row.transfer_id ≡ some r.id) × (credit_row.transfer_id ≡ some r.id)
  pub same_reference :
      (debit_row.reference_id ≡ r.reference_id) × (credit_row.reference_id ≡ r.reference_id)
  pub waits :
      (event.status ≡ OutboxStatus.pending)
      × (event.event_type ≡ "transfer.success")
      × (event.payload.amount ≡ req.amount)

module _ {user_id : ℕ} {key : String} {req : TransferRequest} {d : Db} {r : TransferResponse}
    {c : Db} (row : Wallet) (sent_by : find? (has_user user_id) d.wallets ≡ some row)
    (x : Transferred user_id row.id key req d r c) where
  Transferred-Trail : (receipt : Receipt user_id req d r c) → Trail req d r c receipt
  Transferred-Trail receipt =
      let (b1, b2, b3, b4) = receipt.says in
      record {
        debit_row = ledger_row x.debit_id x.time (debit_entry r);
        credit_row = ledger_row x.credit_id x.time (credit_entry r);
        event = x.event;
        entries = ap (λ (y : Db). y.ledger_entries) x.result;
        events = ap (λ (y : Db). y.outbox_events) x.result;
        taken = (
          refl,
          ap (λ (y : TransferResponse). y.from_wallet_id) x.made.returned
              ∙ same_id (sym sent_by ∙ receipt.sent_by),
          ap (λ (y : TransferResponse). y.amount) x.made.returned,
          b1,
          b2,
        );
        given = (
          refl,
          ap (λ (y : TransferResponse). y.to_wallet_id) x.made.returned,
          ap (λ (y : TransferResponse). y.amount) x.made.returned,
          b3,
          b4,
        );
        same_transfer = (refl, refl);
        same_reference = (refl, refl);
        waits = (x.event_pending, x.event_type, x.event_amount);
      }
    where
      same_id : {a b : Wallet} → some a ≡ some b → a.id ≡ b.id
      same_id h = ground arith

-- A transfer that returns, where the books were in order, has either changed nothing, or moved the
-- money as its receipt says and committed, with it, exactly one debit entry of the sender's wallet
-- and one credit entry of the recipient's, both of this transfer and its reference, with the amount
-- requested and that wallet's balances before and after, and exactly one pending event with the
-- amount.
pub transfer-records :
    (env : Env) (user_id : ℕ) (key : String) (req : TransferRequest) (w : World)
    {r : TransferResponse} {w' : World}
    → IsConsistent w.committed
    → transfer_with_idempotency env user_id key req w ≡ (ok r, w')
    → (w'.committed ≡ w.committed)
      ⊎ ((x : Receipt user_id req w.committed r w'.committed) × Trail req w.committed r w'.committed
            x)
transfer-records env user_id key req w books h = elim (transfer-cases env user_id key req w h) [
  | inl same ↦ inl same
  | inr (row, sent_by, x) ↦
      let receipt = Transferred-Receipt row sent_by x books in
      inr (receipt, Transferred-Trail row sent_by x receipt)
]
