-- ===== src/Service/Wallet/Transfer/Recorded.antt =====
-- What a transfer writes after the money has moved.
use go_ewallet_backend.Prelude.{ℕ, ◌≡◌, ◌∙◌, ap, true, false, [], ◌∷◌, ◌++◌, ◌==◌}
use go_ewallet_backend.Prelude.Table.{update_where}
use go_ewallet_backend.Model.{
  Db, OutboxEvent, OutboxStatus, TransferRequest, TransferResponse, debit, credit, has_key_id,
}
use go_ewallet_backend.Runtime.{Env, World, active, ok}
use go_ewallet_backend.Runtime.Inversion.{bind-ok, pure-ok, commit-ok}
use go_ewallet_backend.Repository.Ledger.{ledger_row, progresses}
use go_ewallet_backend.Repository.Idempotency.{completed_with}
use go_ewallet_backend.Service.Wallet.Steps.{
  create_entry-ok, complete_idempotency-ok, publish_event_tx-ok,
}
use go_ewallet_backend.Service.Wallet.Transfer.{debit_entry, credit_entry, record_transfer}

-- The tables after the ledger, the reservation and the event have been written.
abbrev pub recorded : ℕ → Db → ℕ → TransferResponse → ℕ → ℕ → OutboxEvent → Db
recorded t d key_id r debit_id credit_id event = record d {
  ledger_entries =
      (d.ledger_entries ++ ledger_row debit_id t (debit_entry r) ∷ [])
      ++ ledger_row credit_id t (credit_entry r) ∷ [];
  idempotency_keys =
      update_where (has_key_id key_id) (completed_with t "transfer" r.id) d.idempotency_keys;
  outbox_events = d.outbox_events ++ event ∷ [];
}

-- `d` holds the tables as the transfer has left them.
pub record Recorded (key_id : ℕ) (req : TransferRequest) (t : ℕ) (d : Db)
    (given r : TransferResponse) (w' : World) : Type 0 where
  pub debit_id : ℕ
  pub credit_id : ℕ
  pub event : OutboxEvent
  pub same : r ≡ given
  pub debit_fits :
      progresses debit given.amount given.sender_balance_before given.sender_balance_after ≡ true
  pub credit_fits :
      progresses credit given.amount given.recipient_balance_before given.recipient_balance_after
      ≡ true
  pub event_pending : event.status ≡ OutboxStatus.pending
  pub event_type : event.event_type ≡ "transfer.success"
  pub event_amount : event.payload.amount ≡ req.amount
  pub recorded_as : w'.committed ≡ recorded t d key_id given debit_id credit_id event

module _ (env : Env) (user_id key_id : ℕ) (req : TransferRequest) (given : TransferResponse)
    (nonzero : (key_id == 0) ≡ false) (t : ℕ) (d : Db) (w : World) {r : TransferResponse}
    {w' : World} where
  pub record_transfer-Recorded :
      w.tx ≡ active t d
      → record_transfer env user_id key_id req given w ≡ (ok r, w')
      → Recorded key_id req t d given r w'
  unfolding record_transfer
  record_transfer-Recorded opened h0 =
      let (debit_id, w1, s1, h1) = bind-ok _ _ h0 in
      let (l1, debit_fits, _) = create_entry-ok env w opened (debit_entry given) s1 in
      let (credit_id, w2, s2, h2) = bind-ok _ _ h1 in
      let (l2, credit_fits, _) = create_entry-ok env w1 l1 (credit_entry given) s2 in
      let (_, w3, s3, h3) = bind-ok _ _ h2 in
      let (l3, _) = complete_idempotency-ok env w2 l2 key_id "transfer" given.id nonzero s3 in
      let (_, w4, s4, h4) = bind-ok _ _ h3 in
      let (event, l4, pending, type, amount) =
        publish_event_tx-ok env w3 l3 "transfer.success" user_id req.amount s4 in
      let (_, w5, s5, h5) = bind-ok _ _ h4 in
      let (same, e) = pure-ok h5 in
      record {
        debit_id = debit_id;
        credit_id = credit_id;
        event = event;
        same = same;
        debit_fits = debit_fits;
        credit_fits = credit_fits;
        event_pending = pending;
        event_type = type;
        event_amount = amount;
        recorded_as = ap (λ (v : World). v.committed) e ∙ commit-ok env w4 t _ l4 s5;
      }
