-- ===== src/Service/Wallet/Transfer/Outcome.antt =====
-- What a transfer that returns has committed.
use go_ewallet_backend.Prelude.{
  ℕ, ◌≡◌, sym, ◌∙◌, ap, subst, true, some, String, inl, inr, ◌⊎◌, Bool-cases,
}
use go_ewallet_backend.Prelude.Table.{find?}
use go_ewallet_backend.Model.{
  Db, wallet_transfer, Wallet, WalletResponse, IdempotencyReserveResult, OutboxEvent, OutboxStatus,
  TransferRequest, TransferResponse, debit, credit, has_user,
}
use go_ewallet_backend.Runtime.{Env, World, Payload, active, Error, Result, ok}
use go_ewallet_backend.Runtime.Inversion.{
  bind-ok, raise_if-then, recover-ok, begin_tx-ok, with_rollback-ok,
}
use go_ewallet_backend.Repository.Ledger.{progresses}
use go_ewallet_backend.Repository.Wallet.Made.{
  Made, paid, with_reference, transfer_with_metadata_tx-Made,
}
use go_ewallet_backend.Service.Reservation.Fresh.{Fresh, reserve-Fresh, reserved_db}
use go_ewallet_backend.Service.Wallet.Steps.{generate_reference-ok}
use go_ewallet_backend.Repository.Wallet.Balances.{wallet_response}
use go_ewallet_backend.Service.Wallet.Lookup.{get_wallet_by_user_id-ok}
use go_ewallet_backend.Service.Wallet.Quiet.{
  Quiet-reserve, Quiet-resolve_existing, Quiet-get_transfer_by_id,
}
use go_ewallet_backend.Service.Wallet.Existing.{resolve_existing_transfer}
use go_ewallet_backend.Service.Wallet.Transfer.{
  transfer_params, transfer_reserved, fail_transfer, transfer_in_tx, transfer_with_idempotency,
}
use go_ewallet_backend.Service.Wallet.Transfer.Recorded.{
  recorded, Recorded, record_transfer-Recorded,
}

-- A transfer that was carried out, from the committed tables `d0`.
pub record Transferred (user_id from_wallet_id : ℕ) (key : String) (req : TransferRequest) (d0 : Db)
    (r : TransferResponse) (committed : Db) : Type 0 where
  pub time : ℕ
  pub reservation : IdempotencyReserveResult
  pub reserved_in : World
  pub fresh : Fresh user_id wallet_transfer key time d0 reservation reserved_in
  pub reference : String
  pub made_in : World
  pub made :
      Made
        (transfer_params user_id from_wallet_id reservation.key.id reference req)
        time
        (reserved_db d0 reservation.key)
        r
        made_in
  pub debit_id : ℕ
  pub credit_id : ℕ
  pub event : OutboxEvent
  pub debit_fits : progresses debit r.amount r.sender_balance_before r.sender_balance_after ≡ true
  pub credit_fits :
      progresses credit r.amount r.recipient_balance_before r.recipient_balance_after ≡ true
  pub event_pending : event.status ≡ OutboxStatus.pending
  pub event_type : event.event_type ≡ "transfer.success"
  pub event_amount : event.payload.amount ≡ req.amount
  pub result :
      committed
      ≡ recorded time
          (paid r.id time
            (reserved_db d0 reservation.key)
            (with_reference
              (transfer_params user_id from_wallet_id reservation.key.id reference req)
              made.reference)
            made.sender.balance
            made.recipient.balance)
          reservation.key.id
          r
          debit_id
          credit_id
          event

-- A failed transfer never returns a response.
fail_transfer-never :
    {A : Type 0} (env : Env) (key_id : ℕ) (e : Error) (v : World) {a : A} {w' : World}
    → fail_transfer env key_id e v ≡ (ok a, w')
    → ⊥
unfolding fail_transfer
fail_transfer-never env key_id e v h = let (_, _, _, raised) = bind-ok _ _ h in cc raised

module _ (env : Env) (user_id from_wallet_id : ℕ) (key : String) (req : TransferRequest) (t : ℕ)
    (d0 : Db) (reservation : IdempotencyReserveResult) (v w : World)
    (fresh : Fresh user_id wallet_transfer key t d0 reservation v) {r : TransferResponse}
    {w' : World} where
  Transferred-parts :
      (reference : String) (given : TransferResponse) (w1 : World)
      (made : Made
        (transfer_params user_id from_wallet_id reservation.key.id reference req)
        t
        (reserved_db d0 reservation.key)
        given
        w1)
      → Recorded reservation.key.id req t
          (paid given.id t
            (reserved_db d0 reservation.key)
            (with_reference
              (transfer_params user_id from_wallet_id reservation.key.id reference req)
              made.reference)
            made.sender.balance
            made.recipient.balance)
          given
          r
          w'
      → Transferred user_id from_wallet_id key req d0 given w'.committed
  Transferred-parts reference given w1 made rec = record {
    time = t;
    reservation = reservation;
    reserved_in = v;
    fresh = fresh;
    reference = reference;
    made_in = w1;
    made = made;
    debit_id = rec.debit_id;
    credit_id = rec.credit_id;
    event = rec.event;
    debit_fits = rec.debit_fits;
    credit_fits = rec.credit_fits;
    event_pending = rec.event_pending;
    event_type = rec.event_type;
    event_amount = rec.event_amount;
    result = rec.recorded_as;
  }

  transfer_reserved-Transferred :
      w.tx ≡ active t (reserved_db d0 reservation.key)
      → transfer_reserved env user_id from_wallet_id reservation.key.id req w ≡ (ok r, w')
      → Transferred user_id from_wallet_id key req d0 r w'.committed
  unfolding transfer_reserved
  transfer_reserved-Transferred opened h0 =
      let (reference, w1, s1, h1) = bind-ok _ _ h0 in
      let same1 = generate_reference-ok env w opened "TRF" s1 in
      let (given, w2, s2, h2) = bind-ok _ _ h1 in
      let made =
        transfer_with_metadata_tx-Made env
          (transfer_params user_id from_wallet_id reservation.key.id reference req) t
          (reserved_db d0 reservation.key) w1 (ap (λ (x : World). x.tx) same1 ∙ opened)
          (recover-ok _ _ (λ e x f. fail_transfer-never env reservation.key.id e x f) s2) in
      let rec =
        record_transfer-Recorded env user_id reservation.key.id req given fresh.nonzero t _ w2
          made.left h2 in
      subst (λ x. Transferred user_id from_wallet_id key req d0 x w'.committed) (sym rec.same)
        (Transferred-parts reference given w2 made rec)

module _ (env : Env) (user_id : ℕ) (key : String) (req : TransferRequest) where
  transfer_in_tx-cases :
      (from_wallet_id t : ℕ) (d0 : Db) (w : World) {r : TransferResponse} {w' : World}
      → w.tx ≡ active t d0
      → transfer_in_tx env user_id from_wallet_id key req w ≡ (ok r, w')
      → (w'.committed ≡ w.committed) ⊎ Transferred user_id from_wallet_id key req d0 r w'.committed
  unfolding transfer_in_tx resolve_existing_transfer
  transfer_in_tx-cases from_wallet_id t d0 w {r} {w'} opened h0 =
      let (reservation, w1, s1, h1) = bind-ok _ _ h0 in
      let kept : w1.committed ≡ w.committed =
        sym (ap (λ (x : Result IdempotencyReserveResult × World). x.1.committed) s1)
        ∙ (Quiet-reserve env user_id wallet_transfer key (Payload.transfer req)).at w in
      elim (Bool-cases reservation.is_new) [
        | inl new ↦
            let fresh =
              reserve-Fresh env user_id wallet_transfer key (Payload.transfer req) t d0 w opened new
                s1 in
            inr (
              transfer_reserved-Transferred env user_id from_wallet_id key req t d0 reservation w1
                w1 fresh fresh.left (rw new at h1))
        | inr old ↦ inl (kept_by_read reservation w1 (rw old at h1) ∙ kept)
      ]
    where
      kept_by_read :
          (x : IdempotencyReserveResult) (v : World)
          → resolve_existing_transfer env x v ≡ (ok r, w')
          → w'.committed ≡ v.committed
      kept_by_read x v h =
          sym (ap (λ (y : Result TransferResponse × World). y.1.committed) h)
          ∙ (Quiet-resolve_existing _ x.key.resource_id x.key.status
                (Quiet-get_transfer_by_id env)).at
              v

  -- A transfer that returns has changed nothing, or it has been carried out for the user's wallet.
  pub transfer-cases :
      (w : World) {r : TransferResponse} {w' : World}
      → transfer_with_idempotency env user_id key req w ≡ (ok r, w')
      → (w'.committed ≡ w.committed)
        ⊎ ((from_wallet : Wallet) × (find? (has_user user_id) w.committed.wallets
              ≡ some from_wallet)
            × Transferred user_id from_wallet.id key req w.committed r w'.committed)
  unfolding transfer_with_idempotency
  transfer-cases w {r} {w'} h0 =
      let (_, h1) = raise_if-then _ _ _ h0 in
      let (x, w1, s1, h2) = bind-ok _ _ h1 in
      let (row, found, e, kept1) =
        get_wallet_by_user_id-ok env user_id w (recover-ok _ _ (λ e v f. cc f) s1) in
      let (_, h3) = raise_if-then _ _ _ h2 in
      let (_, w2, s2, h4) = bind-ok _ _ h3 in
      let (opened, kept2, _) = begin_tx-ok env w1 s2 in
      let (v, inside, kept3, _) = with_rollback-ok _ h4 in
      conclude row x w1 w2 v found e kept1 kept2 kept3
        (transfer_in_tx-cases x.id (env.now w1.clock) w1.committed w2 opened inside)
    where
      conclude :
          (row : Wallet) (x : WalletResponse) (w1 w2 v : World)
          → find? (has_user user_id) w.committed.wallets ≡ some row
          → x ≡ wallet_response row
          → w1.committed ≡ w.committed
          → w2.committed ≡ w1.committed
          → w'.committed ≡ v.committed
          → (v.committed ≡ w2.committed)
            ⊎ Transferred user_id x.id key req w1.committed r v.committed
          → (w'.committed ≡ w.committed)
            ⊎ ((from_wallet : Wallet) × (find? (has_user user_id) w.committed.wallets
                  ≡ some from_wallet)
                × Transferred user_id from_wallet.id key req w.committed r w'.committed)
      conclude row x w1 w2 v found e k1 k2 k3 (inl same) = inl (k3 ∙ same ∙ k2 ∙ k1)
      conclude row x w1 w2 v found e k1 k2 k3 (inr done) = inr (
        row,
        found,
        subst (λ c. Transferred user_id row.id key req w.committed r c) (sym k3)
            (subst (λ c. Transferred user_id row.id key req c r v.committed) k1
              (subst (λ i. Transferred user_id i key req w1.committed r v.committed)
                (ap (λ (y : WalletResponse). y.id) e) done)),
      )
