-- ===== src/Service/Wallet/TopUp/Outcome.antt =====
-- What a confirmation that returns has committed.
use go_ewallet_backend.Prelude.{
  ℕ, ◌≡◌, sym, ◌∙◌, ap, subst, some, String, inl, inr, ◌⊎◌, Bool-cases,
}
use go_ewallet_backend.Prelude.Table.{find?}
use go_ewallet_backend.Model.{
  Db, wallet_topup_confirm, IdempotencyReserveResult, TopUpOrder, TopUpRow, Status,
  ConfirmTopUpRequest,
}
use go_ewallet_backend.Runtime.{Env, World, Payload, active, Result, ok}
use go_ewallet_backend.Runtime.Inversion.{bind-ok, begin_tx-ok, with_rollback-ok}
use go_ewallet_backend.Repository.TopUp
use go_ewallet_backend.Repository.TopUp.{scan_top_up_order, is_order_of}
use go_ewallet_backend.Service.Reservation.Fresh.{Fresh, reserve-Fresh, reserved_db}
use go_ewallet_backend.Service.Wallet.Quiet.{Quiet-reserve, Quiet-resolve_existing, Quiet-scan_row}
use go_ewallet_backend.Service.Wallet.Existing.{resolve_existing_top_up_confirm}
use go_ewallet_backend.Service.Wallet.TopUp.{confirm_in_tx, confirm_top_up}
use go_ewallet_backend.Service.Wallet.TopUp.Confirmed.{AlreadyPaid, Funded, confirm_reserved-cases}

-- A confirmation under a new key, from the committed tables `d₀` to `c`.
pub record Confirmation (user_id : ℕ) (reference key : String) (req : ConfirmTopUpRequest) (d₀ : Db)
    (r : TopUpOrder) (c : Db) : Type 0 where
  pub time : ℕ
  pub reservation : IdempotencyReserveResult
  pub reserved_in : World
  pub fresh : Fresh user_id wallet_topup_confirm key time d₀ reservation reserved_in
  pub row : TopUpRow
  pub found : find? (is_order_of user_id reference d₀.wallets) d₀.top_up_orders ≡ some row
  pub outcome :
      AlreadyPaid reservation.key.id
        (scan_top_up_order row)
        time
        (reserved_db d₀ reservation.key)
        r
        c
      ⊎ (((scan_top_up_order row).status ≡ Status.pending)
          × Funded reservation.key.id req
              (scan_top_up_order row)
              time
              (reserved_db d₀ reservation.key)
              r
              c)

module _ (env : Env) (user_id : ℕ) (reference key : String) (req : ConfirmTopUpRequest) where
  -- A used key is answered by a read.
  kept_by_read :
      (x : IdempotencyReserveResult) (v : World) {r : TopUpOrder} {w' : World}
      → resolve_existing_top_up_confirm env x v ≡ (ok r, w')
      → w'.committed ≡ v.committed
  unfolding resolve_existing_top_up_confirm TopUp.get_by_id
  kept_by_read x v h =
      sym (ap (λ (y : Result TopUpOrder × World). y.1.committed) h)
      ∙ (Quiet-resolve_existing _ x.key.resource_id x.key.status
            (λ id. Quiet-scan_row env (TopUp.select_order id))).at
          v

  confirm_in_tx-cases :
      (t : ℕ) (d₀ : Db) (w : World) {r : TopUpOrder} {w' : World}
      → w.tx ≡ active t d₀
      → confirm_in_tx env user_id reference key req w ≡ (ok r, w')
      → (w'.committed ≡ w.committed) ⊎ Confirmation user_id reference key req d₀ r w'.committed
  unfolding confirm_in_tx
  confirm_in_tx-cases t d₀ w {r} {w'} opened h0 =
      let payload = Payload.confirm_top_up reference req in
      let (reservation, w1, s1, h1) = bind-ok _ _ h0 in
      let kept : w1.committed ≡ w.committed =
        sym (ap (λ (x : Result IdempotencyReserveResult × World). x.1.committed) s1)
        ∙ (Quiet-reserve env user_id wallet_topup_confirm key payload).at w in
      elim (Bool-cases reservation.is_new) [
        | inl new ↦
            let fresh =
              reserve-Fresh env user_id wallet_topup_confirm key payload t d₀ w opened new s1 in
            let (row, found, outcome) =
              confirm_reserved-cases env user_id reservation.key.id req reference fresh.nonzero t
                (reserved_db d₀ reservation.key) w1 fresh.left (rw new at h1) in
            inr (record {
              time = t;
              reservation = reservation;
              reserved_in = w1;
              fresh = fresh;
              row = row;
              found = found;
              outcome = outcome;
            })
        | inr old ↦ inl (kept_by_read reservation w1 (rw old at h1) ∙ kept)
      ]

  -- A confirmation that returns has changed nothing, or it is one under a new key.
  pub confirm-cases :
      (w : World) {r : TopUpOrder} {w' : World}
      → confirm_top_up env user_id reference key req w ≡ (ok r, w')
      → (w'.committed ≡ w.committed)
        ⊎ Confirmation user_id reference key req w.committed r w'.committed
  unfolding confirm_top_up
  confirm-cases w {r} {w'} h0 =
      let (_, w1, s1, h1) = bind-ok _ _ h0 in
      let (opened, kept, _) = begin_tx-ok env w s1 in
      let (v, inside, kept', _) = with_rollback-ok _ h1 in
      conclude w1 v kept kept' (confirm_in_tx-cases (env.now w.clock) w.committed w1 opened inside)
    where
      conclude :
          (w1 v : World)
          → w1.committed ≡ w.committed
          → w'.committed ≡ v.committed
          → (v.committed ≡ w1.committed)
            ⊎ Confirmation user_id reference key req w.committed r v.committed
          → (w'.committed ≡ w.committed)
            ⊎ Confirmation user_id reference key req w.committed r w'.committed
      conclude w1 v k k' (inl same) = inl (k' ∙ same ∙ k)
      conclude w1 v k k' (inr done) =
          inr (subst (λ c. Confirmation user_id reference key req w.committed r c) (sym k') done)
