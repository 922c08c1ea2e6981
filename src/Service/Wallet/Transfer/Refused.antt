-- ===== src/Service/Wallet/Transfer/Refused.antt =====
-- A transfer under a used key, on a server whose transactions do not outlive a failed statement.
use go_ewallet_backend.Prelude.{ℕ, String, ◌≡◌, sym, subst, true}
use go_ewallet_backend.Model.{wallet_transfer, TransferRequest, TransferResponse}
use go_ewallet_backend.Runtime.{Env, World, ok, Payload}
use go_ewallet_backend.Runtime.Inversion.{
  bind-ok, raise_if-then, recover-ok, begin_tx-ok, with_rollback-ok,
}
use go_ewallet_backend.Service.Reservation.Completion.{IsUsed}
use go_ewallet_backend.Service.Reservation.Replay.{reserve-refused}
use go_ewallet_backend.Service.Wallet.Lookup.{get_wallet_by_user_id-ok}
use go_ewallet_backend.Service.Wallet.Transfer.{transfer_with_idempotency, transfer_in_tx}

-- On a server that aborts a transaction whose statement fails, a transfer under a key that its
-- user has used for transfers never returns a response.
pub transfer-refused :
    (env : Env) (user_id : ℕ) (key : String) (req : TransferRequest) (w : World)
    (r : TransferResponse) (w' : World)
    → env.aborts ≡ true
    → IsUsed user_id wallet_transfer key w.committed
    → ¬ (transfer_with_idempotency env user_id key req w ≡ (ok r, w'))
unfolding transfer_with_idempotency transfer_in_tx
transfer-refused env user_id key req w r w' strict used h0 =
    let (_, h1) = raise_if-then _ _ _ h0 in
    let (x, w1, s1, h2) = bind-ok _ _ h1 in
    let (_, _, _, kept) =
      get_wallet_by_user_id-ok env user_id w (recover-ok _ _ (λ e v f. cc f) s1) in
    let (_, h3) = raise_if-then _ _ _ h2 in
    let (_, w2, s2, h4) = bind-ok _ _ h3 in
    let (opened, _, _) = begin_tx-ok env w1 s2 in
    let (_, inside, _, _) = with_rollback-ok _ h4 in
    let (_, _, s5, _) = bind-ok _ _ inside in
    reserve-refused env user_id wallet_transfer key (Payload.transfer req) (env.now w1.clock)
      w1.committed w2 strict opened (subst (IsUsed user_id wallet_transfer key) (sym kept) used) s5
