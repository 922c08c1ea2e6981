-- ===== src/Service/Wallet/Transfer/Succeeds.antt =====
-- internal/service/wallet.go: `TransferWithIdempotency` goes through where nothing is in its way.
use go_ewallet_backend.Prelude.{
  ℕ, suc, ◌≡◌, refl, sym, ◌∙◌, ap, subst, true, some, [], ◌∷◌, ◌++◌, String, inl, inr,
}
use go_ewallet_backend.Prelude.Table.{find?, any, any_of_last}
use go_ewallet_backend.Model.{
  Db, Sequences, Wallet, TransferRequest, TransferResponse, wallet_transfer, IdempotencyKey,
  has_user,
}
use go_ewallet_backend.Runtime.{
  Env, World, Payload, ok, active, amount_not_positive, same_wallet, no_rows,
}
use go_ewallet_backend.Runtime.Reaching.{
  on_db-Reaches, Reaches, Reaches-weaken, Inside, IsReliable, bind-Reaches, value-Reaches,
  recover-Reaches, raise_if-past, or_raise-past, pure-Reaches, begin_tx-Reaches,
  with_rollback-Reaches,
}
use go_ewallet_backend.Repository.Idempotency
use go_ewallet_backend.Repository.Wallet.Balances.{
  get_wallet_by_user_id, select_by_user, wallet_response,
}
use go_ewallet_backend.Repository.Wallet.Transfers.{has_transfer_id}
use go_ewallet_backend.Service.Books.{IsConsistent}
use go_ewallet_backend.Service.Wallet.Transfer.{
  transfer_with_idempotency, transfer_in_tx, transfer_reserved, transfer_params,
}
use go_ewallet_backend.Service.Wallet.Transfer.Afforded.{
  is_positive, transfer_with_metadata_tx-Paid,
}
use go_ewallet_backend.Service.Wallet.Transfer.Ready.{
  HasNewIds, GivesReferences, IsReady, reserve-Reaches, generate_reference-Reaches,
}
use go_ewallet_backend.Service.Wallet.Transfer.Receipt.{Receipt, transfer-pays}
use go_ewallet_backend.Service.Wallet.Transfer.Recordable.{record_transfer-Reaches}
use go_ewallet_backend.Service.Wallet.Transfer.Prepared.{
  sender-Affords, transfer_params-Admits, response-Recordable, same_id,
}

abbrev SameTables : World → World → Type 0
SameTables w v = (v.committed ≡ w.committed) × (v.seq ≡ w.seq)

get_wallet_by_user_id-Reaches :
    (env : Env) (calm : IsReliable env) (user_id : ℕ) (w : World) {row : Wallet}
    → find? (has_user user_id) w.committed.wallets ≡ some row
    → Reaches
        (get_wallet_by_user_id env user_id)
        w
        (λ x v. (x ≡ wallet_response row) × SameTables w v)
unfolding get_wallet_by_user_id select_by_user
get_wallet_by_user_id-Reaches env calm user_id w {row} found =
    bind-Reaches _ _ (on_db-Reaches env calm (select_by_user user_id) refl) (λ o v (e, kept, drawn).
      or_raise-past o no_rows _ (e ∙ found)
        (pure-Reaches (wallet_response row) (refl, (kept, drawn))))

module _ (env : Env) (calm : IsReliable env) (user_id : ℕ) (key : String) (req : TransferRequest)
    (d : Db) (ready : IsReady env user_id key req d) (books : IsConsistent d)
    (given : GivesReferences env d) (t : ℕ) (s : Sequences) (ids : HasNewIds d s) where
  abbrev row_of : String → IdempotencyKey
  row_of hash = Idempotency.key_row (suc s.idempotency_keys) t user_id wallet_transfer key hash

  -- The transfer of a new reservation.
  transfer_reserved-Reaches :
      {w : World} (hash : String)
      → Inside t
          (record d { idempotency_keys = d.idempotency_keys ++ row_of hash ∷ [] })
          (record s { idempotency_keys = suc s.idempotency_keys })
          w
      → Reaches
          (transfer_reserved env user_id ready.sender.id (suc s.idempotency_keys) req)
          w
          (λ r v. any (has_transfer_id (suc s.transfers)) v.committed.transfers ≡ true)
  unfolding transfer_reserved
  transfer_reserved-Reaches {w} hash inside =
      bind-Reaches _ _ (generate_reference-Reaches env d w given) (λ reference w1 (new, same).
        value-Reaches _ _
          (recover-Reaches _ _ (
            transfer_with_metadata_tx-Paid env calm
              (transfer_params user_id ready.sender.id (suc s.idempotency_keys) reference req)
              ready.sender ready.recipient (subst (Inside t _ _) (sym same) inside)
              (transfer_params-Admits env user_id key req d ready books s reference (row_of hash)
                refl ids new)
              (sender-Affords env user_id key req d ready books)))
          (λ w2 inside2.
            Reaches-weaken
              (record_transfer-Reaches env calm user_id s.idempotency_keys req _ inside2 (
                response-Recordable env user_id key req d ready books t s ids reference
                  (row_of hash) new))
              (λ x v (_, kept).
                ap (any (has_transfer_id (suc s.transfers))) kept
                ∙ any_of_last (has_transfer_id (suc s.transfers)) d.transfers _
                    (same_id (suc s.transfers)))))

  -- The transaction, from its beginning on.
  transfer_in_tx-Reaches :
      {w : World}
      → Inside t d s w
      → Reaches
          (transfer_in_tx env user_id ready.sender.id key req)
          w
          (λ r v. any (has_transfer_id (suc s.transfers)) v.committed.transfers ≡ true)
  unfolding transfer_in_tx
  transfer_in_tx-Reaches inside =
      value-Reaches _ _
        (reserve-Reaches env calm user_id wallet_transfer key (Payload.transfer req) inside
          ready.marshalled ready.keyed ids.new_key_id ready.unused_key ready.account)
        (λ w1 inside1. transfer_reserved-Reaches (env.sha256_hex ready.text) inside1)

module _ (env : Env) (user_id : ℕ) (key : String) (req : TransferRequest) (w : World)
    (calm : IsReliable env) (ready : IsReady env user_id key req w.committed)
    (books : IsConsistent w.committed) (given : GivesReferences env w.committed)
    (ids : HasNewIds w.committed w.seq) where
  transfer-Reaches :
      Reaches
        (transfer_with_idempotency env user_id key req)
        w
        (λ r v. any (has_transfer_id (suc w.seq.transfers)) v.committed.transfers ≡ true)
  unfolding transfer_with_idempotency
  transfer-Reaches =
      raise_if-past _ amount_not_positive _
        (is_positive req.amount
          (sender-Affords env user_id key req w.committed ready books).positive)
        (value-Reaches _ _
          (recover-Reaches _ _ (get_wallet_by_user_id-Reaches env calm user_id w ready.sent_by))
          (λ w1 (kept, drawn). raise_if-past _ same_wallet _ ready.distinct (
            bind-Reaches _ _ (begin_tx-Reaches env calm w1) (λ u w2 (_, inside).
              with_rollback-Reaches _
                (transfer_in_tx-Reaches env calm user_id key req w.committed ready books given
                  (env.now w1.clock) w.seq ids
                  (record {
                    opened = inside.opened ∙ ap (active (env.now w1.clock)) kept;
                    drawn = inside.drawn ∙ drawn;
                  }))
                (λ r v h. h)))))

-- Where the user's wallet holds the amount, the recipient's has room for it, the two differ, the
-- amount is positive, the user exists, the key is given and new, the books are in order, the
-- sequences and chance give ids and references that are not in use, marshalling works and the
-- database fails no request, a transfer returns a response, and the money has moved as it says.
pub transfer-succeeds :
    (env : Env) (user_id : ℕ) (key : String) (req : TransferRequest) (w : World)
    → IsReliable env
    → IsReady env user_id key req w.committed
    → IsConsistent w.committed
    → GivesReferences env w.committed
    → HasNewIds w.committed w.seq
    → (r : TransferResponse) × (w' : World) × (transfer_with_idempotency env user_id key req w
        ≡ (ok r, w'))
      × Receipt user_id req w.committed r w'.committed
transfer-succeeds env user_id key req w calm ready books given ids =
    let x = transfer-Reaches env user_id key req w calm ready books given ids in
    (
      x.value,
      x.reached,
      x.runs,
      elim (transfer-pays env user_id key req w books x.runs) [
        | inl same ↦ cc (
          ap (λ (c : Db). any (has_transfer_id (suc w.seq.transfers)) c.transfers) same,
          x.outcome,
          ids.new_transfer,
        )
        | inr receipt ↦ receipt
      ],
    )
