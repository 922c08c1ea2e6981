-- ===== src/Repository/Wallet/Statements.antt =====
-- The statements of `TransferWithMetadataTx` that write: the tables after each that returns.
use go_ewallet_backend.Prelude.{ℕ, ◌≡◌, true, false, List, [], ◌∷◌, ◌++◌, arith}
use go_ewallet_backend.Prelude.Int.{ℤ}
use go_ewallet_backend.Prelude.Table.{update_where, any, select_where}
use go_ewallet_backend.Model.{Db, Wallet, has_id}
use go_ewallet_backend.Runtime.{World, ok}
use go_ewallet_backend.Runtime.Inversion.{Ran}
use go_ewallet_backend.Repository.Column.{not_positive}
use go_ewallet_backend.Repository.Wallet.Balances.{
  with_balance, plus, minus, all_fit, subtract_by_id, add_by_id,
}
use go_ewallet_backend.Repository.Wallet.Transfers.{
  TransferRequestParams, select_locked, insert_transfer, transfer_row, has_transfer_key,
  add_transfer,
}

abbrev pub debited : ℕ → ℤ → List Wallet → List Wallet
debited id amount ws = update_where (has_id id) (with_balance (minus amount)) ws

abbrev pub credited : ℕ → ℤ → List Wallet → List Wallet
credited id amount ws = update_where (has_id id) (with_balance (plus amount)) ws

module _ (id : ℕ) (amount : ℤ) {t : ℕ} {d : Db} {w : World} {n : ℕ} {v : World} where
  pub subtract_by_id-done :
      (r : Ran (subtract_by_id id amount) t d w n v)
      → (r.done ≡ record d { wallets = debited id amount d.wallets })
        × (all_fit (has_id id) (minus amount) d.wallets ≡ true)
  unfolding subtract_by_id
  subtract_by_id-done r = ground (arith, r.ran)

  pub add_by_id-done :
      (r : Ran (add_by_id id amount) t d w n v)
      → (r.done ≡ record d { wallets = credited id amount d.wallets })
        × (all_fit (has_id id) (plus amount) d.wallets ≡ true)
  unfolding add_by_id
  add_by_id-done r = ground (arith, r.ran)

-- A row that the constraints of `transfers` let in.
pub add_transfer-ok :
    (row : _) (d : Db) {d' : Db}
    → add_transfer row d ≡ ok d'
    → (d' ≡ record d { transfers = d.transfers ++ row ∷ [] })
      × (not_positive row.amount ≡ false)
      × (any (has_transfer_key row.idempotency_key_id) d.transfers ≡ false)
add_transfer-ok row d h = ground arith

module _ (params : TransferRequestParams) (sb sa rb ra : ℤ) {t : ℕ} {d : Db} {w : World}
    {ids : ℕ × ℕ} {v : World} where
  pub insert_transfer-done :
      (r : Ran (insert_transfer params sb sa rb ra) t d w ids v)
      → (ids.1 ≡ t)
        × (r.done
            ≡ record d { transfers = d.transfers ++ transfer_row ids.0 t params sb sa rb ra ∷ [] })
        × (not_positive params.amount ≡ false)
        × (any (has_transfer_key params.idempotency_key_id) d.transfers ≡ false)
  unfolding insert_transfer
  insert_transfer-done r = ground (arith, r.ran)

pub select_locked-done :
    (a b : ℕ) {t : ℕ} {d : Db} {w : World} {ws : List Wallet} {v : World}
    (r : Ran (select_locked a b) t d w ws v)
    → (r.done ≡ d) × (ws ≡ select_where (has_id a) d.wallets ++ select_where (has_id b) d.wallets)
unfolding select_locked
select_locked-done a b r = ground (arith, r.ran)
