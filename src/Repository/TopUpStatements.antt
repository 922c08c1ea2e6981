-- ===== src/Repository/TopUpStatements.antt =====
-- The statements on `top_up_orders`: the tables after each that returns.
use go_ewallet_backend.Prelude.{
  ℕ, ◌≡◌, sym, subst, true, false, Option, some, [], ◌∷◌, ◌++◌, arith, String,
}
use go_ewallet_backend.Prelude.Int.{ℤ}
use go_ewallet_backend.Prelude.Table.{find?, any, update_where}
use go_ewallet_backend.Model.{Db, TopUpOrder, TopUpRow, CreateTopUpRequest, has_id}
use go_ewallet_backend.Runtime.{Env, World, active, ok, Stmt, Runner, run_on}
use go_ewallet_backend.Runtime.Inversion.{Ran, in_tx-then, or_raise-then, pure-ok}
use go_ewallet_backend.Repository.Column.{not_positive}
use go_ewallet_backend.Repository.Ledger.{has_order_id}
use go_ewallet_backend.Repository.TopUp.{
  scan_row, scan_top_up_order, order_row, insert_order, select_order_of, mark_successful, confirmed,
  is_order_of,
}

module _ (env : Env) (f : Stmt (Option TopUpRow)) (t : ℕ) (d : Db) (w : World) {o : TopUpOrder}
    {w' : World} where
  -- The order that comes back is a row of the statement's.
  pub scan_row-ok :
      w.tx ≡ active t d
      → scan_row env Runner.tx_runner f w ≡ (ok o, w')
      → (row : TopUpRow) × Ran f t d w (some row) w' × (o ≡ scan_top_up_order row)
  unfolding scan_row run_on
  scan_row-ok opened h0 =
      let (found, w1, ran, h1) = in_tx-then env _ _ t d opened h0 in
      let (row, e, h2) = or_raise-then _ _ _ h1 in
      let (same, e') = pure-ok h2 in (row, move found row w1 e (sym e') ran, same)
    where
      move :
          (found : Option TopUpRow) (row : TopUpRow) (w1 : World)
          → found ≡ some row
          → w1 ≡ w'
          → Ran f t d w found w1
          → Ran f t d w (some row) w'
      move found row w1 e e' ran =
          subst (λ x. Ran f t d w x w') e (subst (λ x. Ran f t d w found x) e' ran)

module _ {t : ℕ} {d : Db} {w : World} {row : TopUpRow} {v : World} where
  pub select_order_of-done :
      (user_id : ℕ) (reference : String)
      (r : Ran (select_order_of user_id reference) t d w (some row) v)
      → (r.done ≡ d) × (find? (is_order_of user_id reference d.wallets) d.top_up_orders ≡ some row)
  unfolding select_order_of
  select_order_of-done user_id reference r = (ground (arith, r.ran), ground (arith, r.ran))

  pub mark_successful-done :
      (id : ℕ) (external description : String) (before after : ℤ)
      (r : Ran (mark_successful id external description before after) t d w (some row) v)
      → (r.done ≡ record d {
        top_up_orders =
            update_where
              (has_order_id id)
              (confirmed t external description before after)
              d.top_up_orders;
      })
        × (find? (has_order_id id) (
              update_where
                (has_order_id id)
                (confirmed t external description before after)
                d.top_up_orders)
            ≡ some row)
  unfolding mark_successful
  mark_successful-done id external description before after r =
      (ground (arith, r.ran), ground (arith, r.ran))

  pub insert_order-done :
      (wallet_id key_id : ℕ) (reference : String) (req : CreateTopUpRequest)
      (r : Ran (insert_order wallet_id key_id reference req) t d w (some row) v)
      → (row ≡ order_row row.id t wallet_id key_id reference req)
        × (r.done ≡ record d { top_up_orders = d.top_up_orders ++ row ∷ [] })
        × (any (has_order_id row.id) d.top_up_orders ≡ false)
        × (not_positive req.amount ≡ false)
        × (any (has_id wallet_id) d.wallets ≡ true)
  unfolding insert_order
  insert_order-done wallet_id key_id reference req r = (
    ground (arith, r.ran),
    ground (arith, r.ran),
    ground (arith, r.ran),
    ground (arith, r.ran),
    ground (arith, r.ran),
  )
