-- ===== src/Repository/Wallet/Funding.antt =====
-- The statements that confirm a top up on its wallet.
use go_ewallet_backend.Prelude.{ℕ, ◌≡◌, sym, ◌∙◌, ap, true, Option, some, List, [], ◌∷◌, arith}
use go_ewallet_backend.Prelude.Int.{ℤ}
use go_ewallet_backend.Prelude.Int64.{fits_int64}
use go_ewallet_backend.Prelude.Table.{find?, update_where}
use go_ewallet_backend.Model.{Db, Wallet, WalletBalanceSnapshot, has_id}
use go_ewallet_backend.Runtime.{Env, World, active, ok}
use go_ewallet_backend.Runtime.Inversion.{Ran, in_tx-then, or_raise-then, raise_if-ok, pure-ok}
use go_ewallet_backend.Repository.Wallet.Balances.{
  get_wallet_by_id_for_update_tx, update_balance_by_wallet_id_tx, select_by_id, add_by_id_touching,
  with_balance, touched, plus, snapshot, all_fit,
}

-- A row that an update matches has passed the range check.
pub all_fit-found :
    (k : ℕ) (f : ℤ → ℤ) {w : Wallet} (ws : List Wallet)
    → all_fit (has_id k) f ws ≡ true
    → find? (has_id k) ws ≡ some w
    → fits_int64 (f w.balance) ≡ true
all_fit-found k f [] h found = cc
all_fit-found k f {w} (x ∷ ws) h found = ground (arith, all_fit-found k f {w = w} ws)

abbrev pub funded : ℕ → ℤ → Wallet → Wallet
funded t amount w = touched t (with_balance (plus amount) w)

module _ {t : ℕ} {d : Db} {w : World} {v : World} (id : ℕ) where
  select_by_id-done :
      {row : Option Wallet} (r : Ran (select_by_id id) t d w row v)
      → (r.done ≡ d) × (row ≡ find? (has_id id) d.wallets)
  unfolding select_by_id
  select_by_id-done r = (ground (arith, r.ran), ground (arith, r.ran))

  add_by_id_touching-done :
      (amount : ℤ) {n : ℕ} (r : Ran (add_by_id_touching id amount) t d w n v)
      → (r.done ≡ record d { wallets = update_where (has_id id) (funded t amount) d.wallets })
        × (all_fit (has_id id) (plus amount) d.wallets ≡ true)
  unfolding add_by_id_touching
  add_by_id_touching-done amount r = ground (arith, r.ran)

module _ (env : Env) (id t : ℕ) (d : Db) (w : World) {w' : World} (opened : w.tx ≡ active t d) where
  pub get_wallet_by_id_for_update_tx-ok :
      {x : WalletBalanceSnapshot}
      → get_wallet_by_id_for_update_tx env id w ≡ (ok x, w')
      → (row : Wallet) × (find? (has_id id) d.wallets ≡ some row)
        × (x ≡ snapshot row)
        × (w'.tx ≡ active t d)
  unfolding get_wallet_by_id_for_update_tx
  get_wallet_by_id_for_update_tx-ok h0 =
      let (found, w1, ran, h1) = in_tx-then env _ _ t d opened h0 in
      let (same, e) = select_by_id-done id ran in
      let (row, e', h2) = or_raise-then _ _ _ h1 in
      let (x_eq, w_eq) = pure-ok h2 in
      (row, sym e ∙ e', x_eq, ap (λ (u : World). u.tx) w_eq ∙ ran.left ∙ ap (active t) same)

  pub update_balance_by_wallet_id_tx-ok :
      (amount : ℤ) {u : Unit {0}}
      → update_balance_by_wallet_id_tx env id amount w ≡ (ok u, w')
      → (w'.tx
          ≡ active t (record d { wallets = update_where (has_id id) (funded t amount) d.wallets }))
        × (all_fit (has_id id) (plus amount) d.wallets ≡ true)
  unfolding update_balance_by_wallet_id_tx
  update_balance_by_wallet_id_tx-ok amount h0 =
      let (n, w1, ran, h1) = in_tx-then env _ _ t d opened h0 in
      let (_, e) = raise_if-ok _ _ h1 in
      let (done, fits) = add_by_id_touching-done id amount ran in
      (ap (λ (u : World). u.tx) (sym e) ∙ ran.left ∙ ap (active t) done, fits)
