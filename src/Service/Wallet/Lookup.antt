-- ===== src/Service/Wallet/Lookup.antt =====
-- The wallet that a call reads before its transaction.
use go_ewallet_backend.Prelude.{ℕ, ◌≡◌, sym, ◌∙◌, ap, Option, some, arith}
use go_ewallet_backend.Prelude.Table.{find?}
use go_ewallet_backend.Model.{Wallet, WalletResponse, has_user}
use go_ewallet_backend.Runtime.{Env, World, ok, on_db}
use go_ewallet_backend.Runtime.Inversion.{bind-ok, or_raise-then, pure-ok}
use go_ewallet_backend.Repository.Wallet.Balances.{
  get_wallet_by_user_id, select_by_user, wallet_response,
}

select_by_user-ok :
    (env : Env) (user_id : ℕ) (w : World) {row : Option Wallet} {w' : World}
    → on_db env (select_by_user user_id) w ≡ (ok row, w')
    → (row ≡ find? (has_user user_id) w.committed.wallets) × (w'.committed ≡ w.committed)
unfolding on_db select_by_user
select_by_user-ok env user_id w h = (ground arith, ground arith)

-- It is the user's row among the committed wallets, and reading it changes nothing.
pub get_wallet_by_user_id-ok :
    (env : Env) (user_id : ℕ) (w : World) {x : WalletResponse} {w' : World}
    → get_wallet_by_user_id env user_id w ≡ (ok x, w')
    → (row : Wallet) × (find? (has_user user_id) w.committed.wallets ≡ some row)
      × (x ≡ wallet_response row)
      × (w'.committed ≡ w.committed)
unfolding get_wallet_by_user_id
get_wallet_by_user_id-ok env user_id w h0 =
    let (row, w1, s1, h1) = bind-ok _ _ h0 in
    let (found, kept) = select_by_user-ok env user_id w s1 in
    let (wallet, some_row, h2) = or_raise-then _ _ _ h1 in
    let (e, same) = pure-ok h2 in
    (wallet, sym found ∙ some_row, e, ap (λ (v : World). v.committed) same ∙ kept)
