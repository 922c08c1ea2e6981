-- ===== src/Service/Wallet/TopUp/Waiting.antt =====
-- What opening a top up order means for its user.
use go_ewallet_backend.Prelude.{
  ℕ, ◌≡◌, sym, ◌∙◌, ap, false, some, [], ◌∷◌, ◌++◌, arith, String, inl, inr, ◌⊎◌,
}
use go_ewallet_backend.Prelude.Int.{pos, ◌≤ℤ◌, leb_ℤ→gt}
use go_ewallet_backend.Prelude.Table.{any, find?}
use go_ewallet_backend.Model.{
  Db, Wallet, TopUpOrder, TopUpRow, CreateTopUpRequest, Status, has_user,
}
use go_ewallet_backend.Runtime.{Env, World, ok}
use go_ewallet_backend.Repository.Column.{not_positive}
use go_ewallet_backend.Repository.Ledger.{has_order_id}
use go_ewallet_backend.Repository.TopUp.{scan_top_up_order}
use go_ewallet_backend.Service.Wallet.TopUp.{with_channel, create_top_up}
use go_ewallet_backend.Service.Wallet.TopUp.Opened.{Creation, create-cases}

-- A pending order of the user's wallet with the amount asked for, and no money moved.
pub record Waiting (user_id : ℕ) (req : CreateTopUpRequest) (d : Db) (r : TopUpOrder) (c : Db)
    : Type 0 where
  pub wallet : Wallet
  pub row : TopUpRow
  pub holder : find? (has_user user_id) d.wallets ≡ some wallet
  pub returned : r ≡ scan_top_up_order row
  pub of_wallet : row.wallet_id ≡ wallet.id
  pub waits : row.status ≡ Status.pending
  pub positive : (row.amount ≡ req.amount) × (pos 1 ≤ℤ req.amount)
  pub channel : row.payment_channel ≡ (with_channel req).payment_channel
  pub is_new : any (has_order_id row.id) d.top_up_orders ≡ false
  pub orders : c.top_up_orders ≡ d.top_up_orders ++ row ∷ []
  pub nothing_moved :
      (c.wallets ≡ d.wallets)
      × (c.ledger_entries ≡ d.ledger_entries)
      × (c.outbox_events ≡ d.outbox_events)

with_channel-amount : (req : CreateTopUpRequest) → (with_channel req).amount ≡ req.amount
with_channel-amount req = ground arith

Creation-Waiting :
    {user_id : ℕ} {key : String} (req : CreateTopUpRequest) {d : Db} {r : TopUpOrder} {c : Db}
    → Creation user_id key (with_channel req) d r c
    → Waiting user_id req d r c
Creation-Waiting req x =
    let o = x.opened in
    let amount_eq = with_channel-amount req in
    let positive : not_positive req.amount ≡ false = ap not_positive (sym amount_eq) ∙ o.positive in
    record {
      wallet = x.wallet;
      row = o.row;
      holder = x.holder;
      returned = o.returned;
      of_wallet = ap (λ (y : TopUpRow). y.wallet_id) o.shape;
      waits = ap (λ (y : TopUpRow). y.status) o.shape;
      positive = (
        ap (λ (y : TopUpRow). y.amount) o.shape ∙ amount_eq,
        omega (arith, leb_ℤ→gt req.amount (pos 0) positive),
      );
      channel = ap (λ (y : TopUpRow). y.payment_channel) o.shape;
      is_new = o.id_free;
      orders = ap (λ (y : Db). y.top_up_orders) o.result;
      nothing_moved = (
        ap (λ (y : Db). y.wallets) o.result,
        ap (λ (y : Db). y.ledger_entries) o.result,
        ap (λ (y : Db). y.outbox_events) o.result,
      );
    }

-- Opening a top up order that returns has either changed nothing, or appended one pending order of
-- the user's wallet with a positive amount, the one asked for, and left wallets, ledger and outbox
-- as they were.
pub create_top_up-opens :
    (env : Env) (user_id : ℕ) (key : String) (req : CreateTopUpRequest) (w : World) {r : TopUpOrder}
    {w' : World}
    → create_top_up env user_id key req w ≡ (ok r, w')
    → (w'.committed ≡ w.committed) ⊎ Waiting user_id req w.committed r w'.committed
create_top_up-opens env user_id key req w h = elim (create-cases env user_id key req w h) [
  | inl same ↦ inl same
  | inr x ↦ inr (Creation-Waiting req x)
]
