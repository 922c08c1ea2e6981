-- ===== src/Service/Wallet/Requests/Money.antt =====
-- Where money comes from.
use go_ewallet_backend.Prelude.{ℕ, String, some, List, [], ◌∷◌, ◌≡◌, refl, sym, ap, subst, inl, inr}
use go_ewallet_backend.Prelude.Int.{ℤ, ◌+ℤ◌, int_laws, pos_part, neg_part}
use go_ewallet_backend.Prelude.Table.{find?}
use go_ewallet_backend.Model.{Db, TopUpRow, TopUpOrder, ConfirmTopUpRequest, Status}
use go_ewallet_backend.Runtime.{Env, World}
use go_ewallet_backend.Repository.Ledger.{has_order_id}
use go_ewallet_backend.Repository.TopUp.{scan_top_up_order}
use go_ewallet_backend.Service.Books.{IsSound}
use go_ewallet_backend.Service.Books.PaidIn.{paid_in, paid_in-append, paid_in-confirmed}
use go_ewallet_backend.Service.Books.Rows.{total_balance}
use go_ewallet_backend.Service.Reservation.Fresh.{reserved_db}
use go_ewallet_backend.Service.Wallet.Requests.{Request, serve, serve_all}
use go_ewallet_backend.Service.Wallet.Requests.Sound.{serve-IsSound}
use go_ewallet_backend.Service.Wallet.Transfer.{transfer_with_idempotency}
use go_ewallet_backend.Service.Wallet.Transfer.Books.{
  committed-by-transfer, Transferred-total, Transferred-orders,
}
use go_ewallet_backend.Service.Wallet.TopUp.{create_top_up, confirm_top_up, confirm_description}
use go_ewallet_backend.Service.Wallet.TopUp.Books.{Funded-orders}
use go_ewallet_backend.Service.Wallet.TopUp.Confirmed.{Funded}
use go_ewallet_backend.Service.Wallet.TopUp.Opened.{committed-by-create}
use go_ewallet_backend.Service.Wallet.TopUp.Outcome.{Confirmation}
use go_ewallet_backend.Service.Wallet.TopUp.Promise.{
  committed-by-confirm, Confirmation-row, Funded-Receipt,
}

-- From `d` to `c`, the balances have grown by what was paid in.
abbrev pub Backed : Db → Db → Type 0
Backed d c =
    total_balance c.wallets +ℤ paid_in d.top_up_orders
    ≡ total_balance d.wallets +ℤ paid_in c.top_up_orders

pub Backed-refl : (d : Db) → Backed d d
Backed-refl d = refl

sums_chain : (x y z p q r : ℤ) → y +ℤ p ≡ x +ℤ q → z +ℤ q ≡ y +ℤ r → z +ℤ p ≡ x +ℤ r
sums_chain x y z p q r h k =
    omega (int_laws, ap pos_part h, ap neg_part h, ap pos_part k, ap neg_part k)

pub Backed-trans : (d e c : Db) → Backed d e → Backed e c → Backed d c
Backed-trans d e c h k =
    sums_chain (total_balance d.wallets) (total_balance e.wallets) (total_balance c.wallets)
      (paid_in d.top_up_orders) (paid_in e.top_up_orders) (paid_in c.top_up_orders) h k

both_grow : (x p a : ℤ) → (x +ℤ a) +ℤ p ≡ x +ℤ (p +ℤ a)
both_grow x p a = omega int_laws

Funded-Backed :
    {key_id t : ℕ} {req : ConfirmTopUpRequest} {row : TopUpRow} {d : Db} {r : TopUpOrder} {c : Db}
    → IsSound d
    → find? (has_order_id row.id) d.top_up_orders ≡ some row
    → (scan_top_up_order row).status ≡ Status.pending
    → Funded key_id req (scan_top_up_order row) t d r c
    → Backed d c
unfolding scan_top_up_order
Funded-Backed {t = t} {req = req} {row = row} {d = d} sound is_row pending x =
    rw
      (
        (Funded-Receipt is_row x sound.0).total,
        Funded-orders is_row x,
        paid_in-confirmed t req.external_reference (confirm_description req (scan_top_up_order row))
            x.wallet.balance x.after row.id d.top_up_orders sound.1 is_row pending,
      )
      (both_grow (total_balance d.wallets) (paid_in d.top_up_orders) row.amount)

Confirmation-Backed :
    {user_id : ℕ} {reference key : String} {req : ConfirmTopUpRequest} {d₀ : Db} {r : TopUpOrder}
    {c : Db}
    → IsSound d₀
    → Confirmation user_id reference key req d₀ r c
    → Backed d₀ c
Confirmation-Backed {d₀ = d₀} sound x = elim x.outcome [
  | inl (_, _, same) ↦ subst (Backed d₀) (sym same) refl
  | inr (pending, y) ↦
      Funded-Backed {d = reserved_db d₀ x.reservation.key} sound (Confirmation-row x sound) pending
        y
]

pub serve-Backed :
    (env : Env) (r : Request) (w : World)
    → IsSound w.committed
    → Backed w.committed (serve env r w).committed
serve-Backed env (Request.send user_id key req) w sound =
    committed-by-transfer env user_id key req w (Backed w.committed) refl
      (λ i r c x. rw (Transferred-total x sound.0, Transferred-orders x) refl)
      (transfer_with_idempotency env user_id key req w) refl
serve-Backed env (Request.open_order user_id key req) w sound =
    committed-by-create env user_id key req w (Backed w.committed) refl
      (λ r c x. subst (Backed w.committed) (sym x.opened.result) (
        ap (λ (p : ℤ). total_balance w.committed.wallets +ℤ p)
          (sym (
            paid_in-append w.committed.top_up_orders x.opened.row
              (ap (λ (o : TopUpRow). o.status) x.opened.shape)))))
      (create_top_up env user_id key req w) refl
serve-Backed env (Request.confirm_order user_id reference key req) w sound =
    committed-by-confirm env user_id reference key req w (Backed w.committed) refl
      (λ r c x. Confirmation-Backed sound x) (confirm_top_up env user_id reference key req w) refl

-- Over any sequence of requests, with any faults in between, from books that are in order, the sum
-- of all balances grows by exactly the amounts of the top up orders that have become successful.
pub serve_all-Backed :
    (rs : List (Env × Request)) (w : World)
    → IsSound w.committed
    → Backed w.committed (serve_all rs w).committed
serve_all-Backed [] w sound = refl
serve_all-Backed ((env, r) ∷ rs) w sound =
    Backed-trans w.committed (serve env r w).committed (serve_all rs (serve env r w)).committed
      (serve-Backed env r w sound)
      (serve_all-Backed rs (serve env r w) (serve-IsSound env r w sound))
