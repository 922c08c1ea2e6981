-- ===== src/Service/Wallet/Requests/Refinement.antt =====
-- internal/service/wallet.go: the calls that write, against the bank's accounts.
use go_ewallet_backend.Prelude.{
  ℕ, String, ◌≡◌, refl, sym, ◌∙◌, ap, true, false, ◌&&◌, some, List, [], ◌∷◌, ◌==◌, arith, inl, inr,
  ==_iff,
}
use go_ewallet_backend.Prelude.Int.{ℤ, pos, ◌+ℤ◌, ◌-ℤ◌, ◌≤ℤ◌}
use go_ewallet_backend.Prelude.Table.{find?, any, find?-holds}
use go_ewallet_backend.Model.{
  Db, Wallet, TransferRequest, TransferResponse, ConfirmTopUpRequest, TopUpOrder, TopUpRow, has_id,
  has_user,
}
use go_ewallet_backend.Runtime.{Env, World, Result, ok, err}
use go_ewallet_backend.Repository.Wallet.Funding.{funded}
use go_ewallet_backend.Service.Books.{IsSound, IsConsistent}
use go_ewallet_backend.Service.Books.Rows.{UniqueIds, find?-row_id}
use go_ewallet_backend.Service.Wallet.Atomicity.{transfer-atomic}
use go_ewallet_backend.Service.Wallet.Requests.{Request, serve, serve_all}
use go_ewallet_backend.Service.Wallet.Requests.Sound.{serve-IsSound}
use go_ewallet_backend.Repository.Ledger.{has_order_id}
use go_ewallet_backend.Repository.TopUp.{is_order_of, scan_top_up_order}
use go_ewallet_backend.Service.Amount.{validate_and_apply_top_up}
use go_ewallet_backend.Service.Reservation.Fresh.{reserved_db}
use go_ewallet_backend.Service.Wallet.TopUp.{create_top_up, confirm_top_up}
use go_ewallet_backend.Service.Wallet.TopUp.Books.{Funded-found, Funded-wallets, Funded-in_range}
use go_ewallet_backend.Service.Wallet.TopUp.Confirmed.{Funded}
use go_ewallet_backend.Service.Wallet.TopUp.Opened.{committed-by-create}
use go_ewallet_backend.Service.Wallet.TopUp.Outcome.{Confirmation}
use go_ewallet_backend.Service.Wallet.TopUp.Promise.{committed-by-confirm, Confirmation-row}
use go_ewallet_backend.Service.Wallet.Transfer.{transfer_with_idempotency}
use go_ewallet_backend.Service.Wallet.Transfer.Receipt.{Receipt, transfer-pays}
use mathlib.Core.Option
use go_ewallet_backend.Service.Wallet.Requests.Bank.{
  accounts_of, account, Step, idle, moves, pays_in, Steps, done, next, same_account, put, put_both,
  put_one,
}

Receipt-Step :
    {user_id : ℕ} {key : String} {req : TransferRequest} {d : Db} {r : TransferResponse} {c : Db}
    → IsConsistent d
    → Receipt user_id req d r c
    → Step (Request.send user_id key req) (accounts_of d) (accounts_of c)
Receipt-Step {user_id} {req} {d} {c} books x =
    let s = x.sender in
    let owner : s.user_id ≡ user_id =
      same_account s.user_id user_id (find?-holds (has_user user_id) {x = s} d.wallets x.sent_by) in
    let found = find?-row_id (has_user user_id) d.wallets books.unique x.sent_by in
    moves s.id x.recipient.user_id s.balance x.recipient.balance x.distinct x.amount.0 x.covered
      (ap (Option.map account) found ∙ ap (λ u. some (u, s.balance)) owner)
      (ap (Option.map account) x.sent_to)
      (put_both (accounts_of d) (accounts_of c) s.id req.to_wallet_id user_id x.recipient.user_id _
        _ (ap (Option.map account) x.sender_now ∙ ap (λ u. some (u, s.balance -ℤ req.amount)) owner)
        (ap (Option.map account) x.recipient_now)
        (λ k other. ap (Option.map account) (x.others k other)))

same_accounts : {d c : Db} → c ≡ d → (k : ℕ) → accounts_of c k ≡ accounts_of d k
same_accounts e k = ap (λ x. accounts_of x k) e

module _ (env : Env) (user_id : ℕ) (key : String) (req : TransferRequest) (w : World)
    (books : IsConsistent w.committed) where
  transfer-Step :
      (o : Result TransferResponse × World)
      → transfer_with_idempotency env user_id key req w ≡ o
      → Step (Request.send user_id key req) (accounts_of w.committed) (accounts_of o.1.committed)
  transfer-Step (err e, v) h = idle (
      same_accounts (
        ap (λ (y : Result TransferResponse × World). y.1.committed) (sym h)
        ∙ transfer-atomic env w user_id key req
            (ap (λ (y : Result TransferResponse × World). y.0) h)))
  transfer-Step (ok r, v) h = elim (transfer-pays env user_id key req w books h) [
    | inl same ↦ idle (same_accounts same)
    | inr x ↦ Receipt-Step books x
  ]

any_and :
    (u k : ℕ) (ws : List Wallet)
    → any (has_id k) ws ≡ false
    → any (λ (x : Wallet). x.id == k && x.user_id == u) ws ≡ false
any_and u k [] h = refl
any_and u k (x ∷ ws) h = ground (arith, any_and u k ws)

-- The user of an order's wallet.
owner_of_row :
    (u k : ℕ) {w : Wallet} (ws : List Wallet)
    → any (λ (x : Wallet). x.id == k && x.user_id == u) ws ≡ true
    → UniqueIds ws
    → find? (has_id k) ws ≡ some w
    → (w.user_id == u) ≡ true
owner_of_row u k [] h unique found = cc
owner_of_row u k {w} (x ∷ ws) h unique found =
    ground (arith, owner_of_row u k {w = w} ws, ==_iff x.id k, any_and u k ws)

paid_amount : (b a after : ℤ) → validate_and_apply_top_up b a ≡ ok after → pos 1 ≤ℤ a
unfolding validate_and_apply_top_up
paid_amount b a after h = ground arith

module _ {user_id : ℕ} {reference key : String} {req : ConfirmTopUpRequest} {d : Db}
    {r : TopUpOrder} {c : Db} (sound : IsSound d) where
  Funded-Step :
      {key_id t : ℕ} {row : TopUpRow}
      → find? (has_order_id row.id) d.top_up_orders ≡ some row
      → is_order_of user_id reference d.wallets row ≡ true
      → Funded key_id req (scan_top_up_order row) t d r c
      → Step (Request.confirm_order user_id reference key req) (accounts_of d) (accounts_of c)
  unfolding scan_top_up_order
  Funded-Step {t} {row} is_row theirs x =
      let owner : x.wallet.user_id ≡ user_id = same_account x.wallet.user_id user_id (
        owner_of_row user_id row.wallet_id {w = x.wallet} d.wallets (ground (arith, theirs))
          sound.0.unique (Funded-found is_row x)) in
      pays_in row.wallet_id x.wallet.balance row.amount
        (paid_amount x.wallet.balance row.amount x.after x.valid)
        (Funded-in_range is_row x sound.0).1
        (ap (Option.map account) (Funded-found is_row x)
          ∙ ap (λ u. some (u, x.wallet.balance)) owner)
        (λ j.
          ap (λ ws. Option.map account (find? (has_id j) ws)) (Funded-wallets is_row x)
          ∙ put_one d.wallets (funded t row.amount) row.wallet_id (λ w. refl)
              (Funded-found is_row x) j
          ∙ ap (λ u. put row.wallet_id u (x.wallet.balance +ℤ row.amount) (accounts_of d) j) owner)

Confirmation-Step :
    {user_id : ℕ} {reference key : String} {req : ConfirmTopUpRequest} {d : Db} {r : TopUpOrder}
    {c : Db}
    → IsSound d
    → Confirmation user_id reference key req d r c
    → Step (Request.confirm_order user_id reference key req) (accounts_of d) (accounts_of c)
Confirmation-Step {user_id} {reference} {d = d} sound x = elim x.outcome [
  | inl (_, _, same) ↦ idle (λ k. ap (λ y. accounts_of y k) same)
  | inr (_, y) ↦
      Funded-Step {d = reserved_db d x.reservation.key} sound (Confirmation-row x sound)
        (find?-holds (is_order_of user_id reference d.wallets) {x = x.row} d.top_up_orders x.found)
        y
]

-- From tables that are in order, a request changes the accounts as the bank allows it to, or not
-- at all, whatever fails on the way.
pub serve-Step :
    (env : Env) (r : Request) (w : World)
    → IsSound w.committed
    → Step r (accounts_of w.committed) (accounts_of (serve env r w).committed)
serve-Step env (Request.send user_id key req) w sound =
    transfer-Step env user_id key req w sound.0 (transfer_with_idempotency env user_id key req w)
      refl
serve-Step env (Request.open_order user_id key req) w sound =
    committed-by-create env user_id key req w
      (λ c. Step (Request.open_order user_id key req) (accounts_of w.committed) (accounts_of c))
      (idle (λ k. refl)) (λ r c x. idle (λ k. ap (λ y. accounts_of y k) x.opened.result))
      (create_top_up env user_id key req w) refl
serve-Step env (Request.confirm_order user_id reference key req) w sound =
    committed-by-confirm env user_id reference key req w
      (λ c.
        Step (Request.confirm_order user_id reference key req) (accounts_of w.committed)
          (accounts_of c))
      (idle (λ k. refl)) (λ r c x. Confirmation-Step sound x)
      (confirm_top_up env user_id reference key req w) refl

-- From tables that are in order, any sequence of requests with any faults in between acts on the
-- accounts as the bank does: each request leaves them alone, or is a transfer that moves its
-- amount, which is positive and covered, from an account of the user to the other one that it names,
-- or a confirmation that pays a positive amount into an account of the user.
pub serve_all-Steps :
    (rs : List (Env × Request)) (w : World)
    → IsSound w.committed
    → Steps rs (accounts_of w.committed) (accounts_of (serve_all rs w).committed)
serve_all-Steps [] w sound = done
serve_all-Steps ((env, r) ∷ rs) w sound =
    next (serve-Step env r w sound)
      (serve_all-Steps rs (serve env r w) (serve-IsSound env r w sound))
