-- ===== src/Service/Wallet/TopUp/Promise.antt =====
-- What a confirmation does to the books, whatever happens inside.
use go_ewallet_backend.Prelude.{
  ℕ, ◌≡◌, refl, sym, ◌∙◌, ap, subst, false, some, List, [], ◌∷◌, String, inl, inr, ◌⊎◌, ◌==◌, arith,
}
use go_ewallet_backend.Prelude.Int.{ℤ, ◌+ℤ◌, int_laws, pos_part, neg_part}
use go_ewallet_backend.Prelude.Table.{find?, update_where}
use go_ewallet_backend.Model.{
  Db, Wallet, IdempotencyKey, TopUpOrder, TopUpRow, Status, ConfirmTopUpRequest, has_id, success,
}
use go_ewallet_backend.Runtime.{Env, World, Result, ok, err}
use go_ewallet_backend.Repository.Ledger.{has_order_id}
use go_ewallet_backend.Repository.TopUp.{scan_top_up_order, is_order_of, confirmed}
use go_ewallet_backend.Repository.Wallet.Funding.{funded}
use go_ewallet_backend.Service.Books.{IsConsistent, IsSound}
use go_ewallet_backend.Service.Books.Orders.{find?-order_id, find?-updated_order}
use go_ewallet_backend.Service.Books.Rows.{find?-update, total_balance, total_balance-update}
use go_ewallet_backend.Service.Reservation.Fresh.{reserved_db}
use go_ewallet_backend.Service.Wallet.Atomicity.{confirm_top_up-atomic}
use go_ewallet_backend.Service.Wallet.TopUp.{confirm_top_up, confirm_description}
use go_ewallet_backend.Service.Wallet.TopUp.Books.{
  Funded-IsConsistent, Funded-UniqueOrders, Funded-returned, Funded-wallets, Funded-after,
  Funded-orders, Funded-found, some_inj,
}
use go_ewallet_backend.Service.Wallet.TopUp.Confirmed.{Funded}
use mathlib.Core.Option
use go_ewallet_backend.Service.Wallet.TopUp.Outcome.{Confirmation, confirm-cases}

module _ {user_id : ℕ} {reference key : String} {req : ConfirmTopUpRequest} {d₀ : Db}
    {r : TopUpOrder} {c : Db} where
  pub Confirmation-row :
      (x : Confirmation user_id reference key req d₀ r c)
      → IsSound d₀
      → find? (has_order_id x.row.id) d₀.top_up_orders ≡ some x.row
  Confirmation-row x sound =
      find?-order_id (is_order_of user_id reference d₀.wallets) d₀.top_up_orders sound.1 x.found

  Confirmation-status :
      (x : Confirmation user_id reference key req d₀ r c) {row : TopUpRow}
      → find? (is_order_of user_id reference d₀.wallets) d₀.top_up_orders ≡ some row
      → (scan_top_up_order x.row).status ≡ row.status
  unfolding scan_top_up_order
  Confirmation-status x found = ap (λ (o : TopUpRow). o.status) (some_inj (sym x.found ∙ found))

  Confirmation-IsSound : Confirmation user_id reference key req d₀ r c → IsSound d₀ → IsSound c
  Confirmation-IsSound x sound = elim x.outcome [
    | inl (_, _, same) ↦ subst IsSound (sym same) sound
    | inr (_, paid) ↦
        let is_row = Confirmation-row x sound in
        (
          Funded-IsConsistent {d = reserved_db d₀ x.reservation.key} is_row paid sound.0,
          Funded-UniqueOrders {d = reserved_db d₀ x.reservation.key} is_row paid sound.1,
        )
  ]

module _ (env : Env) (user_id : ℕ) (reference key : String) (req : ConfirmTopUpRequest)
    (w : World) where
  -- To know what a confirmation commits it is enough to know what it commits under a new key.
  pub committed-by-confirm :
      (P : Db → Type 0)
      → P w.committed
      → ((r : TopUpOrder) (c : Db) → Confirmation user_id reference key req w.committed r c → P c)
      → (o : Result TopUpOrder × World) → confirm_top_up env user_id reference key req w ≡ o
      → P o.1.committed
  committed-by-confirm P before after (err e, v) h =
      subst P
        (sym (
          ap (λ (y : Result TopUpOrder × World). y.1.committed) (sym h)
          ∙ confirm_top_up-atomic env w user_id reference key req
              (ap (λ (y : Result TopUpOrder × World). y.0) h)))
        before
  committed-by-confirm P before after (ok r, v) h =
      elim (confirm-cases env user_id reference key req w h) [
        | inl same ↦ subst P (sym same) before
        | inr x ↦ after r v.committed x
      ]

  -- Whatever fails, a confirmation keeps the books (ids unique, every balance in range and equal
  -- to the net of its ledger entries) and the ids of the orders unique.
  pub confirm_top_up-IsSound :
      IsSound w.committed → IsSound (confirm_top_up env user_id reference key req w).1.committed
  confirm_top_up-IsSound sound =
      committed-by-confirm IsSound sound (λ r c x. Confirmation-IsSound x sound)
        (confirm_top_up env user_id reference key req w) refl

  -- An order that is marked successful is never paid again: a confirmation of it leaves wallets,
  -- ledger and orders as they were, whatever its key.
  pub confirm_top_up-once :
      (row : TopUpRow)
      → find? (is_order_of user_id reference w.committed.wallets) w.committed.top_up_orders
        ≡ some row
      → row.status ≡ success
      → let c = (confirm_top_up env user_id reference key req w).1.committed in
        (c.wallets ≡ w.committed.wallets)
        × (c.ledger_entries ≡ w.committed.ledger_entries)
        × (c.top_up_orders ≡ w.committed.top_up_orders)
  confirm_top_up-once row found paid =
      committed-by-confirm
        (λ c.
          (c.wallets ≡ w.committed.wallets)
          × (c.ledger_entries ≡ w.committed.ledger_entries)
          × (c.top_up_orders ≡ w.committed.top_up_orders))
        (refl, refl, refl)
        (λ r c x. elim x.outcome [
          | inl (_, _, same) ↦ (
            ap (λ (d : Db). d.wallets) same,
            ap (λ (d : Db). d.ledger_entries) same,
            ap (λ (d : Db). d.top_up_orders) same,
          )
          | inr (pending, _) ↦ cc (pending, paid, Confirmation-status x found)
        ])
        (confirm_top_up env user_id reference key req w) refl

module _ (row : TopUpRow) (d : Db) (r : TopUpOrder) (c : Db) where
  -- The committed tables hold the amount on the order's wallet, and nowhere else, and the order,
  -- paid, with the balances before and after; the response is that order.
  pub record Receipt : Type 0 where
    pub time : ℕ
    pub wallet : Wallet
    pub order : TopUpRow
    pub holder : find? (has_id row.wallet_id) d.wallets ≡ some wallet
    pub wallet_now :
        find? (has_id row.wallet_id) c.wallets
        ≡ some (record wallet { balance = wallet.balance +ℤ row.amount; updated_at = time })
    pub other_wallets :
        (k : ℕ)
        → (k == row.wallet_id) ≡ false
        → find? (has_id k) c.wallets ≡ find? (has_id k) d.wallets
    pub order_now : find? (has_order_id row.id) c.top_up_orders ≡ some order
    pub other_orders :
        (k : ℕ)
        → (k == row.id) ≡ false
        → find? (has_order_id k) c.top_up_orders ≡ find? (has_order_id k) d.top_up_orders
    pub paid : order.status ≡ success
    pub belongs : (order.wallet_id ≡ row.wallet_id) × (order.amount ≡ row.amount)
    pub before : order.balance_before ≡ some wallet.balance
    pub after : order.balance_after ≡ some (wallet.balance +ℤ row.amount)
    pub returned : r ≡ scan_top_up_order order
    pub total : total_balance c.wallets ≡ total_balance d.wallets +ℤ row.amount

-- Another order is left alone by the update of one.
find?-other_order :
    (f : TopUpRow → TopUpRow) (keep : (o : TopUpRow) → (f o).id ≡ o.id) (k j : ℕ)
    (os : List TopUpRow)
    → (k == j) ≡ false
    → find? (has_order_id k) (update_where (has_order_id j) f os) ≡ find? (has_order_id k) os
find?-other_order f keep k j [] other = refl
find?-other_order f keep k j (o ∷ os) other =
    ground (arith, keep o, find?-other_order f keep k j os other)

pub Funded-Receipt :
    {key_id t : ℕ} {req : ConfirmTopUpRequest} {row : TopUpRow} {d : Db} {r : TopUpOrder} {c : Db}
    (is_row : find? (has_order_id row.id) d.top_up_orders ≡ some row)
    (x : Funded key_id req (scan_top_up_order row) t d r c)
    → IsConsistent d
    → Receipt row d r c
unfolding scan_top_up_order
Funded-Receipt {t = t} {req = req} {row = row} {d = d} is_row x books =
    let mark =
      confirmed t req.external_reference (confirm_description req (scan_top_up_order row))
        x.wallet.balance x.after in
    let ws = Funded-wallets is_row x in
    let os = Funded-orders is_row x in
    record {
      time = t;
      wallet = x.wallet;
      order = mark row;
      holder = x.wallet_found;
      wallet_now =
          ap (find? (has_id row.wallet_id)) ws
          ∙ find?-update (funded t row.amount) (λ w. refl) row.wallet_id row.wallet_id d.wallets
          ∙ ground (arith, x.wallet_found);
      other_wallets = λ k other.
          ap (find? (has_id k)) ws
          ∙ find?-update (funded t row.amount) (λ w. refl) k row.wallet_id d.wallets
          ∙ rw other refl;
      order_now =
          ap (find? (has_order_id row.id)) os
          ∙ find?-updated_order mark (λ o. refl) row.id d.top_up_orders
          ∙ ap (Option.map mark) is_row;
      other_orders = λ k other.
          ap (find? (has_order_id k)) os
          ∙ find?-other_order mark (λ o. refl) k row.id d.top_up_orders other;
      paid = refl;
      belongs = (refl, refl);
      before = refl;
      after = ap some (Funded-after is_row x books);
      returned = Funded-returned is_row x;
      total = rw ws (
          added _ _ x.wallet.balance row.amount (
            total_balance-update (funded t row.amount) row.wallet_id {w = x.wallet} d.wallets
              books.unique (Funded-found is_row x)));
    }
  where
    added : (x y b a : ℤ) → x +ℤ b ≡ y +ℤ (b +ℤ a) → x ≡ y +ℤ a
    added x y b a h = omega (int_laws, ap pos_part h, ap neg_part h)

-- The reservation does not show in the receipt.
Receipt-committed :
    (k : IdempotencyKey) {row : TopUpRow} {d : Db} {r : TopUpOrder} {c : Db}
    → Receipt row (reserved_db d k) r c
    → Receipt row d r c
Receipt-committed k x = record {
  time = x.time;
  wallet = x.wallet;
  order = x.order;
  holder = x.holder;
  wallet_now = x.wallet_now;
  other_wallets = x.other_wallets;
  order_now = x.order_now;
  other_orders = x.other_orders;
  paid = x.paid;
  belongs = x.belongs;
  before = x.before;
  after = x.after;
  returned = x.returned;
  total = x.total;
}

-- A confirmation of a pending order that returns, where the books were in order, has either
-- changed nothing, or put the order's amount, all of it and only it, on the balance of the order's
-- wallet, left every other wallet and every other order alone, and marked the order successful with
-- the balances before and after; the response is that order.
pub confirm_top_up-pays :
    (env : Env) (user_id : ℕ) (reference key : String) (req : ConfirmTopUpRequest) (w : World)
    (row : TopUpRow) {r : TopUpOrder} {w' : World}
    → IsSound w.committed
    → find? (is_order_of user_id reference w.committed.wallets) w.committed.top_up_orders ≡ some row
    → row.status ≡ Status.pending
    → confirm_top_up env user_id reference key req w ≡ (ok r, w')
    → (w'.committed ≡ w.committed) ⊎ Receipt row w.committed r w'.committed
confirm_top_up-pays env user_id reference key req w row {r} {w'} sound found pending h =
    elim (confirm-cases env user_id reference key req w h) [
      | inl same ↦ inl same
      | inr x ↦ elim x.outcome [
        | inl (paid, _, _) ↦ cc (paid, pending, Confirmation-status x found)
        | inr (_, y) ↦ inr (
            subst (λ (o : TopUpRow). Receipt o w.committed r w'.committed)
              (some_inj (sym x.found ∙ found))
              (Receipt-committed _ (
                Funded-Receipt {d = reserved_db w.committed x.reservation.key}
                  (Confirmation-row x sound) y sound.0)))
      ]
    ]
