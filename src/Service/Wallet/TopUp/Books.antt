-- ===== src/Service/Wallet/TopUp/Books.antt =====
-- The books under a confirmation.
use go_ewallet_backend.Prelude.{ℕ, ◌≡◌, refl, sym, ◌∙◌, ap, true, false, some, [], ◌∷◌, ◌++◌, arith}
use go_ewallet_backend.Prelude.Int.{ℤ, pos, ◌+ℤ◌, ◌≤ℤ◌, leb_ℤ, leb_ℤ→gt, int_laws}
use go_ewallet_backend.Prelude.Int64.{fits_int64, max_int64}
use go_ewallet_backend.Prelude.Table.{find?, update_where}
use go_ewallet_backend.Model.{Db, TopUpOrder, TopUpRow, ConfirmTopUpRequest, has_id}
use go_ewallet_backend.Runtime.{ok}
use go_ewallet_backend.Repository.Ledger.{ledger_row, has_order_id}
use go_ewallet_backend.Repository.TopUp.{scan_top_up_order, confirmed}
use go_ewallet_backend.Repository.Wallet.Balances.{plus}
use go_ewallet_backend.Repository.Wallet.Funding.{funded, all_fit-found}
use go_ewallet_backend.Service.Amount.{validate_and_apply_top_up}
use go_ewallet_backend.Service.Amount.Bounds.{IsBalance, add64-eq}
use go_ewallet_backend.Service.Books.{IsConsistent}
use go_ewallet_backend.Service.Books.Orders.{UniqueOrders, find?-updated_order, update-UniqueOrders}
use go_ewallet_backend.Service.Books.Paid.{Agree-move}
use go_ewallet_backend.Service.Wallet.TopUp.{top_up_entry, confirm_description}
use go_ewallet_backend.Service.Wallet.TopUp.Confirmed.{Funded}
use mathlib.Core.Option

-- What the guards of a top up leave.
IsBalance-funded :
    (b a after : ℤ)
    → IsBalance b
    → validate_and_apply_top_up b a ≡ ok after
    → fits_int64 (b +ℤ a) ≡ true
    → IsBalance (b +ℤ a)
unfolding validate_and_apply_top_up
IsBalance-funded b a after h valid fits =
    let positive : leb_ℤ a (pos 0) ≡ false = ground arith in
    let fits' : b +ℤ a ≤ℤ max_int64 = ground arith in
    (omega (int_laws, leb_ℤ→gt a (pos 0) positive), fits')

-- The balance after is the exact sum.
funded_after :
    (b a after : ℤ)
    → IsBalance b
    → validate_and_apply_top_up b a ≡ ok after
    → IsBalance (b +ℤ a)
    → after ≡ b +ℤ a
unfolding validate_and_apply_top_up
funded_after b a after h valid fits =
    let positive : leb_ℤ a (pos 0) ≡ false = ground arith in
    let exact =
      add64-eq b a h (omega (arith, leb_ℤ→gt a (pos 0) positive), omega (int_laws, fits.1, h.0))
        fits.1 in
    ground (arith, exact)

pub some_inj : {x y : TopUpRow} → some x ≡ some y → x ≡ y
some_inj h = ground arith

module _ {key_id t : ℕ} {req : ConfirmTopUpRequest} {row : TopUpRow} {d : Db} {r : TopUpOrder}
    {c : Db} (is_row : find? (has_order_id row.id) d.top_up_orders ≡ some row)
    (x : Funded key_id req (scan_top_up_order row) t d r c) where
  -- The order that comes back is the one found, marked.
  pub Funded-returned :
      r
      ≡ scan_top_up_order (
          confirmed t req.external_reference
            (confirm_description req (scan_top_up_order row))
            x.wallet.balance
            x.after
            row)
  unfolding scan_top_up_order
  Funded-returned =
      let mark =
        confirmed t req.external_reference (confirm_description req (scan_top_up_order row))
          x.wallet.balance x.after in
      let e : some x.paid.row ≡ some (mark row) =
        sym x.paid.marked
        ∙ find?-updated_order mark (λ o. refl) row.id d.top_up_orders
        ∙ ap (Option.map mark) is_row in
      x.paid.returned ∙ ap scan_top_up_order (some_inj e)

  pub Funded-wallets :
      c.wallets ≡ update_where (has_id row.wallet_id) (funded t row.amount) d.wallets
  unfolding scan_top_up_order
  Funded-wallets = ap (λ (y : Db). y.wallets) x.paid.result

  pub Funded-orders :
      c.top_up_orders
      ≡ update_where
          (has_order_id row.id)
          (confirmed t req.external_reference
            (confirm_description req (scan_top_up_order row))
            x.wallet.balance
            x.after)
          d.top_up_orders
  unfolding scan_top_up_order
  Funded-orders = ap (λ (y : Db). y.top_up_orders) x.paid.result

  pub Funded-ledger :
      c.ledger_entries
      ≡ d.ledger_entries
        ++ ledger_row x.paid.entry_id t (
            top_up_entry r x.wallet.balance x.after
              (confirm_description req (scan_top_up_order row)))
          ∷ []
  Funded-ledger = ap (λ (y : Db). y.ledger_entries) x.paid.result

  pub Funded-found : find? (has_id row.wallet_id) d.wallets ≡ some x.wallet
  unfolding scan_top_up_order
  Funded-found = x.wallet_found

  pub Funded-in_range : IsConsistent d → IsBalance (x.wallet.balance +ℤ row.amount)
  unfolding scan_top_up_order
  Funded-in_range books =
      IsBalance-funded x.wallet.balance row.amount x.after
        (books.in_range row.wallet_id x.wallet Funded-found) x.valid
        (all_fit-found row.wallet_id (plus row.amount) d.wallets x.paid.fits Funded-found)

  pub Funded-after : IsConsistent d → x.after ≡ x.wallet.balance +ℤ row.amount
  unfolding scan_top_up_order
  Funded-after books =
      funded_after x.wallet.balance row.amount x.after
        (books.in_range row.wallet_id x.wallet Funded-found) x.valid (Funded-in_range books)

  pub Funded-IsConsistent : IsConsistent d → IsConsistent c
  unfolding scan_top_up_order
  Funded-IsConsistent books =
      let wallet_eq : r.wallet_id ≡ row.wallet_id =
        ap (λ (y : TopUpOrder). y.wallet_id) Funded-returned in
      let amount_eq : r.amount ≡ row.amount = ap (λ (y : TopUpOrder). y.amount) Funded-returned in
      rw (Funded-wallets, Funded-ledger, ← wallet_eq)
        (Agree-move d.wallets d.ledger_entries (funded t row.amount) (λ w. refl)
          (ledger_row x.paid.entry_id t (
            top_up_entry r x.wallet.balance x.after
              (confirm_description req (scan_top_up_order row))))
          (λ w. rw amount_eq refl) x.wallet books (rw wallet_eq Funded-found)
          (Funded-in_range books))

  pub Funded-UniqueOrders : UniqueOrders d.top_up_orders → UniqueOrders c.top_up_orders
  Funded-UniqueOrders unique =
      rw Funded-orders (update-UniqueOrders _ (λ o. refl) row.id d.top_up_orders unique)
