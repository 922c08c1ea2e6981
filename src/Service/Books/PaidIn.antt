-- ===== src/Service/Books/PaidIn.antt =====
-- The money that came in: the amounts of the top up orders that are marked successful.
use go_ewallet_backend.Prelude.{ℕ, ◌≡◌, ap, some, List, [], ◌∷◌, ◌++◌, String}
use go_ewallet_backend.Prelude.Int.{ℤ, pos, ◌+ℤ◌, int_laws, +ℤ-zero}
use go_ewallet_backend.Prelude.Table.{find?, update_where, update_where-none}
use go_ewallet_backend.Model.{TopUpRow, Status, success}
use go_ewallet_backend.Repository.Ledger.{has_order_id}
use go_ewallet_backend.Repository.TopUp.{confirmed}
use go_ewallet_backend.Service.Books.Orders.{UniqueOrders}

abbrev pub paid_amount : Status → ℤ → ℤ
paid_amount success amount = amount
paid_amount Status.pending amount = pos 0
paid_amount Status.failed amount = pos 0

abbrev pub paid_in : List TopUpRow → ℤ
paid_in [] = pos 0
paid_in (o ∷ os) = paid_amount o.status o.amount +ℤ paid_in os

-- A new order that is pending brings nothing in.
pub paid_in-append :
    (os : List TopUpRow) (o : TopUpRow)
    → o.status ≡ Status.pending
    → paid_in (os ++ o ∷ []) ≡ paid_in os
paid_in-append [] o h = rw h (+ℤ-zero (pos 0))
paid_in-append (x ∷ os) o h =
    ap (λ (s : ℤ). paid_amount x.status x.amount +ℤ s) (paid_in-append os o h)

-- A confirmation of a pending order brings its amount in.
pub paid_in-confirmed :
    (t : ℕ) (external description : String) (before after : ℤ) (k : ℕ) {row : TopUpRow}
    (os : List TopUpRow)
    → UniqueOrders os
    → find? (has_order_id k) os ≡ some row
    → row.status ≡ Status.pending
    → paid_in (update_where (has_order_id k) (confirmed t external description before after) os)
      ≡ paid_in os +ℤ row.amount
paid_in-confirmed t external description before after k [] u h p = cc
paid_in-confirmed t external description before after k {row} (x ∷ os) u h p = grind (
  int_laws,
  update_where-none (has_order_id k) (confirmed t external description before after) os,
  paid_in-confirmed t external description before after k {row = row} os u.1,
)
