-- ===== src/Service/Books/Orders.antt =====
-- Top up orders under a confirmation.
use go_ewallet_backend.Prelude.{ℕ, ◌≡◌, refl, Bool, false, some, List, [], ◌∷◌, ◌++◌, arith, ==_iff}
use go_ewallet_backend.Prelude.Table.{find?, any, update_where, any_of_find?, any-append}
use go_ewallet_backend.Model.{TopUpRow}
use go_ewallet_backend.Repository.Ledger.{has_order_id}
use mathlib.Core.Option

-- The primary key of `top_up_orders`.
abbrev pub UniqueOrders : List TopUpRow → Type 0
UniqueOrders [] = Unit
UniqueOrders (o ∷ os) = (any (has_order_id o.id) os ≡ false) × UniqueOrders os

-- A row that any condition finds is the one that its id finds.
pub find?-order_id :
    (p : TopUpRow → Bool) {r : TopUpRow} (os : List TopUpRow)
    → UniqueOrders os
    → find? p os ≡ some r
    → find? (has_order_id r.id) os ≡ some r
find?-order_id p [] u h = cc
find?-order_id p {r} (x ∷ os) u h = ground (
  arith,
  find?-order_id p {r = r} os u.1,
  any_of_find? (has_order_id r.id) {x = r} os,
  ==_iff x.id r.id,
)

module _ (f : TopUpRow → TopUpRow) (keep : (o : TopUpRow) → (f o).id ≡ o.id) where
  -- The row of an updated order is the order's row, updated.
  pub find?-updated_order :
      (k : ℕ) (os : List TopUpRow)
      → find? (has_order_id k) (update_where (has_order_id k) f os)
        ≡ Option.map f (find? (has_order_id k) os)
  find?-updated_order k [] = refl
  find?-updated_order k (o ∷ os) = ground (arith, keep o, find?-updated_order k os)

  any-updated_order :
      (k j : ℕ) (os : List TopUpRow)
      → any (has_order_id k) (update_where (has_order_id j) f os) ≡ any (has_order_id k) os
  any-updated_order k j [] = refl
  any-updated_order k j (o ∷ os) = ground (arith, keep o, any-updated_order k j os)

  pub update-UniqueOrders :
      (j : ℕ) (os : List TopUpRow)
      → UniqueOrders os
      → UniqueOrders (update_where (has_order_id j) f os)
  update-UniqueOrders j [] u = tt
  update-UniqueOrders j (o ∷ os) u =
      ground (arith, keep o, any-updated_order o.id j os, update-UniqueOrders j os u.1)

pub append-UniqueOrders :
    (os : List TopUpRow) (o : TopUpRow)
    → any (has_order_id o.id) os ≡ false
    → UniqueOrders os
    → UniqueOrders (os ++ o ∷ [])
append-UniqueOrders [] o h u = (refl, tt)
append-UniqueOrders (x ∷ os) o h u =
    ground (arith, append-UniqueOrders os o, any-append (has_order_id x.id) os o, ==_iff x.id o.id)
