-- ===== src/Service/Books/Rows.antt =====
-- Wallet rows under the updates of their balances.
use go_ewallet_backend.Prelude.{
  ℕ, ◌≡◌, refl, Bool, false, some, List, [], ◌∷◌, ◌==◌, arith, if◌then◌else◌, ==_iff,
}
use go_ewallet_backend.Prelude.Int.{ℤ, pos, ◌+ℤ◌, int_laws}
use go_ewallet_backend.Prelude.Table.{find?, any, update_where, update_where-none, any_of_find?}
use go_ewallet_backend.Model.{Wallet, has_id}
use mathlib.Core.Option

-- The primary key of `wallets`.
abbrev pub UniqueIds : List Wallet → Type 0
UniqueIds [] = Unit
UniqueIds (w ∷ ws) = (any (has_id w.id) ws ≡ false) × UniqueIds ws

-- A row that any condition finds is the one that its id finds.
pub find?-row_id :
    (p : Wallet → Bool) {w : Wallet} (ws : List Wallet)
    → UniqueIds ws
    → find? p ws ≡ some w
    → find? (has_id w.id) ws ≡ some w
find?-row_id p [] u h = cc
find?-row_id p {w} (x ∷ ws) u h =
    ground (
      arith,
      find?-row_id p {w = w} ws u.1,
      any_of_find? (has_id w.id) {x = w} ws,
      ==_iff x.id w.id,
    )

module _ (f : Wallet → Wallet) (keep : (w : Wallet) → (f w).id ≡ w.id) where
  -- A lookup after an update of one row.
  pub find?-update :
      (k j : ℕ) (ws : List Wallet)
      → find? (has_id k) (update_where (has_id j) f ws)
        ≡ (if k == j then Option.map f (find? (has_id k) ws) else find? (has_id k) ws)
  find?-update k j [] = ground arith
  find?-update k j (w ∷ ws) = ground (arith, keep w, find?-update k j ws)

  pub any-update :
      (k j : ℕ) (ws : List Wallet)
      → any (has_id k) (update_where (has_id j) f ws) ≡ any (has_id k) ws
  any-update k j [] = refl
  any-update k j (w ∷ ws) = ground (arith, keep w, any-update k j ws)

  pub update-UniqueIds :
      (j : ℕ) (ws : List Wallet) → UniqueIds ws → UniqueIds (update_where (has_id j) f ws)
  update-UniqueIds j [] u = tt
  update-UniqueIds j (w ∷ ws) u =
      ground (arith, keep w, any-update w.id j ws, update-UniqueIds j ws u.1)

-- All the money in the wallets.
abbrev pub total_balance : List Wallet → ℤ
total_balance [] = pos 0
total_balance (w ∷ ws) = w.balance +ℤ total_balance ws

-- Updating one row changes the total by the change of that row.
pub total_balance-update :
    (f : Wallet → Wallet) (k : ℕ) {w : Wallet} (ws : List Wallet)
    → UniqueIds ws
    → find? (has_id k) ws ≡ some w
    → total_balance (update_where (has_id k) f ws) +ℤ w.balance ≡ total_balance ws +ℤ (f w).balance
total_balance-update f k [] u h = cc
total_balance-update f k {w} (x ∷ ws) u h =
    grind (int_laws, update_where-none (has_id k) f ws, total_balance-update f k {w = w} ws u.1)
