-- ===== src/Service/Books.antt =====
-- What it means that wallets and ledger are in order. `wallets.balance` is a snapshot,
-- `ledger_entries` the audit trail (README.md).
pub mod Rows
pub mod Sums
pub mod Orders
pub mod PaidIn
pub mod Paid
pub mod Opened
pub mod Transferred
use go_ewallet_backend.Prelude.{ℕ, ◌≡◌, Bool, true, false, some, List}
use go_ewallet_backend.Prelude.Int.{pos}
use go_ewallet_backend.Prelude.Table.{find?, any}
use go_ewallet_backend.Model.{Db, Wallet, LedgerRow, has_id}
use go_ewallet_backend.Service.Amount.Bounds.{IsBalance}
use go_ewallet_backend.Service.Books.Orders.{UniqueOrders}
use go_ewallet_backend.Service.Books.Rows.{UniqueIds}
use go_ewallet_backend.Service.Books.Sums.{net}

-- Wallets and ledger entries that agree.
pub record Agree (ws : List Wallet) (es : List LedgerRow) : Type 0 where
  pub unique : UniqueIds ws
  pub in_range : (k : ℕ) (w : Wallet) → find? (has_id k) ws ≡ some w → IsBalance w.balance
  pub explained : (k : ℕ) (w : Wallet) → find? (has_id k) ws ≡ some w → w.balance ≡ net k es
  pub unused : (k : ℕ) → any (has_id k) ws ≡ false → net k es ≡ pos 0

abbrev pub IsConsistent : Db → Type 0
IsConsistent d = Agree d.wallets d.ledger_entries

-- The books, and orders that their ids tell apart.
abbrev pub IsSound : Db → Type 0
IsSound d = IsConsistent d × UniqueOrders d.top_up_orders
