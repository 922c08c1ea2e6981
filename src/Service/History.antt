-- ===== src/Service/History.antt =====
-- internal/service/wallet.go: the calls that read (`GetBalance`, `GetWallet`,
-- `GetHistoryTransfer`, `GetTopUpOrders`, `GetLedgerEntries`).
pub mod Listed
pub mod Walk
use go_ewallet_backend.Prelude.{ℕ, List}
use go_ewallet_backend.Prelude.Int.{ℤ}
use go_ewallet_backend.Model.{WalletResponse, TransferHistory, TopUpOrder, LedgerEntryHistory}
use go_ewallet_backend.Runtime.{Env, Exec}
use go_ewallet_backend.Repository.History.{
  Planner, transfer_history, top_up_history, ledger_history,
}
use go_ewallet_backend.Repository.Wallet.Balances
use go_ewallet_backend.Repository.Wallet.Balances.{get_wallet_by_user_id}

-- An error of the repository is handed on as it is.
unfoldable pub get_balance : Env → ℕ → Exec ℤ
get_balance env user_id = Balances.get_balance env user_id

unfoldable pub get_wallet : Env → ℕ → Exec WalletResponse
get_wallet env user_id = get_wallet_by_user_id env user_id

unfoldable pub get_history_transfer : Env → Planner → ℕ → ℤ → ℤ → Exec (List TransferHistory)
get_history_transfer env planner user_id page limit =
    transfer_history env planner user_id page limit

unfoldable pub get_top_up_orders : Env → Planner → ℕ → ℤ → ℤ → Exec (List TopUpOrder)
get_top_up_orders env planner user_id page limit = top_up_history env planner user_id page limit

unfoldable pub get_ledger_entries : Env → Planner → ℕ → ℤ → ℤ → Exec (List LedgerEntryHistory)
get_ledger_entries env planner user_id page limit = ledger_history env planner user_id page limit
