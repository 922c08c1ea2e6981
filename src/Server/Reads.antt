-- ===== src/Server/Reads.antt =====
-- The calls of internal/service that only read.
use go_ewallet_backend.Prelude.{ℕ, List, arith}
use go_ewallet_backend.Prelude.Int.{ℤ}
use go_ewallet_backend.Model.{Db}
use go_ewallet_backend.Runtime.{Env, on_db}
use go_ewallet_backend.Runtime.Atomicity.{Quiet, quiet_rules, Quiet-on_db-query}
use go_ewallet_backend.Repository.History.{
  Planner, select_page, transfer_history, top_up_history, ledger_history,
  get_active_sessions_by_user_id, select_sessions,
}
use go_ewallet_backend.Repository.Users
use go_ewallet_backend.Repository.Wallet.Balances.{get_wallet_by_user_id, select_by_user}
use go_ewallet_backend.Service.Auth.{profile}
use go_ewallet_backend.Service.History.{
  get_wallet, get_history_transfer, get_top_up_orders, get_ledger_entries,
}
use go_ewallet_backend.Service.Sessions.{get_active_devices}

module _ (env : Env) where
  Quiet-select_page :
      {A : Type 0} (limit offset : ℤ) (rows : Db → List A)
      → Quiet (on_db env (select_page limit offset rows))
  unfolding on_db select_page
  Quiet-select_page limit offset rows = record { at = λ w. ground arith }

  ruleset read_rules = (quiet_rules, Quiet-on_db-query, Quiet-select_page)

  pub Quiet-get_wallet : (user_id : ℕ) → Quiet (get_wallet env user_id)
  unfolding get_wallet get_wallet_by_user_id select_by_user
  Quiet-get_wallet user_id = search read_rules depth 20

  pub Quiet-get_history_transfer :
      (planner : Planner) (user_id : ℕ) (page limit : ℤ)
      → Quiet (get_history_transfer env planner user_id page limit)
  unfolding get_history_transfer transfer_history get_wallet_by_user_id select_by_user
  Quiet-get_history_transfer planner user_id page limit = search read_rules depth 30

  pub Quiet-get_top_up_orders :
      (planner : Planner) (user_id : ℕ) (page limit : ℤ)
      → Quiet (get_top_up_orders env planner user_id page limit)
  unfolding get_top_up_orders top_up_history
  Quiet-get_top_up_orders planner user_id page limit = search read_rules depth 20

  pub Quiet-get_ledger_entries :
      (planner : Planner) (user_id : ℕ) (page limit : ℤ)
      → Quiet (get_ledger_entries env planner user_id page limit)
  unfolding get_ledger_entries ledger_history
  Quiet-get_ledger_entries planner user_id page limit = search read_rules depth 20

  pub Quiet-get_active_devices :
      (planner : Planner) (user_id : ℕ) → Quiet (get_active_devices env planner user_id)
  unfolding get_active_devices get_active_sessions_by_user_id select_sessions
  Quiet-get_active_devices planner user_id = search read_rules depth 20

  pub Quiet-profile : (user_id : ℕ) → Quiet (profile env user_id)
  unfolding profile Users.get_by_id Users.select_user
  Quiet-profile user_id = search read_rules depth 20
