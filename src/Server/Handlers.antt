-- ===== src/Server/Handlers.antt =====
-- internal/handler: what the handlers do to the books and the money.
use go_ewallet_backend.Prelude.{ℕ, String, Option, none, some}
use go_ewallet_backend.Prelude.Int.{ℤ}
use go_ewallet_backend.Model.{
  RegisterRequest, RefreshTokenRequest, TransferRequest, CreateTopUpRequest, ConfirmTopUpRequest,
}
use go_ewallet_backend.Runtime.{Env, World, Error}
use go_ewallet_backend.Runtime.Atomicity.{Quiet, quiet_rules}
use go_ewallet_backend.Repository.History.{Planner}
use go_ewallet_backend.Service.Auth.{Crypto}
use go_ewallet_backend.Service.Auth.Money.{Frugal-login, Frugal-refresh, Frugal-revoke_device}
use go_ewallet_backend.Handler.Auth
use go_ewallet_backend.Handler.Auth.{Client, LoginRequestBody}
use go_ewallet_backend.Handler.Wallet
use go_ewallet_backend.Handler.Wallet.{Caller, Paging, positive_int, default_query}
use go_ewallet_backend.Handler.Numbers.{atoi}
use go_ewallet_backend.Server.Reads.{
  Quiet-get_wallet, Quiet-get_history_transfer, Quiet-get_top_up_orders, Quiet-get_ledger_entries,
  Quiet-get_active_devices, Quiet-profile,
}
use go_ewallet_backend.Server.Orderly.{Proper, proper_rules}
use go_ewallet_backend.Handler.Replies.{Reply}

module _ {A : Type 0} (call : ℤ → ℤ → World → Reply A × World)
    (h : (page limit : ℤ) → Proper (call page limit)) where
  Proper-with_page : (page limit : Option ℤ) → Proper (Wallet.with_page call page limit)
  Proper-with_page none limit = search proper_rules
  Proper-with_page (some page) none = search proper_rules
  Proper-with_page (some page) (some limit) = h page limit

  pub Proper-with_paging : (paging : Paging) → Proper (Wallet.with_paging call paging)
  unfolding Wallet.with_paging
  Proper-with_paging paging =
      Proper-with_page (positive_int (default_query paging.page "1"))
        (positive_int (default_query paging.limit "10"))

module _ (texts : Error → String) (env : Env) where
  pub Proper-transfer_handler :
      (caller : Caller) (req : Option TransferRequest)
      → Proper (Wallet.transfer texts env caller req)
  unfolding Wallet.transfer
  Proper-transfer_handler caller none = search proper_rules
  Proper-transfer_handler caller (some req) = search proper_rules

  pub Proper-create_handler :
      (caller : Caller) (req : Option CreateTopUpRequest)
      → Proper (Wallet.create_top_up texts env caller req)
  unfolding Wallet.create_top_up
  Proper-create_handler caller none = search proper_rules
  Proper-create_handler caller (some req) = search proper_rules

  pub Proper-confirm_handler :
      (caller : Caller) (reference_id : String) (req : Option ConfirmTopUpRequest)
      → Proper (Wallet.confirm texts env caller reference_id req)
  unfolding Wallet.confirm
  Proper-confirm_handler caller reference_id none = search proper_rules
  Proper-confirm_handler caller reference_id (some req) = search proper_rules

  pub Proper-register_handler :
      (crypto : Crypto) (req : Option RegisterRequest) → Proper (Auth.register texts env crypto req)
  unfolding Auth.register
  Proper-register_handler crypto none = search proper_rules
  Proper-register_handler crypto (some req) = search proper_rules

  pub Proper-login :
      (crypto : Crypto) (client : Client) (req : Option LoginRequestBody)
      → Proper (Auth.login texts env crypto client req)
  unfolding Auth.login
  Proper-login crypto client none = search proper_rules
  Proper-login crypto client (some req) = search (proper_rules, Frugal-login)

  Proper-exchange :
      (crypto : Crypto) (client : Client) (req : Option RefreshTokenRequest)
      → Proper (Auth.exchange texts env crypto client req)
  unfolding Auth.exchange
  Proper-exchange crypto client none = search proper_rules
  Proper-exchange crypto client (some req) = search (proper_rules, Frugal-refresh)

  pub Proper-refresh :
      (crypto : Crypto) (client : Client) (req : Option RefreshTokenRequest)
      → Proper (Auth.refresh texts env crypto client req)
  unfolding Auth.refresh
  Proper-refresh crypto client req = Proper-exchange crypto client (Auth.bound req)

  pub Proper-profile : (user_id : ℕ) → Proper (Auth.profile texts env user_id)
  unfolding Auth.profile
  Proper-profile user_id = search (proper_rules, Quiet-profile)

  pub Proper-get_devices :
      (planner : Planner) (user_id : ℕ) → Proper (Auth.get_devices texts env planner user_id)
  unfolding Auth.get_devices
  Proper-get_devices planner user_id = search (proper_rules, Quiet-get_active_devices)

  pub Proper-show_balance : (caller : Caller) → Proper (Wallet.show_balance texts env caller)
  unfolding Wallet.show_balance
  Proper-show_balance caller = search (proper_rules, Quiet-get_wallet)

  Proper-revoke_session :
      (user_id : ℕ) (session_id : Option ℤ)
      → Proper (Auth.revoke_session texts env user_id session_id)
  unfolding Auth.revoke_session
  Proper-revoke_session user_id none = search proper_rules
  Proper-revoke_session user_id (some n) = search (proper_rules, Frugal-revoke_device)

  pub Proper-revoke_device :
      (user_id : ℕ) (param : String) → Proper (Auth.revoke_device texts env user_id param)
  unfolding Auth.revoke_device
  Proper-revoke_device user_id param = Proper-revoke_session user_id (atoi param)

  pub Proper-list_top_ups :
      (planner : Planner) (caller : Caller) (paging : Paging)
      → Proper (Wallet.list_top_ups texts env planner caller paging)
  unfolding Wallet.list_top_ups
  Proper-list_top_ups planner caller paging =
      search (Proper-with_paging, proper_rules, Quiet-get_top_up_orders)

  pub Proper-list_ledger :
      (planner : Planner) (caller : Caller) (paging : Paging)
      → Proper (Wallet.list_ledger texts env planner caller paging)
  unfolding Wallet.list_ledger
  Proper-list_ledger planner caller paging =
      search (Proper-with_paging, proper_rules, Quiet-get_ledger_entries)

  Quiet-transfer_page :
      (planner : Planner) (caller : Caller) (paging : Paging) (page limit : ℤ)
      → Quiet (Wallet.transfer_page texts env planner caller paging page limit)
  Quiet-transfer_page planner caller paging page limit =
      search (quiet_rules, Quiet-get_history_transfer) depth 20

  pub Proper-list_transfers :
      (planner : Planner) (caller : Caller) (paging : Paging)
      → Proper (Wallet.list_transfers texts env planner caller paging)
  unfolding Wallet.list_transfers
  Proper-list_transfers planner caller paging =
      search (Proper-with_paging, proper_rules, Quiet-transfer_page)
