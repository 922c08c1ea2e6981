-- ===== src/Handler/Wallet.antt =====
-- internal/handler/wallet.go. A handler is given what gin has read of the request: the JSON body
-- (`none` where binding fails), headers, path and query parameters, and the user of the token.
use go_ewallet_backend.Prelude.{ℕ, String, Option, none, some, List, if◌then◌else◌}
use go_ewallet_backend.Prelude.Int.{ℤ, pos, leb_ℤ}
use go_ewallet_backend.Model.{
  TransferRequest, TransferResponse, CreateTopUpRequest, ConfirmTopUpRequest, TopUpOrder,
  WalletResponse, TransferHistory, LedgerEntryHistory,
}
use go_ewallet_backend.Runtime.{Error, Env, World, Exec, pure, ◌>>=◌}
use go_ewallet_backend.Repository.History.{Planner}
use go_ewallet_backend.Service.History.{
  get_wallet, get_history_transfer, get_top_up_orders, get_ledger_entries,
}
use go_ewallet_backend.Service.Wallet.Transfer.{transfer_with_idempotency}
use go_ewallet_backend.Service.Wallet.TopUp
use go_ewallet_backend.Service.Wallet.TopUp.{confirm_top_up}
use go_ewallet_backend.Handler.Numbers.{atoi}
use go_ewallet_backend.Handler.Replies.{Reply, fail_with, reply_to, map_wallet_error}

-- The user id of the token, and the `Idempotency-Key` header, which is "" where it is missing.
pub record Caller : Type 0 where
  pub user_id : ℕ
  pub idempotency_key : String

-- The query parameters `page` and `limit`.
pub record Paging : Type 0 where
  pub page : Option String
  pub limit : Option String

-- `c.DefaultQuery`
abbrev pub default_query : Option String → String → String
default_query none default = default
default_query (some s) default = s

-- `err != nil || n <= 0`
abbrev pub positive_int : String → Option ℤ
positive_int s = elim (atoi s) [ none ↦ none | some n ↦ if leb_ℤ n (pos 0) then none else some n ]

-- A history with its `X-Page` and `X-Limit` headers.
pub record TransferPage : Type 0 where
  pub x_page : String
  pub x_limit : String
  pub transfers : List TransferHistory

-- The checks that the three lists share, in front of the call for a page.
module _ {A : Type 0} (call : ℤ → ℤ → World → Reply A × World) where
  abbrev pub with_limit : ℤ → Option ℤ → World → Reply A × World
  with_limit page none w = (fail_with 400 "Invalid limit parameter", w)
  with_limit page (some limit) w = call page limit w

  abbrev pub with_page : Option ℤ → Option ℤ → World → Reply A × World
  with_page none limit w = (fail_with 400 "Invalid page parameter", w)
  with_page (some page) limit w = with_limit page limit w

  unfoldable pub with_paging : Paging → World → Reply A × World
  with_paging paging =
      with_page (positive_int (default_query paging.page "1"))
        (positive_int (default_query paging.limit "10"))

module _ (texts : Error → String) (env : Env) where
  -- How each handler replies to what its service has returned.
  abbrev pub wallet_reply : {A : Type 0} → ℕ → String → Exec A → World → Reply A × World
  wallet_reply status message call w = reply_to (map_wallet_error texts) status message (call w)

  unfoldable pub create_top_up :
      Caller → Option CreateTopUpRequest → World → Reply TopUpOrder × World
  create_top_up caller none w = (fail_with 400 "Invalid request body", w)
  create_top_up caller (some req) w =
      wallet_reply 201 "Top up order created successfully"
        (TopUp.create_top_up env caller.user_id caller.idempotency_key req) w

  unfoldable pub confirm :
      Caller → String → Option ConfirmTopUpRequest → World → Reply TopUpOrder × World
  confirm caller reference_id none w = (fail_with 400 "Invalid request body", w)
  confirm caller reference_id (some req) w =
      wallet_reply 200 "Top up confirmed successfully"
        (confirm_top_up env caller.user_id reference_id caller.idempotency_key req) w

  unfoldable pub show_balance : Caller → World → Reply WalletResponse × World
  show_balance caller w = wallet_reply 200 "" (get_wallet env caller.user_id) w

  unfoldable pub transfer : Caller → Option TransferRequest → World → Reply TransferResponse × World
  transfer caller none w = (fail_with 400 "Invalid request body", w)
  transfer caller (some req) w =
      wallet_reply 200 "Transfer successful"
        (transfer_with_idempotency env caller.user_id caller.idempotency_key req) w

  unfoldable pub list_top_ups : Planner → Caller → Paging → World → Reply (List TopUpOrder) × World
  list_top_ups planner caller paging =
      with_paging
        (λ page limit.
          wallet_reply 200 "" (get_top_up_orders env planner caller.user_id page limit))
        paging

  unfoldable pub list_ledger :
      Planner → Caller → Paging → World → Reply (List LedgerEntryHistory) × World
  list_ledger planner caller paging =
      with_paging
        (λ page limit.
          wallet_reply 200 "" (get_ledger_entries env planner caller.user_id page limit))
        paging

  -- The headers carry the parameters as they were sent.
  abbrev pub transfer_page : Planner → Caller → Paging → ℤ → ℤ → Exec TransferPage
  transfer_page planner caller paging page limit = do
    transfers ← get_history_transfer env planner caller.user_id page limit
    pure (record {
      x_page = default_query paging.page "1";
      x_limit = default_query paging.limit "10";
      transfers = transfers;
    })

  unfoldable pub list_transfers : Planner → Caller → Paging → World → Reply TransferPage × World
  list_transfers planner caller paging =
      with_paging
        (λ page limit. wallet_reply 200 "" (transfer_page planner caller paging page limit)) paging
