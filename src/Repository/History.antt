-- ===== src/Repository/History.antt =====
-- The queries that page through a user's records: `TransferHistory` of internal/repository/wallet.go,
-- `History` of ledger.go and topup.go, and `GetActiveSessionsByUserID` of refresh_token.go.
pub mod Pages
use go_ewallet_backend.Prelude.{
  ℕ, Bool, ◌&&◌, ◌||◌, not, Option, List, ◌++◌, ◌==◌, ltb, leb, if◌then◌else◌, map,
}
use go_ewallet_backend.Prelude.Int.{ℤ, pos, pos_part, ltb_ℤ}
use go_ewallet_backend.Prelude.Int64.{sub64, mul64}
use go_ewallet_backend.Prelude.Ordered.{sort_by}
use go_ewallet_backend.Prelude.Paging.{take, drop}
use go_ewallet_backend.Prelude.Table.{any, select_where}
use go_ewallet_backend.Model.{
  Db, Wallet, TransferRow, TransferHistory, TopUpRow, TopUpOrder, LedgerRow, LedgerEntryHistory,
  RefreshToken, DeviceSessionResponse,
}
use go_ewallet_backend.Runtime.{
  DbError, Error, Result, ok, err, Env, Exec, pure, gets, ◌>>=◌, Stmt, update, on_db, query,
}
use go_ewallet_backend.Repository.Column.{string_or_empty}
use go_ewallet_backend.Repository.TopUp.{scan_top_up_order}
use go_ewallet_backend.Repository.Wallet.Balances.{get_wallet_by_user_id}
use mathlib.Core.List.{Perm}

-- The order in which the database comes upon rows, at the n-th request. Where ORDER BY leaves rows
-- equal, it decides.
pub record Planner : Type 1 where
  pub arrange : {A : Type 0} → ℕ → List A → List A
  pub arrange-perm : {A : Type 0} (n : ℕ) (xs : List A) → Perm (arrange n xs) xs

-- `(page-1)*limit`
unfoldable pub offset_of : ℤ → ℤ → ℤ
offset_of page limit = mul64 (sub64 page (pos 1)) limit

-- `LIMIT $2 OFFSET $3`
abbrev pub paged : {A : Type 0} → ℤ → ℤ → List A → Result (List A)
paged limit offset xs =
    if ltb_ℤ limit (pos 0) || ltb_ℤ offset (pos 0)
    then err (Error.db DbError.invalid_row_count)
    else ok (take (pos_part limit) (drop (pos_part offset) xs))

abbrev pub with_tables : {A : Type 0} → Db → Result A → Result (A × Db)
with_tables d (ok a) = ok (a, d)
with_tables d (err e) = err e

unfoldable pub select_page : {A : Type 0} → ℤ → ℤ → (Db → List A) → Stmt (List A)
select_page limit offset rows = update (λ t d. with_tables d (paged limit offset (rows d)))

-- `ORDER BY created_at DESC`
abbrev pub newer_transfer : TransferRow → TransferRow → Bool
newer_transfer a b = leb b.created_at a.created_at

abbrev pub newer_order : TopUpRow → TopUpRow → Bool
newer_order a b = leb b.created_at a.created_at

-- `ORDER BY l.created_at DESC, l.id DESC`
abbrev pub newer_entry : LedgerRow → LedgerRow → Bool
newer_entry a b = ltb b.created_at a.created_at || (b.created_at == a.created_at && leb b.id a.id)

abbrev pub sent_by : ℕ → TransferRow → Bool
sent_by wallet_id r = r.from_wallet_id == wallet_id

abbrev pub received_by : ℕ → TransferRow → Bool
received_by wallet_id r = r.to_wallet_id == wallet_id

-- `UNION ALL`
abbrev pub transfers_of : ℕ → Db → List TransferRow
transfers_of wallet_id d =
    select_where (sent_by wallet_id) d.transfers ++ select_where (received_by wallet_id) d.transfers

abbrev pub transfer_history_row : TransferRow → TransferHistory
transfer_history_row r = record {
  id = r.id;
  from_wallet_id = r.from_wallet_id;
  to_wallet_id = r.to_wallet_id;
  amount = r.amount;
  reference_id = r.reference_id;
  status = r.status;
  description = string_or_empty r.description;
  created_at = r.created_at;
}

unfoldable pub transfer_history : Env → Planner → ℕ → ℤ → ℤ → Exec (List TransferHistory)
transfer_history env planner user_id page limit = do
  wallet ← get_wallet_by_user_id env user_id
  n ← gets (λ w. w.clock)
  rows ← on_db env (
      select_page limit (offset_of page limit)
        (λ d. sort_by newer_transfer (planner.arrange n (transfers_of wallet.id d))))
  pure (map transfer_history_row rows)

-- `JOIN wallets w ON w.id = …wallet_id WHERE w.user_id = $1`
abbrev pub is_wallet_of : ℕ → List Wallet → ℕ → Bool
is_wallet_of user_id ws wallet_id = any (λ w. w.id == wallet_id && w.user_id == user_id) ws

abbrev pub orders_of : ℕ → Db → List TopUpRow
orders_of user_id d = select_where (λ r. is_wallet_of user_id d.wallets r.wallet_id) d.top_up_orders

unfoldable pub top_up_history : Env → Planner → ℕ → ℤ → ℤ → Exec (List TopUpOrder)
top_up_history env planner user_id page limit = do
  n ← gets (λ w. w.clock)
  rows ← on_db env (
      select_page limit (offset_of page limit)
        (λ d. sort_by newer_order (planner.arrange n (orders_of user_id d))))
  pure (map scan_top_up_order rows)

abbrev pub entries_of : ℕ → Db → List LedgerRow
entries_of user_id d =
    select_where (λ r. is_wallet_of user_id d.wallets r.wallet_id) d.ledger_entries

abbrev pub ledger_history_row : LedgerRow → LedgerEntryHistory
ledger_history_row r = record {
  id = r.id;
  wallet_id = r.wallet_id;
  reference_id = r.reference_id;
  transaction_type = r.transaction_type;
  direction = r.direction;
  amount = r.amount;
  balance_before = r.balance_before;
  balance_after = r.balance_after;
  description = string_or_empty r.description;
  transfer_id = r.transfer_id;
  top_up_order_id = r.top_up_order_id;
  created_at = r.created_at;
}

unfoldable pub ledger_history : Env → Planner → ℕ → ℤ → ℤ → Exec (List LedgerEntryHistory)
ledger_history env planner user_id page limit = do
  n ← gets (λ w. w.clock)
  rows ← on_db env (
      select_page limit (offset_of page limit)
        (λ d. sort_by newer_entry (planner.arrange n (entries_of user_id d))))
  pure (map ledger_history_row rows)

-- `WHERE user_id = $1 AND is_revoked = FALSE AND expires_at > NOW()`
abbrev pub is_active_at : ℕ → ℕ → RefreshToken → Bool
is_active_at now user_id r = r.user_id == user_id && not r.is_revoked && ltb now r.expires_at

-- `ORDER BY last_used_at DESC`
abbrev pub later_used : RefreshToken → RefreshToken → Bool
later_used a b = leb b.last_used_at a.last_used_at

abbrev pub session_row : RefreshToken → DeviceSessionResponse
session_row r = record {
  id = r.id;
  device_id = r.device_id;
  user_agent = r.user_agent;
  ip_address = r.ip_address;
  is_revoked = r.is_revoked;
  expires_at = r.expires_at;
  created_at = r.created_at;
  last_used_at = r.last_used_at;
}

unfoldable pub select_sessions : Planner → ℕ → ℕ → Stmt (List RefreshToken)
select_sessions planner n user_id = query λ now d.
    sort_by later_used
      (planner.arrange n (select_where (is_active_at now user_id) d.refresh_tokens))

unfoldable pub get_active_sessions_by_user_id :
    Env → Planner → ℕ → Exec (List DeviceSessionResponse)
get_active_sessions_by_user_id env planner user_id = do
  n ← gets (λ w. w.clock)
  rows ← on_db env (select_sessions planner n user_id)
  pure (map session_row rows)
