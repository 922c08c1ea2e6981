-- ===== src/Repository/TopUp.antt =====
-- internal/repository/topup.go
use go_ewallet_backend.Prelude.{
  ℕ, suc, String, Bool, ◌&&◌, ◌||◌, not, Option, none, some, List, [], ◌∷◌, ◌++◌, ◌==◌, str_eq,
  if◌then◌else◌,
}
use go_ewallet_backend.Prelude.Int.{ℤ}
use go_ewallet_backend.Prelude.Table.{find?, any, update_where}
use go_ewallet_backend.Model.{
  Db, Wallet, Status, TopUpOrder, TopUpRow, CreateTopUpRequest, has_id, success,
}
use go_ewallet_backend.Runtime.{
  DbError, Error, Result, ok, err, no_rows, Env, Exec, pure, or_raise, ◌>>=◌, Stmt, query, update,
  Runner, run_on,
}
use go_ewallet_backend.Repository.Column.{
  null_if_empty, string_or_empty, not_positive, holds_id, holds_text, dangling_key, returning,
}
use go_ewallet_backend.Repository.Ledger.{has_order_id}

abbrev pub has_order_reference : String → TopUpRow → Bool
has_order_reference reference r = str_eq r.reference_id reference

abbrev pub has_order_key : Option ℕ → TopUpRow → Bool
has_order_key key r = holds_id r.idempotency_key_id key

-- `scanTopUpOrder`
unfoldable pub scan_top_up_order : TopUpRow → TopUpOrder
scan_top_up_order r = record {
  id = r.id;
  wallet_id = r.wallet_id;
  reference_id = r.reference_id;
  amount = r.amount;
  status = r.status;
  payment_channel = r.payment_channel;
  external_reference = r.external_reference;
  description = string_or_empty r.description;
  balance_before = r.balance_before;
  balance_after = r.balance_after;
  created_at = r.created_at;
  updated_at = r.updated_at;
  confirmed_at = r.confirmed_at;
  failed_at = r.failed_at;
}

-- A row that was not found is `sql.ErrNoRows`.
unfoldable pub scan_row : Env → Runner → Stmt (Option TopUpRow) → Exec TopUpOrder
scan_row env runner f = do
  row ← run_on env runner f
  r ← or_raise row no_rows
  pure (scan_top_up_order r)

abbrev pub order_row : ℕ → ℕ → ℕ → ℕ → String → CreateTopUpRequest → TopUpRow
order_row id t wallet_id idempotency_key_id reference_id req = record {
  id = id;
  wallet_id = wallet_id;
  reference_id = reference_id;
  idempotency_key_id = some idempotency_key_id;
  amount = req.amount;
  status = Status.pending;
  payment_channel = req.payment_channel;
  external_reference = none;
  description = some req.description;
  balance_before = none;
  balance_after = none;
  created_at = t;
  updated_at = t;
  confirmed_at = none;
  failed_at = none;
}

-- The constraints of `top_up_orders` for a new row, which is pending and has no external reference.
abbrev pub add_order : TopUpRow → Db → Result Db
add_order row d =
    if not_positive row.amount
    then err (Error.db DbError.check_violation)
    else if any (has_order_id row.id) d.top_up_orders
        || any (has_order_reference row.reference_id) d.top_up_orders
        || any (has_order_key row.idempotency_key_id) d.top_up_orders
    then err (Error.db DbError.unique_violation)
    else if not (any (has_id row.wallet_id) d.wallets)
        || dangling_key row.idempotency_key_id d.idempotency_keys
    then err (Error.db DbError.foreign_key_violation)
    else ok (record d { top_up_orders = d.top_up_orders ++ row ∷ [] })

unfoldable pub insert_order : ℕ → ℕ → String → CreateTopUpRequest → Stmt (Option TopUpRow)
insert_order wallet_id idempotency_key_id reference_id req t d s =
    let id = suc s.top_up_orders in
    let row = order_row id t wallet_id idempotency_key_id reference_id req in
    (returning (some row) (add_order row d), record s { top_up_orders = id })

unfoldable pub create_tx : Env → ℕ → ℕ → String → CreateTopUpRequest → Exec TopUpOrder
create_tx env wallet_id idempotency_key_id reference_id req =
    scan_row env Runner.tx_runner (insert_order wallet_id idempotency_key_id reference_id req)

unfoldable pub select_order : ℕ → Stmt (Option TopUpRow)
select_order id = query (λ t d. find? (has_order_id id) d.top_up_orders)

unfoldable pub get_by_id : Env → Runner → ℕ → Exec TopUpOrder
get_by_id env runner id = scan_row env runner (select_order id)

-- `JOIN wallets w ON w.id = t.wallet_id WHERE w.user_id = $1 AND t.reference_id = $2`
abbrev pub is_order_of : ℕ → String → List Wallet → TopUpRow → Bool
is_order_of user_id reference ws r =
    any (λ w. w.id == r.wallet_id && w.user_id == user_id) ws && str_eq r.reference_id reference

unfoldable pub select_order_of : ℕ → String → Stmt (Option TopUpRow)
select_order_of user_id reference =
    query (λ t d. find? (is_order_of user_id reference d.wallets) d.top_up_orders)

unfoldable pub get_by_reference_id_for_user_tx : Env → ℕ → String → Exec TopUpOrder
get_by_reference_id_for_user_tx env user_id reference =
    scan_row env Runner.tx_runner (select_order_of user_id reference)

-- `CASE WHEN NULLIF($3, '') IS NULL THEN description ELSE $3 END`
abbrev pub new_or_old : String → Option String → Option String
new_or_old s old = if str_eq s "" then old else some s

abbrev pub confirmed : ℕ → String → String → ℤ → ℤ → TopUpRow → TopUpRow
confirmed t external description before after r = record r {
  status = success;
  external_reference = null_if_empty external;
  description = new_or_old description r.description;
  balance_before = some before;
  balance_after = some after;
  confirmed_at = some t;
  updated_at = t;
}

-- Another order has this external reference.
abbrev pub external_taken : ℕ → Option String → TopUpRow → Bool
external_taken id external r = not (r.id == id) && holds_text r.external_reference external

unfoldable pub mark_successful : ℕ → String → String → ℤ → ℤ → Stmt (Option TopUpRow)
mark_successful id external description before after = update λ t d.
    let orders =
      update_where (has_order_id id) (confirmed t external description before after)
        d.top_up_orders in
    if any (has_order_id id) d.top_up_orders
      && any (external_taken id (null_if_empty external)) d.top_up_orders
    then err (Error.db DbError.unique_violation)
    else ok (find? (has_order_id id) orders, record d { top_up_orders = orders })

unfoldable pub mark_successful_tx : Env → ℕ → String → String → ℤ → ℤ → Exec TopUpOrder
mark_successful_tx env id external description before after =
    scan_row env Runner.tx_runner (mark_successful id external description before after)
