-- ===== src/Repository/Wallet/Transfers.antt =====
-- internal/repository/wallet.go: `TransferWithMetadataTx`, `TransferTx` and `GetTransferByID`.
use go_ewallet_backend.Prelude.{
  ℕ, suc, String, Bool, ◌||◌, not, Option, none, some, List, [], ◌∷◌, ◌++◌, ◌==◌, ltb, str_eq,
  if◌then◌else◌,
}
use go_ewallet_backend.Prelude.Int.{ℤ, ltb_ℤ}
use go_ewallet_backend.Prelude.Int64.{add64, sub64}
use go_ewallet_backend.Prelude.Table.{find?, any, select_where}
use go_ewallet_backend.Model.{Db, Wallet, TransferRow, TransferResponse, has_id, success}
use go_ewallet_backend.Runtime.{
  DbError, Error, Result, ok, err, no_rows, scan_null, same_wallet, sender_wallet_not_found,
  recipient_wallet_not_found, insufficient_balance, recipient_overflow, Env, World, Exec, pure,
  or_raise, raise_if, lift, gets, ◌>>=◌, ◌>>◌, Stmt, query, in_tx, Runner, run_on,
}
use go_ewallet_backend.Repository.Column.{
  null_if_empty, string_or_empty, not_positive, holds_id, dangling_user, dangling_key, returning,
}
use go_ewallet_backend.Repository.Wallet.Balances.{subtract_by_id, add_by_id}
use Prim.Native.String.{◌++◌ as concat}

pub record TransferRequestParams : Type 0 where
  pub from_wallet_id : ℕ
  pub to_wallet_id : ℕ
  pub amount : ℤ
  pub reference_id : String
  pub description : String
  pub idempotency_key_id : Option ℕ
  pub created_by_user_id : Option ℕ

-- `SELECT … WHERE id = $1 OR id = $2 ORDER BY id FOR UPDATE`; `first` is the smaller id.
unfoldable pub select_locked : ℕ → ℕ → Stmt (List Wallet)
select_locked first second =
    query (λ t d. select_where (has_id first) d.wallets ++ select_where (has_id second) d.wallets)

-- The row that `INSERT INTO transfers` makes.
abbrev pub transfer_row : ℕ → ℕ → TransferRequestParams → ℤ → ℤ → ℤ → ℤ → TransferRow
transfer_row id t params sender_before sender_after recipient_before recipient_after = record {
  id = id;
  from_wallet_id = params.from_wallet_id;
  to_wallet_id = params.to_wallet_id;
  amount = params.amount;
  reference_id = params.reference_id;
  status = success;
  description = null_if_empty params.description;
  idempotency_key_id = params.idempotency_key_id;
  sender_balance_before = some sender_before;
  sender_balance_after = some sender_after;
  recipient_balance_before = some recipient_before;
  recipient_balance_after = some recipient_after;
  created_by_user_id = params.created_by_user_id;
  created_at = t;
}

abbrev pub has_transfer_id : ℕ → TransferRow → Bool
has_transfer_id id r = r.id == id

abbrev pub has_transfer_reference : String → TransferRow → Bool
has_transfer_reference reference r = str_eq r.reference_id reference

abbrev pub has_transfer_key : Option ℕ → TransferRow → Bool
has_transfer_key key r = holds_id r.idempotency_key_id key

-- The constraints of `transfers`, in the order in which the database checks them.
abbrev pub add_transfer : TransferRow → Db → Result Db
add_transfer row d =
    if not_positive row.amount
    then err (Error.db DbError.check_violation)
    else if any (has_transfer_id row.id) d.transfers
        || any (has_transfer_reference row.reference_id) d.transfers
        || any (has_transfer_key row.idempotency_key_id) d.transfers
    then err (Error.db DbError.unique_violation)
    else if not (any (has_id row.from_wallet_id) d.wallets)
        || not (any (has_id row.to_wallet_id) d.wallets)
        || dangling_key row.idempotency_key_id d.idempotency_keys
        || dangling_user row.created_by_user_id d.users
    then err (Error.db DbError.foreign_key_violation)
    else ok (record d { transfers = d.transfers ++ row ∷ [] })

-- `INSERT INTO transfers (…) VALUES (…) RETURNING id, created_at::text`
unfoldable pub insert_transfer : TransferRequestParams → ℤ → ℤ → ℤ → ℤ → Stmt (ℕ × ℕ)
insert_transfer params sender_before sender_after recipient_before recipient_after t d s =
    let id = suc s.transfers in
    let row =
      transfer_row id t params sender_before sender_after recipient_before recipient_after in
    (returning (id, t) (add_transfer row d), record s { transfers = id })

-- `referenceID`, or a name made of the time.
abbrev pub reference_or_legacy : Env → String → World → String
reference_or_legacy env reference w =
    if str_eq reference ""
    then concat "legacy-transfer-" (env.format_int (env.now w.clock))
    else reference

-- From the update of the balances to the response, for the two locked rows.
unfoldable pub apply_transfer :
    Env → TransferRequestParams → Wallet → Wallet → Exec TransferResponse
apply_transfer env params from_wallet to_wallet = do
  let amount = params.amount
  let sender_after = sub64 from_wallet.balance amount
  let recipient_after = add64 to_wallet.balance amount
  in_tx env (subtract_by_id from_wallet.id amount)
  in_tx env (add_by_id to_wallet.id amount)
  reference_id ← gets (reference_or_legacy env params.reference_id)
  ids ← in_tx env (
      insert_transfer
        (record params {
          from_wallet_id = from_wallet.id;
          to_wallet_id = to_wallet.id;
          reference_id = reference_id;
        })
        from_wallet.balance sender_after to_wallet.balance recipient_after)
  pure (record {
    id = ids.0;
    from_wallet_id = from_wallet.id;
    to_wallet_id = to_wallet.id;
    amount = amount;
    reference_id = reference_id;
    status = success;
    description = params.description;
    sender_balance_before = from_wallet.balance;
    sender_balance_after = sender_after;
    recipient_balance_before = to_wallet.balance;
    recipient_balance_after = recipient_after;
    created_at = ids.1;
  })

unfoldable pub transfer_with_metadata_tx : Env → TransferRequestParams → Exec TransferResponse
transfer_with_metadata_tx env params = do
  let amount = params.amount
  let first =
      if ltb params.to_wallet_id params.from_wallet_id
      then params.to_wallet_id
      else params.from_wallet_id
  let second =
      if ltb params.to_wallet_id params.from_wallet_id
      then params.from_wallet_id
      else params.to_wallet_id
  raise_if (params.from_wallet_id == params.to_wallet_id) same_wallet
  locked_wallets ← in_tx env (select_locked first second)
  from_wallet ←
      or_raise (find? (has_id params.from_wallet_id) locked_wallets) sender_wallet_not_found
  to_wallet ←
      or_raise (find? (has_id params.to_wallet_id) locked_wallets) recipient_wallet_not_found
  raise_if (ltb_ℤ from_wallet.balance amount) insufficient_balance
  raise_if (ltb_ℤ (add64 to_wallet.balance amount) to_wallet.balance) recipient_overflow
  apply_transfer env params from_wallet to_wallet

unfoldable pub transfer_tx : Env → ℕ → ℕ → ℤ → Exec TransferResponse
transfer_tx env from_wallet_id to_wallet_id amount = transfer_with_metadata_tx env (record {
  from_wallet_id = from_wallet_id;
  to_wallet_id = to_wallet_id;
  amount = amount;
  reference_id = "";
  description = "";
  idempotency_key_id = none;
  created_by_user_id = none;
})

-- `Scan` refuses a null balance column.
abbrev scan_transfer : TransferRow → Result TransferResponse
scan_transfer r = elim r.sender_balance_before [
  | none ↦ err scan_null
  | some sb ↦ elim r.sender_balance_after [
    | none ↦ err scan_null
    | some sa ↦ elim r.recipient_balance_before [
      | none ↦ err scan_null
      | some rb ↦ elim r.recipient_balance_after [
        | none ↦ err scan_null
        | some ra ↦ ok (record {
          id = r.id;
          from_wallet_id = r.from_wallet_id;
          to_wallet_id = r.to_wallet_id;
          amount = r.amount;
          reference_id = r.reference_id;
          status = r.status;
          description = string_or_empty r.description;
          sender_balance_before = sb;
          sender_balance_after = sa;
          recipient_balance_before = rb;
          recipient_balance_after = ra;
          created_at = r.created_at;
        })
      ]
    ]
  ]
]

unfoldable pub get_transfer_by_id : Env → Runner → ℕ → Exec TransferResponse
get_transfer_by_id env runner id = do
  row ← run_on env runner (query (λ t d. find? (has_transfer_id id) d.transfers))
  r ← or_raise row no_rows
  lift (scan_transfer r)
