-- ===== src/Repository/Ledger.antt =====
-- internal/repository/ledger.go
use go_ewallet_backend.Prelude.{
  ℕ, suc, Bool, true, false, ◌&&◌, ◌||◌, not, Option, none, some, List, [], ◌∷◌, ◌++◌, ◌==◌, str_eq,
  if◌then◌else◌,
}
use go_ewallet_backend.Prelude.Int.{ℤ, ◌+ℤ◌, ◌-ℤ◌}
use go_ewallet_backend.Prelude.Table.{any}
use go_ewallet_backend.Model.{
  Db, Direction, debit, credit, LedgerEntry, LedgerRow, TransferRow, TopUpRow, has_id,
}
use go_ewallet_backend.Runtime.{DbError, Error, Result, ok, err, Env, Exec, Stmt, in_tx}
use go_ewallet_backend.Repository.Column.{null_if_empty, not_positive, eq_ℤ, returning}
use go_ewallet_backend.Repository.Wallet.Transfers.{has_transfer_id}

abbrev pub ledger_row : ℕ → ℕ → LedgerEntry → LedgerRow
ledger_row id t e = record {
  id = id;
  wallet_id = e.wallet_id;
  reference_id = e.reference_id;
  transaction_type = e.transaction_type;
  direction = e.direction;
  amount = e.amount;
  balance_before = e.balance_before;
  balance_after = e.balance_after;
  description = null_if_empty e.description;
  transfer_id = e.transfer_id;
  top_up_order_id = e.top_up_order_id;
  created_at = t;
}

-- `chk_ledger_entries_balance_progression`
abbrev pub progresses : Direction → ℤ → ℤ → ℤ → Bool
progresses debit amount before after = eq_ℤ after (before -ℤ amount)
progresses credit amount before after = eq_ℤ after (before +ℤ amount)

-- `chk_ledger_entries_single_source`
abbrev pub single_source : Option ℕ → Option ℕ → Bool
single_source (some _) none = true
single_source none (some _) = true
single_source _ _ = false

abbrev pub direction_eq : Direction → Direction → Bool
direction_eq debit debit = true
direction_eq credit credit = true
direction_eq _ _ = false

-- `uq_ledger_entries_wallet_reference_direction`
abbrev pub same_movement : LedgerRow → LedgerRow → Bool
same_movement row r =
    r.wallet_id == row.wallet_id
    && str_eq r.reference_id row.reference_id
    && direction_eq r.direction row.direction

abbrev pub has_entry_id : ℕ → LedgerRow → Bool
has_entry_id id r = r.id == id

abbrev pub has_order_id : ℕ → TopUpRow → Bool
has_order_id id r = r.id == id

abbrev pub dangling_transfer : Option ℕ → List TransferRow → Bool
dangling_transfer none ts = false
dangling_transfer (some id) ts = not (any (has_transfer_id id) ts)

abbrev pub dangling_order : Option ℕ → List TopUpRow → Bool
dangling_order none os = false
dangling_order (some id) os = not (any (has_order_id id) os)

-- The constraints of `ledger_entries`, in the order in which the database checks them.
abbrev pub add_entry : LedgerRow → Db → Result Db
add_entry row d =
    if not_positive row.amount
      || not (progresses row.direction row.amount row.balance_before row.balance_after)
      || not (single_source row.transfer_id row.top_up_order_id)
    then err (Error.db DbError.check_violation)
    else if any (has_entry_id row.id) d.ledger_entries || any (same_movement row) d.ledger_entries
    then err (Error.db DbError.unique_violation)
    else if not (any (has_id row.wallet_id) d.wallets)
        || dangling_transfer row.transfer_id d.transfers
        || dangling_order row.top_up_order_id d.top_up_orders
    then err (Error.db DbError.foreign_key_violation)
    else ok (record d { ledger_entries = d.ledger_entries ++ row ∷ [] })

-- `INSERT INTO ledger_entries (…) VALUES (…) RETURNING id`
unfoldable pub insert_entry : LedgerEntry → Stmt ℕ
insert_entry entry t d s =
    let id = suc s.ledger_entries in
    (returning id (add_entry (ledger_row id t entry) d), record s { ledger_entries = id })

unfoldable pub create_tx : Env → LedgerEntry → Exec ℕ
create_tx env entry = in_tx env (insert_entry entry)
