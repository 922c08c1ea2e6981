-- ===== src/Repository/Wallet/Balances.antt =====
-- internal/repository/wallet.go: wallets and their balances.
use go_ewallet_backend.Prelude.{
  ℕ, suc, Bool, true, ◌&&◌, Option, none, some, List, [], ◌∷◌, ◌++◌, ◌==◌, if◌then◌else◌,
}
use go_ewallet_backend.Prelude.Int.{ℤ, pos, ◌+ℤ◌, ◌-ℤ◌}
use go_ewallet_backend.Prelude.Int64.{fits_int64}
use go_ewallet_backend.Prelude.Table.{find?, any, update_where, count_where}
use go_ewallet_backend.Model.{Db, Wallet, WalletResponse, WalletBalanceSnapshot, has_id, has_user}
use go_ewallet_backend.Runtime.{
  DbError, Error, Result, ok, err, no_rows, Env, Exec, pure, or_raise, raise_if, ◌>>=◌, Stmt, query,
  update, in_tx, on_db,
}
use go_ewallet_backend.Repository.Column.{is_user}

-- `INSERT INTO wallets (user_id, balance) VALUES ($1, 0) RETURNING id`
unfoldable pub insert_wallet : ℕ → Stmt ℕ
insert_wallet user_id t d s =
    let id = suc s.wallets in
    let row : Wallet = record {
      id = id;
      user_id = user_id;
      balance = pos 0;
      currency = "IDR";
      created_at = t;
      updated_at = t;
    } in
    let result : Result (ℕ × Db) =
      if any (has_id id) d.wallets
      then err (Error.db DbError.unique_violation)
      else if any (has_user user_id) d.wallets
      then err (Error.db DbError.unique_violation)
      else if any (is_user user_id) d.users
      then ok (id, record d { wallets = d.wallets ++ row ∷ [] })
      else err (Error.db DbError.foreign_key_violation) in
    (result, record s { wallets = id })

unfoldable pub create_tx : Env → ℕ → Exec ℕ
create_tx env user_id = in_tx env (insert_wallet user_id)

-- `SELECT … FROM wallets WHERE user_id = $1`
unfoldable pub select_by_user : ℕ → Stmt (Option Wallet)
select_by_user user_id = query (λ t d. find? (has_user user_id) d.wallets)

-- No row gives a balance of 0.
abbrev balance_or_zero : Option Wallet → ℤ
balance_or_zero none = pos 0
balance_or_zero (some w) = w.balance

unfoldable pub get_balance : Env → ℕ → Exec ℤ
get_balance env user_id = do row ← on_db env (select_by_user user_id); pure (balance_or_zero row)

abbrev pub wallet_response : Wallet → WalletResponse
wallet_response w = record {
  id = w.id;
  user_id = w.user_id;
  balance = w.balance;
  currency = w.currency;
  created_at = w.created_at;
  updated_at = w.updated_at;
}

unfoldable pub get_wallet_by_user_id : Env → ℕ → Exec WalletResponse
get_wallet_by_user_id env user_id = do
  row ← on_db env (select_by_user user_id)
  wallet ← or_raise row no_rows
  pure (wallet_response wallet)

-- `UPDATE wallets SET balance = f(balance) WHERE p`: BIGINT arithmetic does not wrap around.
abbrev pub all_fit : (Wallet → Bool) → (ℤ → ℤ) → List Wallet → Bool
all_fit p f [] = true
all_fit p f (w ∷ ws) = (if p w then fits_int64 (f w.balance) else true) && all_fit p f ws

abbrev pub with_balance : (ℤ → ℤ) → Wallet → Wallet
with_balance f w = record w { balance = f w.balance }

abbrev pub touched : ℕ → Wallet → Wallet
touched t w = record w { updated_at = t }

abbrev pub change_balance : (Wallet → Bool) → (ℤ → ℤ) → (Wallet → Wallet) → Db → Result (ℕ × Db)
change_balance p f g d =
    if all_fit p f d.wallets
    then ok (
      count_where p d.wallets,
      record d { wallets = update_where p (λ w. g (with_balance f w)) d.wallets },
    )
    else err (Error.db DbError.out_of_range)

abbrev pub plus : ℤ → ℤ → ℤ
plus amount b = b +ℤ amount

abbrev pub minus : ℤ → ℤ → ℤ
minus amount b = b -ℤ amount

-- `SET balance = balance + $1 WHERE user_id = $2`
unfoldable pub add_by_user : ℕ → ℤ → Stmt ℕ
add_by_user user_id amount =
    update (λ t d. change_balance (has_user user_id) (plus amount) (λ w. w) d)

-- `SET balance = balance + $1, updated_at = CURRENT_TIMESTAMP WHERE id = $2`
unfoldable pub add_by_id_touching : ℕ → ℤ → Stmt ℕ
add_by_id_touching id amount =
    update (λ t d. change_balance (has_id id) (plus amount) (touched t) d)

-- `SET balance = balance + $1 WHERE id = $2`, and `balance - $1`
unfoldable pub add_by_id : ℕ → ℤ → Stmt ℕ
add_by_id id amount = update (λ t d. change_balance (has_id id) (plus amount) (λ w. w) d)

unfoldable pub subtract_by_id : ℕ → ℤ → Stmt ℕ
subtract_by_id id amount = update (λ t d. change_balance (has_id id) (minus amount) (λ w. w) d)

unfoldable pub update_balance_tx : Env → ℕ → ℤ → Exec (Unit {0})
update_balance_tx env user_id amount = do
  rows_affected ← in_tx env (add_by_user user_id amount)
  raise_if (rows_affected == 0) no_rows

-- `SELECT id, user_id, balance, currency FROM wallets WHERE id = $1 FOR UPDATE`
unfoldable pub select_by_id : ℕ → Stmt (Option Wallet)
select_by_id id = query (λ t d. find? (has_id id) d.wallets)

abbrev pub snapshot : Wallet → WalletBalanceSnapshot
snapshot w = record { id = w.id; user_id = w.user_id; balance = w.balance; currency = w.currency }

unfoldable pub get_wallet_by_id_for_update_tx : Env → ℕ → Exec WalletBalanceSnapshot
get_wallet_by_id_for_update_tx env id = do
  row ← in_tx env (select_by_id id)
  wallet ← or_raise row no_rows
  pure (snapshot wallet)

unfoldable pub update_balance_by_wallet_id_tx : Env → ℕ → ℤ → Exec (Unit {0})
update_balance_by_wallet_id_tx env id amount = do
  rows_affected ← in_tx env (add_by_id_touching id amount)
  raise_if (rows_affected == 0) no_rows
