-- ===== src/Model/Ledger.antt =====
-- internal/model/topup.go: the ledger entries; migrations/000008 defines their table.
use go_ewallet_backend.Prelude.{ℕ, String, Option}
use go_ewallet_backend.Prelude.Int.{ℤ}

-- `CHECK (transaction_type IN ('transfer', 'top_up'))`
pub data TransactionType : Type 0 where
  transfer top_up : TransactionType

-- `CHECK (direction IN ('debit', 'credit'))`
pub data Direction : Type 0 where
  debit credit : Direction

-- What `CreateTx` is given. The database adds the id and the time.
pub record LedgerEntry : Type 0 where
  pub wallet_id : ℕ
  pub reference_id : String
  pub transaction_type : TransactionType
  pub direction : Direction
  pub amount : ℤ
  pub balance_before : ℤ
  pub balance_after : ℤ
  pub description : String
  pub transfer_id : Option ℕ
  pub top_up_order_id : Option ℕ

-- A row of `ledger_entries`.
pub record LedgerRow : Type 0 where
  pub id : ℕ
  pub wallet_id : ℕ
  pub reference_id : String
  pub transaction_type : TransactionType
  pub direction : Direction
  pub amount : ℤ
  pub balance_before : ℤ
  pub balance_after : ℤ
  pub description : Option String
  pub transfer_id : Option ℕ
  pub top_up_order_id : Option ℕ
  pub created_at : ℕ

pub record LedgerEntryHistory : Type 0 where
  pub id : ℕ
  pub wallet_id : ℕ
  pub reference_id : String
  pub transaction_type : TransactionType
  pub direction : Direction
  pub amount : ℤ
  pub balance_before : ℤ
  pub balance_after : ℤ
  pub description : String
  pub transfer_id : Option ℕ
  pub top_up_order_id : Option ℕ
  pub created_at : ℕ
