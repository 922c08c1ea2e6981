-- ===== src/Model/Transfer.antt =====
-- internal/model/transfer.go, and the row that migrations/000003 and 000007 define.
use go_ewallet_backend.Prelude.{ℕ, String, Option}
use go_ewallet_backend.Prelude.Int.{ℤ}

-- `CHECK (status IN ('pending', 'success', 'failed'))`, of transfers and of top_up_orders.
pub data Status : Type 0 where
  pending success failed : Status

-- A row of `transfers`. The columns that migration 000007 added with no value are nullable.
pub record TransferRow : Type 0 where
  pub id : ℕ
  pub from_wallet_id : ℕ
  pub to_wallet_id : ℕ
  pub amount : ℤ
  pub reference_id : String
  pub status : Status
  pub description : Option String
  pub idempotency_key_id : Option ℕ
  pub sender_balance_before : Option ℤ
  pub sender_balance_after : Option ℤ
  pub recipient_balance_before : Option ℤ
  pub recipient_balance_after : Option ℤ
  pub created_by_user_id : Option ℕ
  pub created_at : ℕ

pub record TransferRequest : Type 0 where
  pub to_wallet_id : ℕ
  pub amount : ℤ
  pub description : String

pub record TransferResponse : Type 0 where
  pub id : ℕ
  pub from_wallet_id : ℕ
  pub to_wallet_id : ℕ
  pub amount : ℤ
  pub reference_id : String
  pub status : Status
  pub description : String
  pub sender_balance_before : ℤ
  pub sender_balance_after : ℤ
  pub recipient_balance_before : ℤ
  pub recipient_balance_after : ℤ
  pub created_at : ℕ

pub record TransferHistory : Type 0 where
  pub id : ℕ
  pub from_wallet_id : ℕ
  pub to_wallet_id : ℕ
  pub amount : ℤ
  pub reference_id : String
  pub status : Status
  pub description : String
  pub created_at : ℕ
