-- ===== src/Model/TopUp.antt =====
-- internal/model/topup.go: the orders; migrations/000006 defines their table.
use go_ewallet_backend.Prelude.{ℕ, String, Option}
use go_ewallet_backend.Prelude.Int.{ℤ}
use go_ewallet_backend.Model.Transfer.{Status}

pub record CreateTopUpRequest : Type 0 where
  pub amount : ℤ
  pub payment_channel : String
  pub description : String

pub record ConfirmTopUpRequest : Type 0 where
  pub external_reference : String
  pub description : String

pub record TopUpOrder : Type 0 where
  pub id : ℕ
  pub wallet_id : ℕ
  pub reference_id : String
  pub amount : ℤ
  pub status : Status
  pub payment_channel : String
  pub external_reference : Option String
  pub description : String
  pub balance_before : Option ℤ
  pub balance_after : Option ℤ
  pub created_at : ℕ
  pub updated_at : ℕ
  pub confirmed_at : Option ℕ
  pub failed_at : Option ℕ

-- A row of `top_up_orders`.
pub record TopUpRow : Type 0 where
  pub id : ℕ
  pub wallet_id : ℕ
  pub reference_id : String
  pub idempotency_key_id : Option ℕ
  pub amount : ℤ
  pub status : Status
  pub payment_channel : String
  pub external_reference : Option String
  pub description : Option String
  pub balance_before : Option ℤ
  pub balance_after : Option ℤ
  pub created_at : ℕ
  pub updated_at : ℕ
  pub confirmed_at : Option ℕ
  pub failed_at : Option ℕ
