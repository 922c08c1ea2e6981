-- ===== src/Model/Outbox.antt =====
-- internal/model/outbox.go; migrations/000010 defines the table.
use go_ewallet_backend.Prelude.{ℕ, String, Option}
use go_ewallet_backend.Prelude.Int.{ℤ}

pub data OutboxStatus : Type 0 where
  pending published failed : OutboxStatus

-- The JSON object that `publishEventTx` builds.
pub record Event : Type 0 where
  pub event_id : String
  pub type : String
  pub user_id : String
  pub amount : ℤ
  pub created_at : ℕ

pub record OutboxEvent : Type 0 where
  pub id : ℕ
  pub event_type : String
  pub payload : Event
  pub status : OutboxStatus
  pub retry_count : ℕ
  pub last_error : Option String
  pub created_at : ℕ
  pub updated_at : ℕ
  pub published_at : Option ℕ
