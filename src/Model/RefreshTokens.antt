-- ===== src/Model/RefreshTokens.antt =====
-- internal/model/refresh_token.go; migrations/000011 defines the table.
use go_ewallet_backend.Prelude.{ℕ, String, Bool}

-- `device_id`, `user_agent` and `ip_address` are nullable columns, which this code always writes.
pub record RefreshToken : Type 0 where
  pub id : ℕ
  pub user_id : ℕ
  pub token_hash : String
  pub device_id : String
  pub user_agent : String
  pub ip_address : String
  pub is_revoked : Bool
  pub expires_at : ℕ
  pub created_at : ℕ
  pub last_used_at : ℕ

-- `expires_in` is in seconds.
pub record AuthResponse : Type 0 where
  pub access_token : String
  pub refresh_token : String
  pub token_type : String
  pub expires_in : ℕ

pub record DeviceSessionResponse : Type 0 where
  pub id : ℕ
  pub device_id : String
  pub user_agent : String
  pub ip_address : String
  pub is_revoked : Bool
  pub expires_at : ℕ
  pub created_at : ℕ
  pub last_used_at : ℕ

pub record RefreshTokenRequest : Type 0 where
  pub refresh_token : String
  pub device_id : String

pub record LogoutRequest : Type 0 where
  pub refresh_token : String
