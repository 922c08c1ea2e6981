-- ===== src/Model/Users.antt =====
-- internal/model/user.go; migrations/000001 defines the table.
use go_ewallet_backend.Prelude.{ℕ, String}

-- `password` holds the hash.
pub record User : Type 0 where
  pub id : ℕ
  pub email : String
  pub password : String

pub record RegisterRequest : Type 0 where
  pub email : String
  pub password : String
