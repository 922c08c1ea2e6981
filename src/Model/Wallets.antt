-- ===== src/Model/Wallets.antt =====
-- internal/model/wallet.go. A time is a number; a row's time columns are read back as they stand.
use go_ewallet_backend.Prelude.{ℕ, String, Bool, ◌==◌}
use go_ewallet_backend.Prelude.Int.{ℤ}

pub record Wallet : Type 0 where
  pub id : ℕ
  pub user_id : ℕ
  pub balance : ℤ
  pub currency : String
  pub created_at : ℕ
  pub updated_at : ℕ

pub record WalletBalanceSnapshot : Type 0 where
  pub id : ℕ
  pub user_id : ℕ
  pub balance : ℤ
  pub currency : String

pub record WalletResponse : Type 0 where
  pub id : ℕ
  pub user_id : ℕ
  pub balance : ℤ
  pub currency : String
  pub created_at : ℕ
  pub updated_at : ℕ

-- `WHERE id = $1` and `WHERE user_id = $1`.
abbrev pub has_id : ℕ → Wallet → Bool
has_id k w = w.id == k

abbrev pub has_user : ℕ → Wallet → Bool
has_user u w = w.user_id == u
