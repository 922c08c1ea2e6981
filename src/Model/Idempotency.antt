-- ===== src/Model/Idempotency.antt =====
-- internal/model/idempotency.go; migrations/000005 defines the table.
use go_ewallet_backend.Prelude.{ℕ, String, Option, Bool, true, false, ◌==◌, ◌&&◌, str_eq}

pub data IdempotencyStatus : Type 0 where
  processing completed failed : IdempotencyStatus

-- `wallet.transfer`, `wallet.topup.create` and `wallet.topup.confirm`.
pub data Scope : Type 0 where
  wallet_transfer wallet_topup_create wallet_topup_confirm : Scope

abbrev pub scope_eq : Scope → Scope → Bool
scope_eq Scope.wallet_transfer Scope.wallet_transfer = true
scope_eq Scope.wallet_topup_create Scope.wallet_topup_create = true
scope_eq Scope.wallet_topup_confirm Scope.wallet_topup_confirm = true
scope_eq _ _ = false

pub record IdempotencyKey : Type 0 where
  pub id : ℕ
  pub user_id : ℕ
  pub scope : Scope
  pub idempotency_key : String
  pub request_hash : String
  pub status : IdempotencyStatus
  pub resource_type : Option String
  pub resource_id : Option ℕ
  pub locked_at : Option ℕ
  pub last_seen_at : ℕ
  pub expires_at : Option ℕ
  pub created_at : ℕ
  pub updated_at : ℕ

pub record IdempotencyReserveResult : Type 0 where
  pub key : IdempotencyKey
  pub is_new : Bool

-- `WHERE user_id = $1 AND scope = $2 AND idempotency_key = $3`
abbrev pub has_key : ℕ → Scope → String → IdempotencyKey → Bool
has_key u s k r = r.user_id == u && scope_eq r.scope s && str_eq r.idempotency_key k

-- `WHERE id = $1`
abbrev pub has_key_id : ℕ → IdempotencyKey → Bool
has_key_id k r = r.id == k
