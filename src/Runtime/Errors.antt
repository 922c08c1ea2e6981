-- ===== src/Runtime/Errors.antt =====
-- The errors that the code tells apart: the `errors.New` messages, the exported error variables,
-- `sql.ErrNoRows` and what the database driver returns.
use go_ewallet_backend.Prelude.{Bool, true, false}

-- `unique_violation` is the code 23505. `in_failed_transaction` is 25P02, a statement in a transaction in which
-- an earlier one has failed; `invalid_row_count` is 2201W or 2201X, a negative LIMIT or OFFSET; `unavailable` is any failure that the statement's text does not cause.
pub data DbError : Type 0 where
  unique_violation check_violation foreign_key_violation out_of_range : DbError
  in_failed_transaction unavailable tx_done invalid_row_count : DbError

pub data Error : Type 0 where
  -- service/wallet.go and repository/wallet.go
  amount_not_positive sender_wallet_not_found recipient_wallet_not_found same_wallet : Error
  insufficient_balance recipient_overflow balance_overflow top_up_already_failed : Error
  -- service/idempotency.go and repository/idempotency.go
  idempotency_key_required idempotency_key_conflict request_in_progress request_failed : Error
  repository_key_conflict : Error
  -- service/auth.go, repository/user.go and repository/refresh_token.go
  invalid_credentials user_not_found token_generation invalid_refresh_token : Error
  refresh_token_revoked refresh_token_expired refresh_token_not_found : Error
  email_already_registered repository_not_configured password_hash : Error
  save_refresh_token save_new_refresh_token revoke_refresh_token : Error → Error
  -- the standard library and the driver
  no_rows scan_null marshal random jwt redis : Error
  db : DbError → Error

pub data Result {ℓ} (A : Type ℓ) : Type ℓ where
  ok : A → Result A
  err : Error → Result A

-- `errors.As(err, &pqErr) && pqErr.Code == "23505"`
abbrev pub is_unique_violation : Error → Bool
is_unique_violation (Error.db DbError.unique_violation) = true
is_unique_violation _ = false
