-- ===== src/Handler/Status.antt =====
-- internal/handler/wallet.go and auth.go: `mapWalletError` and `mapAuthError`, error by error.
use go_ewallet_backend.Prelude.{ℕ, String, Bool, true, false, ◌≡◌, refl, ◌||◌, str_eq, arith}
use go_ewallet_backend.Runtime.{
  Error, amount_not_positive, sender_wallet_not_found, recipient_wallet_not_found, same_wallet,
  insufficient_balance, recipient_overflow, balance_overflow, top_up_already_failed,
  idempotency_key_required, idempotency_key_conflict, request_in_progress, request_failed,
  repository_key_conflict, invalid_credentials, user_not_found, token_generation,
  invalid_refresh_token, refresh_token_revoked, refresh_token_expired, refresh_token_not_found,
  email_already_registered, repository_not_configured, password_hash, save_refresh_token,
  save_new_refresh_token, revoke_refresh_token, no_rows, scan_null, marshal, random, jwt, redis, db,
}
use go_ewallet_backend.Handler.Replies.{map_wallet_error, error_text, errors_is}

-- The texts that `mapWalletError` looks for.
abbrev pub is_looked_for : String → Bool
is_looked_for text =
    str_eq text "amount must be greater than 0"
    || str_eq text "cannot transfer to the same wallet"
    || str_eq text "insufficient balance"
    || str_eq text "sender wallet not found"
    || str_eq text "recipient wallet not found"
    || str_eq text "top up order already failed"

-- Errors of `fmt.Errorf`, which only the auth service makes.
abbrev pub is_wrapped : Error → Bool
is_wrapped (save_refresh_token e) = true
is_wrapped (save_new_refresh_token e) = true
is_wrapped (revoke_refresh_token e) = true
is_wrapped _ = false

-- A request that cannot succeed, something that is not there, a conflict of idempotency keys, or a
-- failure of the server.
abbrev pub wallet_status : Error → ℕ
wallet_status no_rows = 404
wallet_status sender_wallet_not_found = 404
wallet_status recipient_wallet_not_found = 404
wallet_status amount_not_positive = 400
wallet_status same_wallet = 400
wallet_status insufficient_balance = 400
wallet_status idempotency_key_required = 400
wallet_status top_up_already_failed = 400
wallet_status idempotency_key_conflict = 409
wallet_status request_in_progress = 409
wallet_status request_failed = 409
wallet_status _ = 500

-- The status for an error of the wallet service is the one in the table `wallet_status`, where no
-- text of the standard library or the driver is one of those that the handler looks for.
pub map_wallet_error-eq :
    (texts : Error → String) (e : Error)
    → ((x : Error) → is_looked_for (texts x) ≡ false)
    → is_wrapped e ≡ false
    → (map_wallet_error texts e).0 ≡ wallet_status e
unfolding map_wallet_error error_text errors_is
map_wallet_error-eq texts amount_not_positive own h = refl
map_wallet_error-eq texts sender_wallet_not_found own h = refl
map_wallet_error-eq texts recipient_wallet_not_found own h = refl
map_wallet_error-eq texts same_wallet own h = refl
map_wallet_error-eq texts insufficient_balance own h = refl
map_wallet_error-eq texts recipient_overflow own h = refl
map_wallet_error-eq texts balance_overflow own h = refl
map_wallet_error-eq texts top_up_already_failed own h = refl
map_wallet_error-eq texts idempotency_key_required own h = refl
map_wallet_error-eq texts idempotency_key_conflict own h = refl
map_wallet_error-eq texts request_in_progress own h = refl
map_wallet_error-eq texts request_failed own h = refl
map_wallet_error-eq texts repository_key_conflict own h = refl
map_wallet_error-eq texts invalid_credentials own h = refl
map_wallet_error-eq texts user_not_found own h = refl
map_wallet_error-eq texts token_generation own h = refl
map_wallet_error-eq texts invalid_refresh_token own h = refl
map_wallet_error-eq texts refresh_token_revoked own h = refl
map_wallet_error-eq texts refresh_token_expired own h = refl
map_wallet_error-eq texts refresh_token_not_found own h = refl
map_wallet_error-eq texts email_already_registered own h = refl
map_wallet_error-eq texts repository_not_configured own h = refl
map_wallet_error-eq texts (save_refresh_token e) own h = cc
map_wallet_error-eq texts (save_new_refresh_token e) own h = cc
map_wallet_error-eq texts (revoke_refresh_token e) own h = cc
map_wallet_error-eq texts no_rows own h = refl
map_wallet_error-eq texts (db e) own h = ground (arith, own (db e))
map_wallet_error-eq texts scan_null own h = ground (arith, own scan_null)
map_wallet_error-eq texts marshal own h = ground (arith, own marshal)
map_wallet_error-eq texts random own h = ground (arith, own random)
map_wallet_error-eq texts jwt own h = ground (arith, own jwt)
map_wallet_error-eq texts redis own h = ground (arith, own redis)
map_wallet_error-eq texts password_hash own h = ground (arith, own password_hash)
