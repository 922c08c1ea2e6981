-- ===== src/Handler/Replies.antt =====
-- Replies, the texts of errors, and internal/handler's `mapWalletError` and `mapAuthError`.
use go_ewallet_backend.Prelude.{ℕ, String, Bool, true, false, str_eq, if◌then◌else◌}
use go_ewallet_backend.Runtime.{
  Error, Result, ok, err, amount_not_positive, sender_wallet_not_found, recipient_wallet_not_found,
  same_wallet, insufficient_balance, recipient_overflow, balance_overflow, top_up_already_failed,
  idempotency_key_required, idempotency_key_conflict, request_in_progress, request_failed,
  repository_key_conflict, invalid_credentials, user_not_found, token_generation,
  invalid_refresh_token, refresh_token_revoked, refresh_token_expired, refresh_token_not_found,
  email_already_registered, repository_not_configured, save_refresh_token, save_new_refresh_token,
  revoke_refresh_token, World,
}
use Prim.Native.String.{◌++◌ as concat}

-- `gin.H{"error": …}`, or a message and what the request asked for.
pub data Body (A : Type 0) : Type 0 where
  failure : String → Body A
  success : (message : String) → A → Body A

pub record Reply (A : Type 0) : Type 0 where
  pub status : ℕ
  pub body : Body A

module _ {A : Type 0} where
  abbrev pub fail_with : ℕ → String → Reply A
  fail_with status message = record { status = status; body = Body.failure message }

-- `err.Error()`; `texts` gives those of the standard library and the driver.
unfoldable pub error_text : (Error → String) → Error → String
error_text texts amount_not_positive = "amount must be greater than 0"
error_text texts sender_wallet_not_found = "sender wallet not found"
error_text texts recipient_wallet_not_found = "recipient wallet not found"
error_text texts same_wallet = "cannot transfer to the same wallet"
error_text texts insufficient_balance = "insufficient balance"
error_text texts recipient_overflow = "amount causes recipient balance overflow"
error_text texts balance_overflow = "amount causes balance overflow"
error_text texts top_up_already_failed = "top up order already failed"
error_text texts idempotency_key_required = "idempotency key is required"
error_text texts idempotency_key_conflict = "idempotency key already used with different payload"
error_text texts request_in_progress = "request with this idempotency key is still processing"
error_text texts request_failed = "previous request with this idempotency key failed"
error_text texts repository_key_conflict = "idempotency key already used with different payload"
error_text texts invalid_credentials = "invalid email or password"
error_text texts user_not_found = "user not found"
error_text texts token_generation = "error generating token"
error_text texts invalid_refresh_token = "invalid refresh token"
error_text texts refresh_token_revoked = "refresh token has been revoked"
error_text texts refresh_token_expired = "refresh token has expired"
error_text texts refresh_token_not_found = "refresh token not found"
error_text texts email_already_registered = "email already registered"
error_text texts repository_not_configured = "refresh token repository not configured"
error_text texts (save_refresh_token e) =
    concat "failed to save refresh token: " (error_text texts e)
error_text texts (save_new_refresh_token e) =
    concat "failed to save new refresh token: " (error_text texts e)
error_text texts (revoke_refresh_token e) =
    concat "failed to revoke old refresh token: " (error_text texts e)
error_text texts e = texts e

-- `errors.Is(err, target)` looks through what `%w` has wrapped.
unfoldable pub errors_is : (Error → Bool) → Error → Bool
errors_is target (save_refresh_token e) = errors_is target e
errors_is target (save_new_refresh_token e) = errors_is target e
errors_is target (revoke_refresh_token e) = errors_is target e
errors_is target e = target e

abbrev pub is_no_rows : Error → Bool
is_no_rows Error.no_rows = true
is_no_rows _ = false

abbrev pub is_key_required : Error → Bool
is_key_required Error.idempotency_key_required = true
is_key_required _ = false

abbrev pub is_key_conflict : Error → Bool
is_key_conflict Error.idempotency_key_conflict = true
is_key_conflict _ = false

abbrev pub is_in_progress : Error → Bool
is_in_progress Error.request_in_progress = true
is_in_progress _ = false

abbrev pub is_request_failed : Error → Bool
is_request_failed Error.request_failed = true
is_request_failed _ = false

unfoldable pub map_wallet_error : (Error → String) → Error → ℕ × String
map_wallet_error texts e =
    let text = error_text texts e in
    if errors_is is_no_rows e
    then (404, "Wallet not found")
    else if str_eq text "amount must be greater than 0"
    then (400, text)
    else if str_eq text "cannot transfer to the same wallet"
    then (400, text)
    else if str_eq text "insufficient balance"
    then (400, "Insufficient balance")
    else if str_eq text "sender wallet not found"
    then (404, "Sender wallet not found")
    else if str_eq text "recipient wallet not found"
    then (404, "Recipient wallet not found")
    else if errors_is is_key_required e
    then (400, text)
    else if errors_is is_key_conflict e
    then (409, text)
    else if errors_is is_in_progress e
    then (409, text)
    else if errors_is is_request_failed e
    then (409, text)
    else if str_eq text "top up order already failed"
    then (400, text)
    else (500, text)

abbrev pub is_email_taken : Error → Bool
is_email_taken Error.email_already_registered = true
is_email_taken _ = false

abbrev pub is_bad_credentials : Error → Bool
is_bad_credentials Error.invalid_credentials = true
is_bad_credentials _ = false

abbrev pub is_user_missing : Error → Bool
is_user_missing Error.user_not_found = true
is_user_missing _ = false

abbrev pub is_token_failure : Error → Bool
is_token_failure Error.token_generation = true
is_token_failure _ = false

abbrev pub is_invalid_token : Error → Bool
is_invalid_token Error.invalid_refresh_token = true
is_invalid_token _ = false

abbrev pub is_token_revoked : Error → Bool
is_token_revoked Error.refresh_token_revoked = true
is_token_revoked _ = false

abbrev pub is_token_expired : Error → Bool
is_token_expired Error.refresh_token_expired = true
is_token_expired _ = false

abbrev pub is_token_missing : Error → Bool
is_token_missing Error.refresh_token_not_found = true
is_token_missing _ = false

unfoldable pub map_auth_error : (Error → String) → Error → ℕ × String
map_auth_error texts e =
    let text = error_text texts e in
    if errors_is is_email_taken e
    then (409, text)
    else if errors_is is_bad_credentials e
    then (401, text)
    else if errors_is is_user_missing e
    then (404, "User not found")
    else if errors_is is_token_failure e
    then (500, text)
    else if errors_is is_invalid_token e
    then (401, text)
    else if errors_is is_token_revoked e
    then (401, text)
    else if errors_is is_token_expired e
    then (401, text)
    else (500, text)

module _ {A : Type 0} where
  -- `if err != nil { statusCode, message := … }`, and the reply to a call that has returned.
  abbrev pub reply_to : (Error → ℕ × String) → ℕ → String → Result A × World → Reply A × World
  reply_to map_error status message (ok a, w) =
      (record { status = status; body = Body.success message a }, w)
  reply_to map_error status message (err e, w) = (fail_with (map_error e).0 (map_error e).1, w)
