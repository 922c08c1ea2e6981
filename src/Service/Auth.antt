-- ===== src/Service/Auth.antt =====
-- internal/service/auth.go. bcrypt and the signing of access tokens are parameters. main.go always
-- hands the service a refresh token repository, so the branches for a missing one are left out.
pub mod Register
pub mod Exchange
pub mod Rotation
pub mod Keeping
pub mod Spent
pub mod Money
use go_ewallet_backend.Prelude.{
  ℕ, ◌+◌, ◌*◌, String, Bool, true, false, not, Option, none, some, ◌==◌, str_eq, ltb, if◌then◌else◌,
}
use go_ewallet_backend.Prelude.Int.{ℤ}
use go_ewallet_backend.Model.{RefreshToken, AuthResponse}
use go_ewallet_backend.Runtime.{
  Error, invalid_credentials, user_not_found, token_generation, invalid_refresh_token,
  refresh_token_revoked, refresh_token_expired, password_hash, save_refresh_token,
  save_new_refresh_token, revoke_refresh_token, Env, World, Exec, pure, raise, raise_if, or_raise,
  gets, recover, ◌>>=◌, ◌>>◌, begin_tx, commit, with_rollback,
}
use go_ewallet_backend.Repository.RefreshTokens
use go_ewallet_backend.Repository.RefreshTokens.{
  get_by_hash, revoke_by_hash, revoke_all_by_user_id, revoke_session_by_id,
}
use go_ewallet_backend.Repository.Users
use go_ewallet_backend.Repository.Users.{get_by_email}
use go_ewallet_backend.Repository.Wallet.Balances

pub record Crypto : Type 0 where
  -- `bcrypt.GenerateFromPassword` with cost 14.
  pub bcrypt_hash : String → Option String
  -- `bcrypt.CompareHashAndPassword` of a hash and a password finds no error.
  pub bcrypt_matches : String → String → Bool
  -- `generateToken` of id, email and expiry; it fails where JWT_SECRET is not set.
  pub sign_token : ℕ → String → ℕ → Option String

-- In nanoseconds.
abbrev pub access_token_duration : ℕ
access_token_duration = 15 * 60 * 1000000000

abbrev pub refresh_token_duration : ℕ
refresh_token_duration = 30 * 24 * 3600 * 1000000000

unfoldable pub register_in_tx : Env → Crypto → String → String → Exec ℕ
register_in_tx env crypto email password = do
  hash ← or_raise (crypto.bcrypt_hash password) password_hash
  user_id ← Users.create_tx env email hash
  Balances.create_tx env user_id
  commit env
  pure user_id

unfoldable pub register : Env → Crypto → String → String → Exec ℕ
register env crypto email password = do
  begin_tx env
  with_rollback (register_in_tx env crypto email password)

unfoldable pub generate_token : Env → Crypto → ℕ → String → Exec String
generate_token env crypto id email = do
  now ← gets (λ w. env.now w.clock)
  or_raise (crypto.sign_token id email (now + access_token_duration)) token_generation

unfoldable pub generate_random_token : Env → Exec String
generate_random_token env = do
  read ← gets (λ w. env.random_hex 32 w.clock)
  or_raise read token_generation

-- The device that the client names.
pub record Device : Type 0 where
  pub device_id : String
  pub user_agent : String
  pub ip_address : String

-- The row's id is given by the database.
abbrev pub new_token : ℕ → String → Device → ℕ → RefreshToken
new_token user_id hash device now = record {
  id = 0;
  user_id = user_id;
  token_hash = hash;
  device_id = device.device_id;
  user_agent = device.user_agent;
  ip_address = device.ip_address;
  is_revoked = false;
  expires_at = now + refresh_token_duration;
  created_at = now;
  last_used_at = now;
}

abbrev pub auth_response : String → String → AuthResponse
auth_response access refresh = record {
  access_token = access;
  refresh_token = refresh;
  token_type = "Bearer";
  expires_in = 900;
}

-- A new pair of tokens, the refresh token stored by its hash; `wrap` is what `%w` makes of an error.
unfoldable pub issue_tokens :
    Env → Crypto → (Error → Error) → ℕ → String → Device → Exec AuthResponse
issue_tokens env crypto wrap user_id email device = do
  access ← generate_token env crypto user_id email
  refresh ← generate_random_token env
  now ← gets (λ w. env.now w.clock)
  recover (RefreshTokens.create env (new_token user_id (env.sha256_hex refresh) device now))
      (λ e. raise (wrap e))
  pure (auth_response access refresh)

unfoldable pub login : Env → Crypto → String → String → Device → Exec AuthResponse
login env crypto email password device = do
  found ← get_by_email env email
  raise_if (found.0 == 0) invalid_credentials
  raise_if (not (crypto.bcrypt_matches found.1 password)) invalid_credentials
  issue_tokens env crypto save_refresh_token found.0 email device

-- `errors.Is(err, repository.ErrRefreshTokenNotFound)`
abbrev pub token_error : Error → Error
token_error Error.refresh_token_not_found = invalid_refresh_token
token_error e = e

-- An empty field is taken from the old token.
abbrev pub or_stored : String → String → String
or_stored given stored = if str_eq given "" then stored else given

abbrev pub effective : Device → RefreshToken → Device
effective device stored = record {
  device_id = or_stored device.device_id stored.device_id;
  user_agent = or_stored device.user_agent stored.user_agent;
  ip_address = or_stored device.ip_address stored.ip_address;
}

-- A revoked token that comes back revokes all of the user's; an error of that is dropped.
unfoldable pub refuse_reuse : Env → ℕ → Exec AuthResponse
refuse_reuse env user_id = do
  recover (revoke_all_by_user_id env user_id) (λ _. pure tt)
  raise refresh_token_revoked

-- From the revocation of the old token to the new one.
unfoldable pub rotate : Env → Crypto → String → RefreshToken → Device → Exec AuthResponse
rotate env crypto hash stored device = do
  now ← gets (λ w. env.now w.clock)
  raise_if (ltb stored.expires_at now) refresh_token_expired
  recover (revoke_by_hash env hash) (λ e. raise (revoke_refresh_token e))
  user ← recover (Users.get_by_id env stored.user_id) (λ _. raise user_not_found)
  raise_if (str_eq user.0 "") user_not_found
  issue_tokens env crypto save_new_refresh_token stored.user_id user.0 (effective device stored)

abbrev pub rotate_or_refuse : Env → Crypto → String → Device → RefreshToken → Exec AuthResponse
rotate_or_refuse env crypto hash device stored =
    if stored.is_revoked
    then refuse_reuse env stored.user_id
    else rotate env crypto hash stored device

unfoldable pub refresh : Env → Crypto → String → Device → Exec AuthResponse
refresh env crypto raw_refresh_token device = do
  stored ← recover (get_by_hash env (env.sha256_hex raw_refresh_token)) (λ e. raise (token_error e))
  rotate_or_refuse env crypto (env.sha256_hex raw_refresh_token) device stored

unfoldable pub revoke_device : Env → ℕ → ℤ → Exec (Unit {0})
revoke_device env user_id session_id = revoke_session_by_id env user_id session_id

unfoldable pub profile : Env → ℕ → Exec String
profile env user_id = do
  user ← Users.get_by_id env user_id
  raise_if (str_eq user.0 "") user_not_found
  pure user.0
