-- ===== src/Service/Sessions.antt =====
-- internal/service/auth.go: `Logout` and `GetActiveDevices`; internal/database/redis.go:
-- `BlacklistToken` and `IsTokenBlacklisted`.
use go_ewallet_backend.Prelude.{
  ℕ, ◌/◌, String, Bool, false, Option, none, some, List, str_eq, ◌==◌, if◌then◌else◌,
}
use go_ewallet_backend.Model.{DeviceSessionResponse}
use go_ewallet_backend.Runtime.{Result, ok, Env, World, Exec, pure, recover}
use go_ewallet_backend.Runtime.Redis.{Redis, Contact, contacted}
use go_ewallet_backend.Repository.History.{Planner, get_active_sessions_by_user_id}
use go_ewallet_backend.Repository.RefreshTokens.{revoke_by_hash}
use go_ewallet_backend.Service.Auth.{access_token_duration}
use Prim.Native.Char.{code}
use Prim.Native.String.{[], ◌∷◌, ◌++◌ as concat}

-- `strings.CutPrefix`: what follows the prefix, if the text starts with it.
unfoldable pub cut_prefix : String → String → Option String
cut_prefix [] s = some s
cut_prefix (c ∷ p) [] = none
cut_prefix (c ∷ p) (d ∷ s) = let rest = cut_prefix p s in if code c == code d then rest else none

-- `strings.TrimPrefix`
abbrev pub trim_prefix : String → String → String
trim_prefix p s = elim (cut_prefix p s) [ none ↦ s | some rest ↦ rest ]

abbrev pub blacklist_key : String → String
blacklist_key token = concat "blacklisted:" token

abbrev pub seconds_of : ℕ → ℕ
seconds_of duration = duration / 1000000000

module _ (redis : Redis) where
  unfoldable pub blacklist_token :
      Contact → ℕ → String → ℕ → redis.State → Option (Unit {0}) × redis.State
  blacklist_token contact now token expiry s =
      contacted contact s (tt, redis.set now (blacklist_key token) (seconds_of expiry) s)

  -- An error counts as "not blacklisted".
  unfoldable pub is_token_blacklisted : Contact → ℕ → String → redis.State → Bool
  is_token_blacklisted contact now token s =
      elim (contacted contact s (redis.exists now (blacklist_key token) s, s)).0 [
        | none ↦ false
        | some found ↦ found
      ]

  -- The access token's part of `Logout`; an error is dropped.
  unfoldable pub drop_access_token : Contact → ℕ → String → redis.State → redis.State
  drop_access_token contact now auth_header s =
      if str_eq auth_header ""
      then s
      else (blacklist_token contact now (trim_prefix "Bearer " auth_header) access_token_duration
          s).1

-- The refresh token's part; an error is dropped.
unfoldable pub drop_refresh_token : Env → String → Exec (Unit {0})
drop_refresh_token env raw_refresh_token =
    if str_eq raw_refresh_token ""
    then pure tt
    else recover (revoke_by_hash env (env.sha256_hex raw_refresh_token)) (λ e. pure tt)

-- Nothing that fails makes it fail.
unfoldable pub logout :
    Env
    → (redis : Redis) → Contact
    → ℕ
    → String
    → String
    → redis.State
    → World
    → Result (Unit {0}) × redis.State × World
logout env redis contact now auth_header raw_refresh_token s w = (
  ok tt,
  drop_access_token redis contact now auth_header s,
  (drop_refresh_token env raw_refresh_token w).1,
)

unfoldable pub get_active_devices : Env → Planner → ℕ → Exec (List DeviceSessionResponse)
get_active_devices env planner user_id = get_active_sessions_by_user_id env planner user_id
