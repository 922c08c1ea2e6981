-- ===== src/Handler/Middleware.antt =====
-- internal/handler/middleware.go
pub mod Blacklist
use go_ewallet_backend.Prelude.{
  ℕ, String, Bool, true, false, Option, none, some, str_eq, if◌then◌else◌,
}
use go_ewallet_backend.Runtime.Redis.{Redis, Contact}
use go_ewallet_backend.Service.Sessions.{cut_prefix, is_token_blacklisted}

-- How a token says that it is signed.
pub data Method : Type 0 where
  hmac other_method : Method

-- `claims["id"]`, `claims["email"]`, and the expiry in seconds.
pub record Claims : Type 0 where
  pub id : ℕ
  pub email : String
  pub exp : ℕ

-- The key function refuses a token that is not signed by HMAC.
abbrev pub key_function : Method → Bool
key_function hmac = true
key_function other_method = false

pub data Access : Type 0 where
  -- `c.Set("id", …)`, `c.Set("email", …)` and `c.Next()`
  next : (id : ℕ) → (email : String) → Access
  -- 401 with this error.
  unauthorized : String → Access

-- `parse` is `jwt.Parse` at a time, with the test that the key function makes: `none` where it
-- returns an error or the token is not valid.
module _ (parse : (Method → Bool) → ℕ → String → Option Claims) (redis : Redis) where
  abbrev pub admit : Contact → ℕ → String → redis.State → Option Claims → Access
  admit contact now token s none = unauthorized "Invalid or expired token"
  admit contact now token s (some claims) =
      if is_token_blacklisted redis contact now token s
      then unauthorized "Token has been invalidated"
      else next claims.id claims.email

  unfoldable pub jwt_middleware : Contact → ℕ → String → redis.State → Access
  jwt_middleware contact now auth_header s =
      if str_eq auth_header ""
      then unauthorized "Authorization header required"
      else elim (cut_prefix "Bearer " auth_header) [
        | none ↦ unauthorized "Invalid authorization format"
        | some token ↦ admit contact now token s (parse key_function now token)
      ]
