-- ===== src/Handler/RateLimit.antt =====
-- internal/handler/ratelimit.go. The client library hands back the script's reply, two integers, or
-- an error; replies of another form, which Redis does not send, are left out, and so is a missing
-- client, since main.go always passes one.
pub mod Keys
pub mod Window
use go_ewallet_backend.Prelude.{
  ℕ, ◌+◌, ◌-◌, ◌/◌, String, Bool, Option, none, some, ◌==◌, ltb, if◌then◌else◌,
}
use go_ewallet_backend.Prelude.Int.{ℤ, pos, negsuc}
use go_ewallet_backend.Runtime.{Env}
use go_ewallet_backend.Runtime.Redis.{Redis, Contact, contacted}
use Prim.Native.String.{◌++◌ as concat}

-- The user of the token, where the JWT middleware has run, or the client's address.
pub data Identity : Type 0 where
  user : ℕ → Identity
  ip : String → Identity

-- `window` is in nanoseconds.
pub record Limiter : Type 0 where
  pub action : String
  pub limit : ℕ
  pub window : ℤ

abbrev pub identifier : Env → Identity → String
identifier env (user id) = concat "user:" (env.format_float id)
identifier env (ip address) = concat "ip:" address

abbrev pub limit_key : Env → Limiter → Identity → String
limit_key env limiter who =
    concat "rate_limit:" (concat limiter.action (concat ":" (identifier env who)))

-- `int64(window.Seconds())`, or 60 where that is not positive.
abbrev pub window_seconds : ℤ → ℕ
window_seconds (pos n) = if n / 1000000000 == 0 then 60 else n / 1000000000
window_seconds (negsuc n) = 60

module _ (redis : Redis) where
  -- `rateLimitScript`
  unfoldable pub rate_limit_script : ℕ → String → ℕ → redis.State → (ℕ × ℤ) × redis.State
  rate_limit_script now key seconds s =
      let (current, s₁) = redis.incr now key s in
      let s₂ = if current == 1 then redis.expire now key seconds s₁ else s₁ in
      ((current, redis.ttl now key s₂), s₂)

-- The headers; the time of the reset is in seconds.
pub record Quota : Type 0 where
  pub limit : ℕ
  pub remaining : ℕ
  pub reset : ℕ

-- `next` is `c.Next()`. Where Redis has failed there are no headers.
pub data Verdict : Type 0 where
  next : Option Quota → Verdict
  too_many_requests : Quota → (retry_after : ℕ) → Verdict

abbrev pub is_next : Verdict → Bool
is_next (next _) = Bool.true
is_next (too_many_requests _ _) = Bool.false

-- `if ttl < 0 { ttl = windowSeconds }`
abbrev pub ttl_or : ℕ → ℤ → ℕ
ttl_or seconds (pos n) = n
ttl_or seconds (negsuc n) = seconds

-- `limit - count`, and 0 where that is negative.
abbrev pub quota : Limiter → ℕ → ℕ → ℕ → Quota
quota limiter now count ttl = record {
  limit = limiter.limit;
  remaining = limiter.limit - count;
  reset = now + ttl;
}

unfoldable pub judge : Limiter → ℕ → Option (ℕ × ℤ) → Verdict
judge limiter now none = next none
judge limiter now (some (count, ttl)) =
    let seconds = ttl_or (window_seconds limiter.window) ttl in
    if ltb limiter.limit count
    then too_many_requests (quota limiter now count seconds) seconds
    else next (some (quota limiter now count seconds))

unfoldable pub rate_limiter :
    Env → (redis : Redis) → Limiter → Identity → Contact → ℕ → redis.State → Verdict × redis.State
rate_limiter env redis limiter who contact now s =
    let (reply, s') =
      contacted contact s (
        rate_limit_script redis now (limit_key env limiter who) (window_seconds limiter.window)
          s) in
    (judge limiter now reply, s')
