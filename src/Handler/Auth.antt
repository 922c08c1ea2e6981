-- ===== src/Handler/Auth.antt =====
-- internal/handler/auth.go. A handler is given what gin has read of the request: the JSON body
-- (`none` where binding fails), headers, the client's address and the user of the token.
use go_ewallet_backend.Prelude.{ℕ, String, Option, none, some, List, ◌||◌, str_eq, if◌then◌else◌}
use go_ewallet_backend.Prelude.Int.{ℤ}
use go_ewallet_backend.Model.{
  RegisterRequest, RefreshTokenRequest, LogoutRequest, AuthResponse, DeviceSessionResponse,
}
use go_ewallet_backend.Runtime.{Error, Env, World, Exec, pure, ◌>>◌}
use go_ewallet_backend.Runtime.Redis.{Redis, Contact}
use go_ewallet_backend.Repository.History.{Planner}
use go_ewallet_backend.Service.Auth
use go_ewallet_backend.Service.Auth.{Crypto, Device}
use go_ewallet_backend.Service.Sessions
use go_ewallet_backend.Service.Sessions.{get_active_devices}
use go_ewallet_backend.Handler.Numbers.{atoi}
use go_ewallet_backend.Handler.Replies.{
  Body, Reply, fail_with, reply_to, map_auth_error, error_text, errors_is, is_token_missing,
}

pub record LoginRequestBody : Type 0 where
  pub email : String
  pub password : String
  pub device_id : String

-- The headers `X-Device-ID` and `User-Agent`, "" where missing, and `c.ClientIP()`.
pub record Client : Type 0 where
  pub x_device_id : String
  pub user_agent : String
  pub ip_address : String

-- `binding:"required"` of `RefreshTokenRequest`: an empty token fails to bind.
abbrev pub bound : Option RefreshTokenRequest → Option RefreshTokenRequest
bound none = none
bound (some req) = if str_eq req.refresh_token "" then none else some req

abbrev pub device_of : String → Client → Device
device_of device_id client = record {
  device_id = if str_eq device_id "" then client.x_device_id else device_id;
  user_agent = client.user_agent;
  ip_address = client.ip_address;
}

-- A session that is not the user's is 404; `sessions` and `RevokeDevice` know no other cases.
abbrev pub session_error : (Error → String) → Error → ℕ × String
session_error texts e =
    if errors_is is_token_missing e then (404, "Session not found") else (500, error_text texts e)

abbrev pub internal_error : (Error → String) → Error → ℕ × String
internal_error texts e = (500, error_text texts e)

module _ (texts : Error → String) (env : Env) where
  abbrev pub auth_reply : {A : Type 0} → ℕ → String → Exec A → World → Reply A × World
  auth_reply status message call w = reply_to (map_auth_error texts) status message (call w)

  -- The reply names the email that was registered.
  unfoldable pub register : Crypto → Option RegisterRequest → World → Reply String × World
  register crypto none w = (fail_with 400 "Invalid request body", w)
  register crypto (some req) w =
      if str_eq req.email "" || str_eq req.password ""
      then (fail_with 400 "Email and Password are required", w)
      else auth_reply 201 "User registered successfully"
          (do Auth.register env crypto req.email req.password; pure req.email) w

  unfoldable pub login :
      Crypto → Client → Option LoginRequestBody → World → Reply AuthResponse × World
  login crypto client none w = (fail_with 400 "Invalid request body", w)
  login crypto client (some req) w =
      if str_eq req.email "" || str_eq req.password ""
      then (fail_with 400 "Email and password are required", w)
      else auth_reply 200 "Login successful"
          (Auth.login env crypto req.email req.password (device_of req.device_id client)) w

  unfoldable pub exchange :
      Crypto → Client → Option RefreshTokenRequest → World → Reply AuthResponse × World
  exchange crypto client none w =
      (fail_with 400 "Invalid request body, refresh_token is required", w)
  exchange crypto client (some req) w =
      auth_reply 200 "Token refreshed successfully"
        (Auth.refresh env crypto req.refresh_token (device_of req.device_id client)) w

  unfoldable pub refresh :
      Crypto → Client → Option RefreshTokenRequest → World → Reply AuthResponse × World
  refresh crypto client body = exchange crypto client (bound body)

  unfoldable pub profile : ℕ → World → Reply String × World
  profile user_id = auth_reply 200 "" (Auth.profile env user_id)

  unfoldable pub get_devices : Planner → ℕ → World → Reply (List DeviceSessionResponse) × World
  get_devices planner user_id w =
      reply_to (internal_error texts) 200 "" (get_active_devices env planner user_id w)

  unfoldable pub revoke_session : ℕ → Option ℤ → World → Reply (Unit {0}) × World
  revoke_session user_id none w = (fail_with 400 "Invalid session ID", w)
  revoke_session user_id (some session_id) w =
      reply_to (session_error texts) 200 "Device session revoked successfully"
        (Auth.revoke_device env user_id session_id w)

  -- `strconv.ParseInt(sessionIDParam, 10, 64)`
  unfoldable pub revoke_device : ℕ → String → World → Reply (Unit {0}) × World
  revoke_device user_id session_id_param = revoke_session user_id (atoi session_id_param)

  -- A body that does not bind is taken as far as it was read: `refresh_token` is "" where missing.
  unfoldable pub logout :
      (redis : Redis)
      → Contact
      → ℕ
      → String
      → LogoutRequest
      → redis.State
      → World
      → Reply (Unit {0}) × redis.State × World
  logout redis contact now auth_header req s w =
      let (result, s', w') =
        Sessions.logout env redis contact now auth_header req.refresh_token s w in
      let (reply, w'') =
        reply_to (internal_error texts) 200 "Logged out successfully" (result, w') in
      (reply, s', w'')

abbrev pub health : Reply (Unit {0})
health = record { status = 200; body = Body.success "Server is running" tt }
