-- ===== src/Server.antt =====
-- main.go: the routes, and the handlers in front of them. A request is what gin has parsed; the
-- reply is kept as its status.
pub mod Reads
pub mod Orderly
pub mod Handlers
pub mod Money
pub mod Failing
pub mod Admission
use go_ewallet_backend.Prelude.{ℕ, String, Bool, Option, List, [], ◌∷◌, ◌*◌}
use go_ewallet_backend.Prelude.Int.{ℤ, pos}
use go_ewallet_backend.Model.{
  RegisterRequest, RefreshTokenRequest, LogoutRequest, TransferRequest, CreateTopUpRequest,
  ConfirmTopUpRequest,
}
use go_ewallet_backend.Runtime.{Error, Env, World}
use go_ewallet_backend.Runtime.Redis.{Redis, Contact}
use go_ewallet_backend.Repository.History.{Planner}
use go_ewallet_backend.Service.Auth.{Crypto}
use go_ewallet_backend.Handler.Replies.{Reply}
use go_ewallet_backend.Handler.Wallet
use go_ewallet_backend.Handler.Wallet.{Caller, Paging}
use go_ewallet_backend.Handler.Auth
use go_ewallet_backend.Handler.Auth.{Client, LoginRequestBody}
use go_ewallet_backend.Handler.Middleware.{
  Method, Claims, Access, next, unauthorized, jwt_middleware,
}
use go_ewallet_backend.Handler.RateLimit.{
  Identity, user, ip, Limiter, Verdict, too_many_requests, rate_limiter,
}

-- The limiters, all of a minute.
abbrev pub per_minute : String → ℕ → Limiter
per_minute action limit = record { action = action; limit = limit; window = pos (60 * 1000000000) }

abbrev pub login_limiter : Limiter
login_limiter = per_minute "login" 5

abbrev pub refresh_limiter : Limiter
refresh_limiter = per_minute "refresh" 10

abbrev pub otp_limiter : Limiter
otp_limiter = per_minute "otp" 3

abbrev pub transfer_limiter : Limiter
transfer_limiter = per_minute "transfer" 20

abbrev pub topup_limiter : Limiter
topup_limiter = per_minute "topup" 50

abbrev pub caller : ℕ → String → Caller
caller user_id key = record { user_id = user_id; idempotency_key = key }

-- For the handlers that read no `Idempotency-Key`.
abbrev pub anonymous : ℕ → Caller
anonymous user_id = caller user_id ""

-- What a request of the group /api asks for. The texts are the `Idempotency-Key` header and path
-- parameters; several paths share a handler.
pub data ApiCall : Type 0 where
  profile get_devices get_balance : ApiCall
  logout : LogoutRequest → ApiCall
  revoke_device : String → ApiCall
  create_top_up : String → Option CreateTopUpRequest → ApiCall
  confirm_top_up : (reference_id : String) → String → Option ConfirmTopUpRequest → ApiCall
  transfer : String → Option TransferRequest → ApiCall
  get_top_up_orders get_ledger_entries get_history_transfer : Paging → ApiCall

pub data Call : Type 0 where
  health otp : Call
  register : Option RegisterRequest → Call
  login : Option LoginRequestBody → Call
  refresh : Option RefreshTokenRequest → Call
  logout : LogoutRequest → Call
  api : ApiCall → Call

-- A call with its `Authorization` header, "" where it is missing, and its client.
pub record HttpRequest : Type 0 where
  pub call : Call
  pub authorization : String
  pub client : Client

-- What surrounds one request: the services' surroundings, the time in seconds, and how the
-- request's commands to Redis fare.
pub record Setting : Type 1 where
  pub texts : Error → String
  pub env : Env
  pub crypto : Crypto
  pub planner : Planner
  pub parse : (Method → Bool) → ℕ → String → Option Claims
  pub now : ℕ
  pub blacklist_contact : Contact
  pub limiter_contact : Contact
  pub logout_contact : Contact

module _ (redis : Redis) where
  pub record State : Type 0 where
    pub world : World
    pub store : redis.State

  module _ (setting : Setting) where
    -- A handler that does not use Redis.
    abbrev pub plain : {A : Type 0} → (World → Reply A × World) → State → ℕ × State
    plain handler s = let (reply, w) = handler s.world in (reply.status, record s { world = w })

    abbrev pub judged : (State → ℕ × State) → World → Verdict × redis.State → ℕ × State
    judged handler w (Verdict.next quota, store) = handler (record { world = w; store = store })
    judged handler w (too_many_requests quota seconds, store) =
        (429, record { world = w; store = store })

    -- A rate limiter in front of a handler.
    unfoldable pub limited : Limiter → Identity → (State → ℕ × State) → State → ℕ × State
    limited limiter who handler s =
        judged handler s.world
          (rate_limiter setting.env redis limiter who setting.limiter_contact setting.now s.store)

    unfoldable pub log_out : String → LogoutRequest → State → ℕ × State
    log_out authorization req s =
        let (reply, store, w) =
          Auth.logout setting.texts setting.env redis setting.logout_contact setting.now
            authorization req s.store s.world in
        (reply.status, record { world = w; store = store })

    -- The routes of /api, for the user that the token names.
    unfoldable pub serve_api : ℕ → HttpRequest → ApiCall → State → ℕ × State
    serve_api user_id request call = elim call [
      | profile ↦ plain (Auth.profile setting.texts setting.env user_id)
      | get_devices ↦ plain (Auth.get_devices setting.texts setting.env setting.planner user_id)
      | get_balance ↦ plain (Wallet.show_balance setting.texts setting.env (anonymous user_id))
      | ApiCall.logout req ↦ log_out request.authorization req
      | revoke_device session_id ↦
          plain (Auth.revoke_device setting.texts setting.env user_id session_id)
      | create_top_up key req ↦
          limited topup_limiter (user user_id)
            (plain (Wallet.create_top_up setting.texts setting.env (caller user_id key) req))
      | confirm_top_up reference_id key req ↦
          limited topup_limiter (user user_id)
            (plain (Wallet.confirm setting.texts setting.env (caller user_id key) reference_id req))
      | transfer key req ↦
          limited transfer_limiter (user user_id)
            (plain (Wallet.transfer setting.texts setting.env (caller user_id key) req))
      | get_top_up_orders paging ↦
          plain (
            Wallet.list_top_ups setting.texts setting.env setting.planner (anonymous user_id)
              paging)
      | get_ledger_entries paging ↦
          plain (
            Wallet.list_ledger setting.texts setting.env setting.planner (anonymous user_id) paging)
      | get_history_transfer paging ↦ plain (
          Wallet.list_transfers setting.texts setting.env setting.planner (anonymous user_id)
            paging)
    ]

    abbrev pub admitted : HttpRequest → ApiCall → State → Access → ℕ × State
    admitted request call s (next id email) = serve_api id request call s
    admitted request call s (unauthorized message) = (401, s)

    -- Outside /api the limiters know a client by its address.
    unfoldable pub serve_call : HttpRequest → Call → State → ℕ × State
    serve_call request call = elim call [
      | health ↦ λ s. (Auth.health.status, s)
      | otp ↦ limited otp_limiter (ip request.client.ip_address) (λ s. (200, s))
      | register req ↦ plain (Auth.register setting.texts setting.env setting.crypto req)
      | login req ↦
          limited login_limiter (ip request.client.ip_address)
            (plain (Auth.login setting.texts setting.env setting.crypto request.client req))
      | refresh req ↦
          limited refresh_limiter (ip request.client.ip_address)
            (plain (Auth.refresh setting.texts setting.env setting.crypto request.client req))
      | Call.logout req ↦ log_out request.authorization req
      | api asked ↦ λ s. admitted request asked s (
          jwt_middleware setting.parse redis setting.blacklist_contact setting.now
            request.authorization s.store)
    ]

    unfoldable pub serve : HttpRequest → State → ℕ × State
    serve request s = serve_call request request.call s

  -- Requests one after the other, each in a setting of its own.
  unfoldable pub serve_all : List (Setting × HttpRequest) → State → State
  unfolding serve
  serve_all [] s = s
  serve_all ((setting, request) ∷ rest) s = serve_all rest (serve setting request s).1
