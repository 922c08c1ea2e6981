-- ===== src/Server/Money.antt =====
-- main.go: the books and the money over requests to the server.
use go_ewallet_backend.Prelude.{ℕ, String, ◌≡◌, refl, sym, ap, subst, List, [], ◌∷◌}
use go_ewallet_backend.Prelude.Int.{ℤ, pos, pos_part, neg_part, ◌+ℤ◌, int_laws}
use go_ewallet_backend.Model.{Db, LogoutRequest, empty_db}
use go_ewallet_backend.Runtime.{Env, World}
use go_ewallet_backend.Runtime.Redis.{Redis}
use go_ewallet_backend.Runtime.Atomicity.{quiet_rules}
use go_ewallet_backend.Service.Auth.Money.{
  Frugal, Frugal-if, Frugal-Quiet, Frugal-recover, Frugal-revoke_by_hash,
}
use go_ewallet_backend.Service.Books.{IsSound}
use go_ewallet_backend.Service.Books.PaidIn.{paid_in}
use go_ewallet_backend.Service.Books.Rows.{total_balance}
use go_ewallet_backend.Service.Sessions.{drop_refresh_token, logout}
use go_ewallet_backend.Service.Wallet.Requests.Money.{Backed, Backed-trans}
use go_ewallet_backend.Handler.Replies.{Reply}
use go_ewallet_backend.Handler.Auth
use go_ewallet_backend.Handler.Middleware.{Access, next, unauthorized, jwt_middleware}
use go_ewallet_backend.Handler.RateLimit.{
  Identity, Limiter, Verdict, too_many_requests, rate_limiter,
}
use go_ewallet_backend.Server.{
  Setting, State, HttpRequest, ApiCall, Call, plain, judged, limited, log_out, serve_api, admitted,
  serve_call, serve, serve_all, profile, get_devices, get_balance, revoke_device, create_top_up,
  confirm_top_up, transfer, get_top_up_orders, get_ledger_entries, get_history_transfer, health,
  otp, register, login, refresh, api,
}
use go_ewallet_backend.Server.Orderly.{Orderly, Orderly-refl, Orderly-SameMoney, Proper}
use go_ewallet_backend.Server.Handlers.{
  Proper-transfer_handler, Proper-create_handler, Proper-confirm_handler, Proper-register_handler,
  Proper-login, Proper-refresh, Proper-profile, Proper-get_devices, Proper-show_balance,
  Proper-revoke_device, Proper-list_top_ups, Proper-list_ledger, Proper-list_transfers,
}

Frugal-drop_refresh_token : (env : Env) (raw : String) → Frugal (drop_refresh_token env raw)
unfolding drop_refresh_token
Frugal-drop_refresh_token env raw =
    search (Frugal-if, Frugal-Quiet, Frugal-recover, Frugal-revoke_by_hash, quiet_rules) depth 20

-- Empty tables are in order.
empty-IsSound : IsSound empty_db
empty-IsSound = (
  record { unique = tt; in_range = λ k w h. cc; explained = λ k w h. cc; unused = λ k h. refl },
  tt,
)

module _ (redis : Redis) where
  -- What a request leaves.
  record Honest (f : State redis → ℕ × State redis) : Type 0 where
    at : (s : State redis) → Orderly s.world.committed (f s).1.world.committed

  Honest-same : (status : ℕ) → Honest (λ s. (status, s))
  Honest-same status = record { at = λ s. Orderly-refl s.world.committed }

  module _ (setting : Setting) where
    Honest-plain :
        {A : Type 0} (handler : World → Reply A × World)
        → Proper handler
        → Honest (plain redis setting handler)
    Honest-plain handler h = record { at = λ s. h.at s.world }

    judged-Orderly :
        (handler : State redis → ℕ × State redis)
        → Honest handler
        → (w : World) (verdict : Verdict × redis.State)
        → Orderly w.committed (judged redis setting handler w verdict).1.world.committed
    judged-Orderly handler h w (Verdict.next quota, store) =
        h.at (record { world = w; store = store })
    judged-Orderly handler h w (too_many_requests quota seconds, store) = Orderly-refl w.committed

    Honest-limited :
        (limiter : Limiter) (who : Identity) (handler : State redis → ℕ × State redis)
        → Honest handler
        → Honest (limited redis setting limiter who handler)
    unfolding limited
    Honest-limited limiter who handler h = record {
      at = λ s.
          judged-Orderly handler h s.world (
            rate_limiter setting.env redis limiter who setting.limiter_contact setting.now s.store);
    }

    Honest-log_out :
        (authorization : String) (req : LogoutRequest)
        → Honest (log_out redis setting authorization req)
    unfolding log_out Auth.logout logout
    Honest-log_out authorization req = record {
      at = λ s.
          Orderly-SameMoney s.world.committed
            (drop_refresh_token setting.env req.refresh_token s.world).1.committed
            ((Frugal-drop_refresh_token setting.env req.refresh_token).at s.world);
    }

    ruleset honest_rules = (
      Honest-same, Honest-plain, Honest-limited, Honest-log_out, Proper-transfer_handler,
      Proper-create_handler, Proper-confirm_handler, Proper-register_handler, Proper-login,
      Proper-refresh, Proper-profile, Proper-get_devices, Proper-show_balance, Proper-revoke_device,
      Proper-list_top_ups, Proper-list_ledger, Proper-list_transfers,
    )

    Honest-api :
        (user_id : ℕ) (request : HttpRequest) (call : ApiCall)
        → Honest (serve_api redis setting user_id request call)
    unfolding serve_api
    Honest-api user_id request profile = search honest_rules
    Honest-api user_id request get_devices = search honest_rules
    Honest-api user_id request get_balance = search honest_rules
    Honest-api user_id request (ApiCall.logout req) = search honest_rules
    Honest-api user_id request (revoke_device session_id) = search honest_rules
    Honest-api user_id request (create_top_up key req) = search honest_rules
    Honest-api user_id request (confirm_top_up reference_id key req) = search honest_rules
    Honest-api user_id request (transfer key req) = search honest_rules
    Honest-api user_id request (get_top_up_orders paging) = search honest_rules
    Honest-api user_id request (get_ledger_entries paging) = search honest_rules
    Honest-api user_id request (get_history_transfer paging) = search honest_rules

    admitted-Orderly :
        (request : HttpRequest) (call : ApiCall) (s : State redis) (access : Access)
        → Orderly s.world.committed (admitted redis setting request call s access).1.world.committed
    admitted-Orderly request call s (next id email) = (Honest-api id request call).at s
    admitted-Orderly request call s (unauthorized message) = Orderly-refl s.world.committed

    Honest-call :
        (request : HttpRequest) (call : Call) → Honest (serve_call redis setting request call)
    unfolding serve_call
    Honest-call request health = search honest_rules
    Honest-call request otp = search honest_rules
    Honest-call request (register req) = search honest_rules
    Honest-call request (login req) = search honest_rules
    Honest-call request (refresh req) = search honest_rules
    Honest-call request (Call.logout req) = search honest_rules
    Honest-call request (api call) = record {
      at = λ s. admitted-Orderly request call s (
          jwt_middleware setting.parse redis setting.blacklist_contact setting.now
            request.authorization s.store);
    }

    serve-Orderly :
        (request : HttpRequest) (s : State redis)
        → Orderly s.world.committed (serve redis setting request s).1.world.committed
    unfolding serve
    serve-Orderly request s = (Honest-call request request.call).at s

  serve_all-Orderly :
      (rs : List (Setting × HttpRequest)) (s : State redis)
      → Orderly s.world.committed (serve_all redis rs s).world.committed
  unfolding serve_all
  serve_all-Orderly [] s sound = (sound, refl)
  serve_all-Orderly ((setting, request) ∷ rs) s sound =
      let after = (serve redis setting request s).1 in
      let (kept, backed) = serve-Orderly setting request s sound in
      let (kept', backed') = serve_all-Orderly rs after kept in
      (
        kept',
        Backed-trans s.world.committed after.world.committed
            (serve_all redis rs after).world.committed backed backed',
      )

zero_start : (x y : ℤ) → x +ℤ pos 0 ≡ pos 0 +ℤ y → x ≡ y
zero_start x y h = omega (int_laws, ap pos_part h, ap neg_part h)

-- The books are in order, and all money has been paid in.
abbrev pub IsSolvent : Db → Type 0
IsSolvent d = IsSound d × (total_balance d.wallets ≡ paid_in d.top_up_orders)

-- On a server that starts with empty tables, after any sequence of HTTP requests of any users, in
-- any surroundings (whatever fails, whatever Redis answers, whatever tokens parse): the books are
-- in order, and the sum of all balances is the sum of the top up orders that are successful.
pub serve_all-IsSolvent :
    (redis : Redis) (rs : List (Setting × HttpRequest)) (s : State redis)
    → s.world.committed ≡ empty_db
    → IsSolvent (serve_all redis rs s).world.committed
serve_all-IsSolvent redis rs s empty =
    let (sound, backed) = serve_all-Orderly redis rs s (subst IsSound (sym empty) empty-IsSound) in
    (
      sound,
      zero_start (total_balance (serve_all redis rs s).world.committed.wallets)
          (paid_in (serve_all redis rs s).world.committed.top_up_orders)
          (subst (λ d. Backed d (serve_all redis rs s).world.committed) empty backed),
    )
