-- ===== src/Server/Failing.antt =====
-- main.go: what a reply with an error status means for the tables.
use go_ewallet_backend.Prelude.{
  ℕ, ◌≤◌, ◌<◌, String, ◌≡◌, refl, Bool, true, false, Option, none, some, arith, if◌then◌else◌,
  str_eq, ◌||◌,
}
use go_ewallet_backend.Model.{
  RegisterRequest, TransferRequest, CreateTopUpRequest, ConfirmTopUpRequest,
}
use go_ewallet_backend.Runtime.{Env, World, Error, Result, ok, err, Exec, pure, ◌>>=◌, after}
use go_ewallet_backend.Runtime.Redis.{Redis}
use go_ewallet_backend.Runtime.Atomicity.{Atomic, Unchanged}
use go_ewallet_backend.Service.Auth.{Crypto}
use go_ewallet_backend.Service.Auth.Register.{Atomic-register}
use go_ewallet_backend.Service.Wallet.Atomicity.{
  Atomic-transfer, Atomic-create_top_up, Atomic-confirm_top_up,
}
use go_ewallet_backend.Handler.Replies.{Reply, reply_to, fail_with}
use go_ewallet_backend.Handler.Auth
use go_ewallet_backend.Handler.Wallet
use go_ewallet_backend.Handler.Wallet.{Caller}
use go_ewallet_backend.Handler.Middleware.{Access, next, unauthorized, jwt_middleware}
use go_ewallet_backend.Handler.RateLimit.{
  Identity, Limiter, Verdict, too_many_requests, rate_limiter,
}
use go_ewallet_backend.Server.{
  Setting, State, HttpRequest, ApiCall, Call, plain, judged, limited, serve_api, admitted,
  serve_call, serve, create_top_up, confirm_top_up, transfer, register, api,
}

-- A handler whose reply with an error status has left the committed tables as they were.
pub record Safe {A : Type 0} (f : World → Reply A × World) : Type 0 where
  pub at : (w : World) → 400 ≤ (f w).0.status → (f w).1.committed ≡ w.committed

reply-Unchanged :
    {A : Type 0} (map_error : Error → ℕ × String) (status : ℕ) (message : String)
    (r : Result A × World) (w : World)
    → status < 400
    → Unchanged w r
    → 400 ≤ (reply_to map_error status message r).0.status
    → (reply_to map_error status message r).1.committed ≡ w.committed
reply-Unchanged map_error status message (ok a, v) w low h high = absurd (omega arith)
reply-Unchanged map_error status message (err e, v) w low h high = h

module _ {A : Type 0} where
  Safe-reply :
      (map_error : Error → ℕ × String) (status : ℕ) (message : String) (m : Exec A)
      → status < 400
      → Atomic m
      → Safe (λ w. reply_to map_error status message (m w))
  Safe-reply map_error status message m low h = record {
    at = λ w. reply-Unchanged map_error status message (m w) w low (h.at w);
  }

  Safe-refuse : (reply : Reply A) → Safe (λ w. (reply, w))
  Safe-refuse reply = record { at = λ w high. refl }

  Safe-if :
      (b : Bool) (f g : World → Reply A × World)
      → Safe f
      → Safe g
      → Safe (λ w. if b then f w else g w)
  Safe-if true f g hf hg = hf
  Safe-if false f g hf hg = hg

module _ {A B : Type 0} (b : B) where
  then_pure :
      (w : World) (r : Result A × World) → Unchanged w r → Unchanged w (after r (λ _. pure b))
  then_pure w (ok a, v) h = tt
  then_pure w (err e, v) h = h

  Atomic-bind_pure : (m : Exec A) → Atomic m → Atomic (m >>= λ _. pure b)
  unfolding ◌>>=◌
  Atomic-bind_pure m h = record { at = λ w. then_pure w (m w) (h.at w) }

module _ (texts : Error → String) (env : Env) where
  Safe-transfer :
      (caller : Caller) (req : Option TransferRequest) → Safe (Wallet.transfer texts env caller req)
  unfolding Wallet.transfer
  Safe-transfer caller none = search Safe-refuse
  Safe-transfer caller (some req) =
      Safe-reply _ _ _ _ (omega arith)
        (Atomic-transfer env caller.user_id caller.idempotency_key req)

  Safe-create_top_up :
      (caller : Caller) (req : Option CreateTopUpRequest)
      → Safe (Wallet.create_top_up texts env caller req)
  unfolding Wallet.create_top_up
  Safe-create_top_up caller none = search Safe-refuse
  Safe-create_top_up caller (some req) =
      Safe-reply _ _ _ _ (omega arith)
        (Atomic-create_top_up env caller.user_id caller.idempotency_key req)

  Safe-confirm :
      (caller : Caller) (reference_id : String) (req : Option ConfirmTopUpRequest)
      → Safe (Wallet.confirm texts env caller reference_id req)
  unfolding Wallet.confirm
  Safe-confirm caller reference_id none = search Safe-refuse
  Safe-confirm caller reference_id (some req) =
      Safe-reply _ _ _ _ (omega arith)
        (Atomic-confirm_top_up env caller.user_id reference_id caller.idempotency_key req)

  Safe-register :
      (crypto : Crypto) (req : Option RegisterRequest) → Safe (Auth.register texts env crypto req)
  unfolding Auth.register
  Safe-register crypto none = search Safe-refuse
  Safe-register crypto (some req) =
      Safe-if (str_eq req.email "" || str_eq req.password "") _ _
        (Safe-refuse (fail_with 400 "Email and Password are required"))
        (Safe-reply _ 201 _ _ (omega arith)
          (Atomic-bind_pure req.email _ (Atomic-register env crypto req.email req.password)))

-- The requests that write wallets, orders and ledger, or users.
abbrev pub writes_money : Call → Bool
writes_money (register req) = true
writes_money (api (create_top_up key req)) = true
writes_money (api (confirm_top_up reference_id key req)) = true
writes_money (api (transfer key req)) = true
writes_money _ = false

module _ (redis : Redis) where
  record SafeServe (f : State redis → ℕ × State redis) : Type 0 where
    at : (s : State redis) → 400 ≤ (f s).0 → (f s).1.world.committed ≡ s.world.committed

  module _ (setting : Setting) where
    SafeServe-plain :
        {A : Type 0} (handler : World → Reply A × World)
        → Safe handler
        → SafeServe (plain redis setting handler)
    SafeServe-plain handler h = record { at = λ s. h.at s.world }

    judged-safe :
        (handler : State redis → ℕ × State redis)
        → SafeServe handler
        → (w : World) (verdict : Verdict × redis.State)
        → 400 ≤ (judged redis setting handler w verdict).0
        → (judged redis setting handler w verdict).1.world.committed ≡ w.committed
    judged-safe handler h w (Verdict.next quota, store) high =
        h.at (record { world = w; store = store }) high
    judged-safe handler h w (too_many_requests quota seconds, store) high = refl

    SafeServe-limited :
        (limiter : Limiter) (who : Identity) (handler : State redis → ℕ × State redis)
        → SafeServe handler
        → SafeServe (limited redis setting limiter who handler)
    unfolding limited
    SafeServe-limited limiter who handler h = record {
      at = λ s.
          judged-safe handler h s.world (
            rate_limiter setting.env redis limiter who setting.limiter_contact setting.now s.store);
    }

    SafeServe-api :
        (user_id : ℕ) (request : HttpRequest) (call : ApiCall)
        → writes_money (api call) ≡ true
        → SafeServe (serve_api redis setting user_id request call)
    unfolding serve_api
    SafeServe-api user_id request (create_top_up key req) e =
        search (SafeServe-limited, SafeServe-plain, Safe-create_top_up)
    SafeServe-api user_id request (confirm_top_up reference_id key req) e =
        search (SafeServe-limited, SafeServe-plain, Safe-confirm)
    SafeServe-api user_id request (transfer key req) e =
        search (SafeServe-limited, SafeServe-plain, Safe-transfer)
    SafeServe-api user_id request _ e = cc

    by_admission :
        (request : HttpRequest) (call : ApiCall) (s : State redis) (access : Access)
        → writes_money (api call) ≡ true
        → 400 ≤ (admitted redis setting request call s access).0
        → (admitted redis setting request call s access).1.world.committed ≡ s.world.committed
    by_admission request call s (next id email) e high = (SafeServe-api id request call e).at s high
    by_admission request call s (unauthorized message) e high = refl

    SafeServe-call :
        (request : HttpRequest) (call : Call)
        → writes_money call ≡ true
        → SafeServe (serve_call redis setting request call)
    unfolding serve_call
    SafeServe-call request (register req) e = search (SafeServe-plain, Safe-register)
    SafeServe-call request (api asked) e = record {
      at = λ s.
          by_admission request asked s
            (jwt_middleware setting.parse redis setting.blacklist_contact setting.now
              request.authorization s.store)
            e;
    }
    SafeServe-call request _ e = cc

-- A registration, a transfer, the opening or the confirmation of a top up that is answered with an
-- error status (400 and above), by whichever part of the server, has left every committed table as
-- it was.
pub serve-failed :
    (redis : Redis) (setting : Setting) (request : HttpRequest) (s : State redis)
    → writes_money request.call ≡ true
    → 400 ≤ (serve redis setting request s).0
    → (serve redis setting request s).1.world.committed ≡ s.world.committed
unfolding serve
serve-failed redis setting request s e = (SafeServe-call redis setting request request.call e).at s
