-- ===== src/Server/Admission.antt =====
-- main.go: the middleware in front of /api.
use go_ewallet_backend.Prelude.{
  ℕ, String, ◌≡◌, refl, ap, sym, subst, ◌⊎◌, inl, inr, Option, some, Bool, true, false,
}
use go_ewallet_backend.Runtime.Redis.{Redis}
use go_ewallet_backend.Service.Sessions.{cut_prefix, is_token_blacklisted}
use go_ewallet_backend.Handler.Middleware.{
  Method, hmac, other_method, Claims, Access, next, unauthorized, key_function, jwt_middleware,
}
use go_ewallet_backend.Handler.Middleware.Blacklist.{jwt_middleware-checked}
use go_ewallet_backend.Server.{
  Setting, State, HttpRequest, ApiCall, api, serve_api, admitted, serve_call, serve,
}

-- `jwt.Parse` accepts a token only where the key function has accepted its method; `method_of` reads
-- the method from the token's header.
abbrev pub AsksKey : ((Method → Bool) → ℕ → String → Option Claims) → (String → Method) → Type 0
AsksKey parse method_of =
    (key : Method → Bool) (now : ℕ) (token : String) (claims : Claims)
    → parse key now token ≡ some claims
    → key (method_of token) ≡ true

only_hmac : (m : Method) → key_function m ≡ true → m ≡ hmac
only_hmac hmac h = refl
only_hmac other_method h = cc

module _ (redis : Redis) (setting : Setting) (method_of : String → Method) (request : HttpRequest)
    (s : State redis) where
  -- The token that a request carries, signed by HMAC, and what it claims.
  pub record Credentials : Type 0 where
    pub token : String
    pub claims : Claims
    pub bearer : cut_prefix "Bearer " request.authorization ≡ some token
    pub parsed : setting.parse key_function setting.now token ≡ some claims
    pub by_hmac : method_of token ≡ hmac
    pub in_use :
        is_token_blacklisted redis setting.blacklist_contact setting.now token s.store ≡ false

  -- The reply, and the state that the request leaves.
  abbrev pub Admission : ApiCall → ℕ × State redis → Type 0
  Admission call out =
      (out ≡ (401, s))
      ⊎ ((c : Credentials) × (out ≡ serve_api redis setting c.claims.id request call s))

  by_access :
      AsksKey setting.parse method_of
      → (call : ApiCall) (access : Access)
      → jwt_middleware setting.parse redis setting.blacklist_contact setting.now
          request.authorization s.store
        ≡ access
      → Admission call (admitted redis setting request call s access)
  by_access asks call (unauthorized message) e = inl refl
  by_access asks call (next id email) e =
      let (token, claims, cut, parsed, same, _, free) =
        jwt_middleware-checked setting.parse redis setting.blacklist_contact setting.now
          request.authorization s.store id email e in
      inr (
        record {
          token = token;
          claims = claims;
          bearer = cut;
          parsed = parsed;
          by_hmac = only_hmac _ (asks key_function setting.now token claims parsed);
          in_use = free;
        },
        ap (λ i. serve_api redis setting i request call s) (sym same),
      )

-- Where jwt.Parse accepts no token whose method the key function refuses, a request to /api is
-- answered with 401 and changes nothing, in the tables or in Redis, or it carries a token behind
-- "Bearer " that parses, is signed by HMAC and is not on the blacklist as far as Redis answers, and
-- is served for the user that the token names.
pub serve-Admission :
    (redis : Redis) (setting : Setting) (method_of : String → Method) (request : HttpRequest)
    (s : State redis) (call : ApiCall)
    → AsksKey setting.parse method_of
    → request.call ≡ api call
    → Admission redis setting method_of request s call (serve redis setting request s)
unfolding serve serve_call
serve-Admission redis setting method_of request s call asks e =
    subst
      (λ c. Admission redis setting method_of request s call (serve_call redis setting request c s))
      (sym e) (by_access redis setting method_of request s asks call _ refl)
