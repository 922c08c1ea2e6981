-- ===== src/Service/Auth/Spent.antt =====
-- internal/service/auth.go: a refresh token that has been exchanged, and what may follow.
use go_ewallet_backend.Prelude.{
  ℕ, suc, String, ◌≡◌, ◌∙◌, ap, subst, Bool, true, false, some, List, [], ◌∷◌, ◌++◌, arith,
  if◌then◌else◌,
}
use go_ewallet_backend.Prelude.Int.{ℤ}
use go_ewallet_backend.Prelude.Table.{find?, update_where}
use go_ewallet_backend.Model.{Db, RefreshToken, AuthResponse}
use go_ewallet_backend.Runtime.{Error, ok, Env, World, on_db}
use go_ewallet_backend.Runtime.Atomicity.{quiet_rules, Quiet-on_db-query}
use go_ewallet_backend.Repository.RefreshTokens
use go_ewallet_backend.Repository.RefreshTokens.{
  has_hash, revoked, revoke_where, insert_token, revoke_by_hash, revoke_hash, revoke_all_by_user_id,
  revoke_user, revoke_session_by_id, revoke_session,
}
use go_ewallet_backend.Service.Auth.{
  Crypto, Device, issue_tokens, generate_token, generate_random_token, refuse_reuse, rotate, login,
  refresh, revoke_device,
}
use go_ewallet_backend.Service.Auth.Keeping.{
  Keeps, Keeps-Quiet, Keeps-if, Keeps-recover, Keeps-bind,
}
use go_ewallet_backend.Service.Auth.Money.{Quiet-get_user, Quiet-get_by_email, Quiet-get_by_hash}
use go_ewallet_backend.Service.Auth.Rotation.{Rotated, refresh-Rotated}
use go_ewallet_backend.Service.Sessions.{drop_refresh_token}

-- The row that the hash finds is there and is revoked.
abbrev pub is_spent : String → List RefreshToken → Bool
is_spent hash [] = false
is_spent hash (x ∷ ts) = if has_hash hash x then x.is_revoked else is_spent hash ts

abbrev pub IsSpent : String → Db → Type 0
IsSpent hash d = is_spent hash d.refresh_tokens ≡ true

module _ (hash : String) where
  is_spent-revoke :
      (p : RefreshToken → Bool) (ts : List RefreshToken)
      → is_spent hash ts ≡ true
      → is_spent hash (update_where p revoked ts) ≡ true
  is_spent-revoke p [] h = h
  is_spent-revoke p (x ∷ ts) h = ground (arith, is_spent-revoke p ts)

  is_spent-append :
      (ts : List RefreshToken) (x : RefreshToken)
      → is_spent hash ts ≡ true
      → is_spent hash (ts ++ x ∷ []) ≡ true
  is_spent-append [] x h = cc
  is_spent-append (y ∷ ts) x h = ground (arith, is_spent-append ts x)

  is_spent-found :
      (ts : List RefreshToken) {x : RefreshToken}
      → find? (has_hash hash) ts ≡ some x
      → is_spent hash ts ≡ x.is_revoked
  is_spent-found [] h = cc
  is_spent-found (y ∷ ts) {x} h = ground (arith, is_spent-found ts {x = x})

  spends :
      (ts : List RefreshToken) {x : RefreshToken}
      → find? (has_hash hash) ts ≡ some x
      → is_spent hash (update_where (has_hash hash) revoked ts) ≡ true
  spends [] h = cc
  spends (y ∷ ts) {x} h = ground (arith, spends ts {x = x})

  module _ (env : Env) where
    Keeps-revoke_where :
        (p : RefreshToken → Bool) → Keeps (IsSpent hash) (on_db env (revoke_where p))
    unfolding on_db
    Keeps-revoke_where p = record {
      at = λ w h. ground (arith, is_spent-revoke p w.committed.refresh_tokens h);
    }

    Keeps-insert_token :
        (token : RefreshToken) → Keeps (IsSpent hash) (on_db env (insert_token token))
    unfolding on_db insert_token
    Keeps-insert_token token = record {
      at = λ w h. ground (
        arith,
        is_spent-append w.committed.refresh_tokens (record token { id = suc w.seq.refresh_tokens })
            h,
      );
    }

ruleset keeping_rules = (
  quiet_rules, Keeps-Quiet, Keeps-if, Keeps-recover, Keeps-bind, Keeps-revoke_where,
  Keeps-insert_token, Quiet-on_db-query,
)

module _ (hash : String) (env : Env) where
  Keeps-revoke_by_hash : (h : String) → Keeps (IsSpent hash) (revoke_by_hash env h)
  unfolding revoke_by_hash revoke_hash
  Keeps-revoke_by_hash h = search keeping_rules depth 20

  Keeps-revoke_device :
      (user_id : ℕ) (session_id : ℤ) → Keeps (IsSpent hash) (revoke_device env user_id session_id)
  unfolding revoke_device revoke_session_by_id revoke_session
  Keeps-revoke_device user_id session_id = search keeping_rules depth 20

  Keeps-drop_refresh_token : (raw : String) → Keeps (IsSpent hash) (drop_refresh_token env raw)
  unfolding drop_refresh_token
  Keeps-drop_refresh_token raw = search (keeping_rules, Keeps-revoke_by_hash) depth 20

  Keeps-refuse_reuse : (user_id : ℕ) → Keeps (IsSpent hash) (refuse_reuse env user_id)
  unfolding refuse_reuse revoke_all_by_user_id revoke_user
  Keeps-refuse_reuse user_id = search keeping_rules depth 20

  module _ (crypto : Crypto) where
    Keeps-issue_tokens :
        (wrap : Error → Error) (user_id : ℕ) (email : String) (device : Device)
        → Keeps (IsSpent hash) (issue_tokens env crypto wrap user_id email device)
    unfolding issue_tokens generate_token generate_random_token RefreshTokens.create
    Keeps-issue_tokens wrap user_id email device = search keeping_rules depth 30

    Keeps-rotate :
        (h : String) (stored : RefreshToken) (device : Device)
        → Keeps (IsSpent hash) (rotate env crypto h stored device)
    unfolding rotate
    Keeps-rotate h stored device =
        search (keeping_rules, Keeps-revoke_by_hash, Quiet-get_user, Keeps-issue_tokens) depth 30

    Keeps-login :
        (email password : String) (device : Device)
        → Keeps (IsSpent hash) (login env crypto email password device)
    unfolding login
    Keeps-login email password device =
        search (keeping_rules, Quiet-get_by_email, Keeps-issue_tokens) depth 30

    Keeps-refresh :
        (raw : String) (device : Device) → Keeps (IsSpent hash) (refresh env crypto raw device)
    unfolding refresh
    Keeps-refresh raw device =
        search (keeping_rules, Quiet-get_by_hash, Keeps-refuse_reuse, Keeps-rotate) depth 30

-- The calls that touch refresh tokens; a logout is its part that does.
pub data AuthCall : Type 0 where
  log_in : (email password : String) → Device → AuthCall
  exchange : (raw : String) → Device → AuthCall
  log_out : (raw : String) → AuthCall
  revoke : ℕ → ℤ → AuthCall

-- The world after a call, whatever it returns.
abbrev pub call : Env → Crypto → AuthCall → World → World
call env crypto (log_in email password device) w = (login env crypto email password device w).1
call env crypto (exchange raw device) w = (refresh env crypto raw device w).1
call env crypto (log_out raw) w = (drop_refresh_token env raw w).1
call env crypto (revoke user_id session_id) w = (revoke_device env user_id session_id w).1

-- Each call meets surroundings of its own.
abbrev pub call_all : List (Env × Crypto × AuthCall) → World → World
call_all [] w = w
call_all ((env, crypto, c) ∷ cs) w = call_all cs (call env crypto c w)

module _ (hash : String) where
  call-IsSpent :
      (env : Env) (crypto : Crypto) (c : AuthCall) (w : World)
      → IsSpent hash w.committed
      → IsSpent hash (call env crypto c w).committed
  call-IsSpent env crypto (log_in email password device) =
      (Keeps-login hash env crypto email password device).at
  call-IsSpent env crypto (exchange raw device) = (Keeps-refresh hash env crypto raw device).at
  call-IsSpent env crypto (log_out raw) = (Keeps-drop_refresh_token hash env raw).at
  call-IsSpent env crypto (revoke user_id session_id) =
      (Keeps-revoke_device hash env user_id session_id).at

  call_all-IsSpent :
      (cs : List (Env × Crypto × AuthCall)) (w : World)
      → IsSpent hash w.committed
      → IsSpent hash (call_all cs w).committed
  call_all-IsSpent [] w h = h
  call_all-IsSpent ((env, crypto, c) ∷ cs) w h =
      call_all-IsSpent cs (call env crypto c w) (call-IsSpent env crypto c w h)

Rotated-IsSpent :
    {env : Env} {raw : String} {w : World} {r : AuthResponse} {c : Db}
    → Rotated env raw w r c
    → IsSpent (env.sha256_hex raw) c
Rotated-IsSpent {env} {raw} {w} x =
    ap (λ (d : Db). is_spent (env.sha256_hex raw) d.refresh_tokens) x.result
    ∙ is_spent-append (env.sha256_hex raw) _ x.token
        (spends (env.sha256_hex raw) w.committed.refresh_tokens {x = x.stored} x.found)

-- A refresh token that has been exchanged is not exchanged by any refresh that begins afterwards,
-- whatever logins, refreshes, logouts and revocations of sessions have run in between, each to its
-- end, with whatever faults, times and keys, where SHA-256 hashes the token as it did.
pub refresh-once :
    (env env' : Env) (crypto crypto' : Crypto) (raw : String) (device device' : Device) (w : World)
    (cs : List (Env × Crypto × AuthCall)) (r r' : AuthResponse) (w' w'' : World)
    → env'.sha256_hex raw ≡ env.sha256_hex raw
    → refresh env crypto raw device w ≡ (ok r, w')
    → ¬ (refresh env' crypto' raw device' (call_all cs w') ≡ (ok r', w''))
refresh-once env env' crypto crypto' raw device device' w cs r r' w' w'' same first second =
    let hash = env.sha256_hex raw in
    let spent =
      call_all-IsSpent hash cs w'
        (Rotated-IsSpent (refresh-Rotated env crypto raw device w first)) in
    let y = refresh-Rotated env' crypto' raw device' (call_all cs w') second in
    let found : find? (has_hash hash) (call_all cs w').committed.refresh_tokens ≡ some y.stored =
      subst (λ h. find? (has_hash h) (call_all cs w').committed.refresh_tokens ≡ some y.stored) same
        y.found in
    cc (
      spent,
      is_spent-found hash (call_all cs w').committed.refresh_tokens {x = y.stored} found,
      y.live,
    )
