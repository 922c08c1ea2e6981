-- ===== src/Service/Auth/Money.antt =====
-- internal/service/auth.go: the calls that deal with tokens leave wallets, orders and ledger alone.
use go_ewallet_backend.Prelude.{ℕ, String, ◌≡◌, Bool, true, false, arith, if◌then◌else◌}
use go_ewallet_backend.Prelude.Int.{ℤ}
use go_ewallet_backend.Model.{Db, RefreshToken}
use go_ewallet_backend.Runtime.{
  Error, Result, ok, err, Env, World, Exec, ◌>>=◌, recover, after, handle, on_db,
}
use go_ewallet_backend.Runtime.Atomicity.{Quiet, quiet_rules, Quiet-on_db-query}
use go_ewallet_backend.Repository.Users
use go_ewallet_backend.Repository.RefreshTokens
use go_ewallet_backend.Repository.RefreshTokens.{
  revoke_where, insert_token, revoke_by_hash, revoke_hash, revoke_all_by_user_id, revoke_user,
  revoke_session_by_id, revoke_session, get_by_hash, select_by_hash, add_token,
}
use go_ewallet_backend.Service.Auth.{
  Crypto, Device, issue_tokens, generate_token, generate_random_token, refuse_reuse, rotate, login,
  refresh, revoke_device,
}

-- The tables that hold or explain money.
abbrev pub SameMoney : Db → Db → Type 0
SameMoney d c =
    (c.wallets ≡ d.wallets)
    × (c.ledger_entries ≡ d.ledger_entries)
    × (c.top_up_orders ≡ d.top_up_orders)

pub record Frugal {A : Type 0} (m : Exec A) : Type 0 where
  pub at : (w : World) → SameMoney w.committed (m w).1.committed

module _ {A : Type 0} where
  pub Frugal-Quiet : (m : Exec A) → Quiet m → Frugal m
  Frugal-Quiet m q = record { at = λ w. ground (arith, q.at w) }

  pub Frugal-if : (b : Bool) {m n : Exec A} → Frugal m → Frugal n → Frugal (if b then m else n)
  Frugal-if true fm fn = fm
  Frugal-if false fm fn = fn

  handle-SameMoney :
      (w : World) (r : Result A × World) (f : Error → Exec A)
      → SameMoney w.committed r.1.committed
      → ((e : Error) → Frugal (f e))
      → SameMoney w.committed (handle r f).1.committed
  handle-SameMoney w (ok a, v) f h ff = h
  handle-SameMoney w (err e, v) f h ff = ground (arith, (ff e).at v)

  pub Frugal-recover :
      (m : Exec A) (f : Error → Exec A)
      → Frugal m
      → ((e : Error) → Frugal (f e))
      → Frugal (recover m f)
  unfolding recover
  Frugal-recover m f fm ff = record { at = λ w. handle-SameMoney w (m w) f (fm.at w) ff }

module _ {A B : Type 0} where
  after-SameMoney :
      (w : World) (r : Result A × World) (f : A → Exec B)
      → SameMoney w.committed r.1.committed
      → ((a : A) → Frugal (f a))
      → SameMoney w.committed (after r f).1.committed
  after-SameMoney w (ok a, v) f h ff = ground (arith, (ff a).at v)
  after-SameMoney w (err e, v) f h ff = h

  pub Frugal-bind :
      (m : Exec A) (f : A → Exec B) → Frugal m → ((a : A) → Frugal (f a)) → Frugal (m >>= f)
  unfolding ◌>>=◌
  Frugal-bind m f fm ff = record { at = λ w. after-SameMoney w (m w) f (fm.at w) ff }

module _ (env : Env) where
  Frugal-revoke_where : (p : RefreshToken → Bool) → Frugal (on_db env (revoke_where p))
  unfolding on_db
  Frugal-revoke_where p = record { at = λ w. ground arith }

  Frugal-insert_token : (token : RefreshToken) → Frugal (on_db env (insert_token token))
  unfolding on_db insert_token
  Frugal-insert_token token = record { at = λ w. ground arith }

ruleset frugal_rules = (
  quiet_rules, Frugal-Quiet, Frugal-if, Frugal-recover, Frugal-bind, Frugal-revoke_where,
  Frugal-insert_token, Quiet-on_db-query,
)

module _ (env : Env) where
  pub Frugal-revoke_by_hash : (hash : String) → Frugal (revoke_by_hash env hash)
  unfolding revoke_by_hash revoke_hash
  Frugal-revoke_by_hash hash = search frugal_rules depth 20

  pub Frugal-revoke_device :
      (user_id : ℕ) (session_id : ℤ) → Frugal (revoke_device env user_id session_id)
  unfolding revoke_device revoke_session_by_id revoke_session
  Frugal-revoke_device user_id session_id = search frugal_rules depth 20

  Frugal-refuse_reuse : (user_id : ℕ) → Frugal (refuse_reuse env user_id)
  unfolding refuse_reuse revoke_all_by_user_id revoke_user
  Frugal-refuse_reuse user_id = search frugal_rules depth 20

  pub Quiet-get_user : (id : ℕ) → Quiet (Users.get_by_id env id)
  unfolding Users.get_by_id Users.select_user
  Quiet-get_user id = search (quiet_rules, Quiet-on_db-query) depth 20

  pub Quiet-get_by_email : (email : String) → Quiet (Users.get_by_email env email)
  unfolding Users.get_by_email Users.select_by_email
  Quiet-get_by_email email = search (quiet_rules, Quiet-on_db-query) depth 20

  pub Quiet-get_by_hash : (hash : String) → Quiet (get_by_hash env hash)
  unfolding get_by_hash select_by_hash
  Quiet-get_by_hash hash = search (quiet_rules, Quiet-on_db-query) depth 20

  module _ (crypto : Crypto) where
    Frugal-issue_tokens :
        (wrap : Error → Error) (user_id : ℕ) (email : String) (device : Device)
        → Frugal (issue_tokens env crypto wrap user_id email device)
    unfolding issue_tokens generate_token generate_random_token RefreshTokens.create
    Frugal-issue_tokens wrap user_id email device = search frugal_rules depth 30

    Frugal-rotate :
        (hash : String) (stored : RefreshToken) (device : Device)
        → Frugal (rotate env crypto hash stored device)
    unfolding rotate
    Frugal-rotate hash stored device =
        search (frugal_rules, Frugal-revoke_by_hash, Quiet-get_user, Frugal-issue_tokens) depth 30

    pub Frugal-login :
        (email password : String) (device : Device)
        → Frugal (login env crypto email password device)
    unfolding login
    Frugal-login email password device =
        search (frugal_rules, Quiet-get_by_email, Frugal-issue_tokens) depth 30

    pub Frugal-refresh : (raw : String) (device : Device) → Frugal (refresh env crypto raw device)
    unfolding refresh
    Frugal-refresh raw device =
        search (frugal_rules, Quiet-get_by_hash, Frugal-refuse_reuse, Frugal-rotate) depth 30
