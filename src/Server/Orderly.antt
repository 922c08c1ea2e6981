-- ===== src/Server/Orderly.antt =====
-- What calls and handlers do to the books and the money.
use go_ewallet_backend.Prelude.{
  ℕ, String, ◌≡◌, refl, sym, ap, ◌∙◌, subst, Bool, true, false, if◌then◌else◌,
}
use go_ewallet_backend.Model.{Db, TransferRequest, CreateTopUpRequest, ConfirmTopUpRequest}
use go_ewallet_backend.Runtime.{Env, World, Error, Result, ok, err, Exec, after, pure, ◌>>=◌}
use go_ewallet_backend.Runtime.Atomicity.{Quiet}
use go_ewallet_backend.Handler.Replies.{reply_to}
use go_ewallet_backend.Service.Auth.{Crypto}
use go_ewallet_backend.Service.Auth as Accounts
use go_ewallet_backend.Service.Auth.Money.{SameMoney, Frugal}
use go_ewallet_backend.Service.Auth.Register.{
  register-IsSound, register-Registered, register-atomic, Registered-total,
}
use go_ewallet_backend.Service.Books.{IsSound}
use go_ewallet_backend.Service.Wallet.Transfer.{transfer_with_idempotency}
use go_ewallet_backend.Service.Wallet.TopUp
use go_ewallet_backend.Service.Wallet.TopUp.{confirm_top_up}
use go_ewallet_backend.Service.Wallet.Requests.{Request}
use go_ewallet_backend.Service.Wallet.Requests
use go_ewallet_backend.Service.Wallet.Requests.Sound.{serve-IsSound}
use go_ewallet_backend.Service.Wallet.Requests.Money.{Backed, serve-Backed}

-- From `d` to `c` the books stay in order, and the balances grow by what is paid in.
abbrev pub Orderly : Db → Db → Type 0
Orderly d c = IsSound d → IsSound c × Backed d c

pub Orderly-refl : (d : Db) → Orderly d d
Orderly-refl d sound = (sound, refl)

pub Orderly-same : (d c : Db) → c ≡ d → Orderly d c
Orderly-same d c e = subst (Orderly d) (sym e) (Orderly-refl d)

pub Orderly-SameMoney : (d c : Db) → SameMoney d c → Orderly d c
Orderly-SameMoney d c (ws, es, os) sound = rw (ws, es, os) (sound, refl)

-- A handler that replies to a call leaves what the call leaves.
reply_to-world :
    {A : Type 0} (map_error : Error → ℕ × String) (status : ℕ) (message : String)
    (r : Result A × World)
    → (reply_to map_error status message r).1 ≡ r.1
reply_to-world map_error status message (ok a, w) = refl
reply_to-world map_error status message (err e, w) = refl

-- The world after a call whose result is replaced.
bind-world : {A B : Type 0} (m : Exec A) (b : B) (w : World) → ((m >>= λ _. pure b) w).1 ≡ (m w).1
unfolding ◌>>=◌
bind-world {A} {B} m b w = by_result (m w)
  where
    by_result : (r : Result A × World) → (after {B = B} r (λ _. pure b)).1 ≡ r.1
    by_result (ok a, v) = refl
    by_result (err e, v) = refl

module _ (env : Env) (crypto : Crypto) (email password : String) (w : World) where
  register-by :
      (o : Result ℕ × World)
      → Accounts.register env crypto email password w ≡ o
      → Backed w.committed o.1.committed
  register-by (err e, v) h =
      subst (Backed w.committed)
        (sym (register-atomic env crypto email password w (ap (λ (y : Result ℕ × World). y.0) h))
          ∙ ap (λ (y : Result ℕ × World). y.1.committed) h)
        refl
  register-by (ok user_id, v) h =
      let (total, orders) = Registered-total (register-Registered env crypto email password w h) in
      rw (total, orders) refl

  register-Orderly : Orderly w.committed (Accounts.register env crypto email password w).1.committed
  register-Orderly sound = (
    register-IsSound env crypto email password w sound,
    register-by (Accounts.register env crypto email password w) refl,
  )

-- What a call or a handler leaves.
pub record Proper {R : Type 0} (f : World → R × World) : Type 0 where
  pub at : (w : World) → Orderly w.committed (f w).1.committed

pub Proper-Quiet : {A : Type 0} (m : Exec A) → Quiet m → Proper m
Proper-Quiet m q = record { at = λ w. Orderly-same w.committed (m w).1.committed (q.at w) }

pub Proper-Frugal : {A : Type 0} (m : Exec A) → Frugal m → Proper m
Proper-Frugal m f = record { at = λ w. Orderly-SameMoney w.committed (m w).1.committed (f.at w) }

pub Proper-reply :
    {A : Type 0} (map_error : Error → ℕ × String) (status : ℕ) (message : String) (m : Exec A)
    → Proper m
    → Proper (λ w. reply_to map_error status message (m w))
Proper-reply map_error status message m h = record {
  at = λ w.
      subst (λ (v : World). Orderly w.committed v.committed)
        (sym (reply_to-world map_error status message (m w))) (h.at w);
}

module _ {R : Type 0} where
  pub Proper-refuse : (r : R) → Proper (λ w. (r, w))
  Proper-refuse r = record { at = λ w. Orderly-refl w.committed }

  pub Proper-if :
      (b : Bool) (f g : World → R × World)
      → Proper f
      → Proper g
      → Proper (λ w. if b then f w else g w)
  Proper-if true f g hf hg = hf
  Proper-if false f g hf hg = hg

pub Proper-bind_pure : {A B : Type 0} (m : Exec A) (b : B) → Proper m → Proper (m >>= λ _. pure b)
Proper-bind_pure m b h = record {
  at =
      λ w. subst (λ (v : World). Orderly w.committed v.committed) (sym (bind-world m b w)) (h.at w);
}

module _ (env : Env) where
  pub Proper-request :
      (r : Request) (w : World) → Orderly w.committed (Requests.serve env r w).committed
  Proper-request r w sound = (serve-IsSound env r w sound, serve-Backed env r w sound)

  pub Proper-transfer :
      (user_id : ℕ) (key : String) (req : TransferRequest)
      → Proper (transfer_with_idempotency env user_id key req)
  Proper-transfer user_id key req = record { at = Proper-request (Request.send user_id key req) }

  pub Proper-create_top_up :
      (user_id : ℕ) (key : String) (req : CreateTopUpRequest)
      → Proper (TopUp.create_top_up env user_id key req)
  Proper-create_top_up user_id key req = record {
    at = Proper-request (Request.open_order user_id key req);
  }

  pub Proper-confirm_top_up :
      (user_id : ℕ) (reference key : String) (req : ConfirmTopUpRequest)
      → Proper (confirm_top_up env user_id reference key req)
  Proper-confirm_top_up user_id reference key req = record {
    at = Proper-request (Request.confirm_order user_id reference key req);
  }

  pub Proper-register :
      (crypto : Crypto) (email password : String)
      → Proper (Accounts.register env crypto email password)
  Proper-register crypto email password = record {
    at = λ w. register-Orderly env crypto email password w;
  }

pub ruleset proper_rules = (
  Proper-reply, Proper-refuse, Proper-if, Proper-bind_pure, Proper-Quiet, Proper-Frugal,
  Proper-transfer, Proper-create_top_up, Proper-confirm_top_up, Proper-register,
)
