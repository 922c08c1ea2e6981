-- ===== src/Tests/Accounts.antt =====
-- Registration and tokens of internal/service/auth.go, run.
use go_ewallet_backend.Prelude.{◌≡◌, refl, Bool, true, false, some, List, [], ◌∷◌, str_eq}
use go_ewallet_backend.Model.{RefreshToken, AuthResponse}
use go_ewallet_backend.Runtime.{
  Env, Result, World, Error, DbError, ok, err, ◌>>=◌, recover, run_in, in_tx, on_db, begin_tx,
  commit_as, commit, with_rollback,
}
use go_ewallet_backend.Repository.RefreshTokens
use go_ewallet_backend.Repository.Users
use go_ewallet_backend.Repository.Wallet.Balances
use go_ewallet_backend.Service.Auth.{
  Crypto, Device, register, register_in_tx, refresh, refuse_reuse, rotate, issue_tokens,
  generate_token, generate_random_token,
}
use go_ewallet_backend.Service.Auth.Register.{
  Registered, register-Registered, register-atomic, register-IsSound,
}
use go_ewallet_backend.Service.Auth.Spent.{AuthCall, log_in, log_out, call_all, refresh-once}
use go_ewallet_backend.Service.Books.{IsSound}
use go_ewallet_backend.Tests.Fixture.{calm, lenient, cut_third, start, start-IsSound, two_wallets}
use Prim.Native.String.{◌++◌ as concat}

abbrev plain : Crypto
plain = record {
  bcrypt_hash = λ s. some (concat "b" s);
  bcrypt_matches = λ h s. str_eq h (concat "b" s);
  sign_token = λ id email expiry. some email;
}

abbrev after_citra : World
after_citra = (register calm plain "citra" "rahasia" start).1

citra_runs : register calm plain "citra" "rahasia" start ≡ (ok 13, after_citra)
unfolding register register_in_tx ◌>>=◌ recover run_in in_tx begin_tx commit_as commit with_rollback
    Users.create_tx Users.insert_user Balances.create_tx Balances.insert_wallet
citra_runs = refl

register-Registered_example : Registered "citra" start.committed 13 after_citra.committed
register-Registered_example = register-Registered calm plain "citra" "rahasia" start citra_runs

register-IsSound_example : IsSound after_citra.committed
register-IsSound_example = register-IsSound calm plain "citra" "rahasia" start start-IsSound

-- The connection is lost when the user has been inserted and the wallet has not.
lost_wallet :
    (register cut_third plain "citra" "rahasia" start).0 ≡ err (Error.db DbError.unavailable)
unfolding register register_in_tx ◌>>=◌ recover run_in in_tx begin_tx commit_as commit with_rollback
    Users.create_tx Users.insert_user Balances.create_tx Balances.insert_wallet
lost_wallet = refl

register-atomic_example :
    (register cut_third plain "citra" "rahasia" start).1.committed ≡ start.committed
register-atomic_example = register-atomic cut_third plain "citra" "rahasia" start lost_wallet

abbrev session : RefreshToken
session = record {
  id = 1;
  user_id = 11;
  token_hash = "hsecret";
  device_id = "phone";
  user_agent = "app";
  ip_address = "10.0.0.1";
  is_revoked = false;
  expires_at = 5000;
  created_at = 1;
  last_used_at = 1;
}

abbrev signed_in : World
signed_in = record start {
  committed = record two_wallets { refresh_tokens = session ∷ [] };
  seq = record start.seq { refresh_tokens = 1 };
}

abbrev same_device : Device
same_device = record { device_id = ""; user_agent = ""; ip_address = "" }

abbrev new_tokens : AuthResponse
new_tokens = record {
  access_token = "ayu";
  refresh_token = "aaa";
  token_type = "Bearer";
  expires_in = 900;
}

abbrev after_refresh : World
after_refresh = (refresh calm plain "secret" same_device signed_in).1

refresh_runs : refresh calm plain "secret" same_device signed_in ≡ (ok new_tokens, after_refresh)
unfolding refresh rotate refuse_reuse issue_tokens generate_token generate_random_token ◌>>=◌
    recover on_db RefreshTokens.get_by_hash RefreshTokens.select_by_hash
    RefreshTokens.revoke_by_hash RefreshTokens.revoke_hash RefreshTokens.create
    RefreshTokens.insert_token Users.get_by_id Users.select_user
refresh_runs = refl

-- Another login and a logout in between.
abbrev meanwhile : List (Env × Crypto × AuthCall)
meanwhile =
    (calm, plain, log_in "ayu" "rahasia" same_device) ∷ (cut_third, plain, log_out "aaa") ∷ []

refresh-once_example : ¬ (
    refresh lenient plain "secret" same_device (call_all meanwhile after_refresh)
    ≡ (ok new_tokens, signed_in))
refresh-once_example =
    refresh-once calm lenient plain plain "secret" same_device same_device signed_in meanwhile
      new_tokens new_tokens after_refresh signed_in refl refresh_runs

abbrev is_ok : {A : Type 0} → Result A → Bool
is_ok (ok a) = true
is_ok (err e) = false

-- Two refreshes that have both read the token before either has revoked it: the rest of each, one
-- after the other, returns tokens.
abbrev first_of_two : Result AuthResponse × World
first_of_two = rotate calm plain "hsecret" session same_device signed_in

both_exchange :
    (is_ok first_of_two.0 ≡ true)
    × (is_ok (rotate calm plain "hsecret" session same_device first_of_two.1).0 ≡ true)
unfolding rotate issue_tokens generate_token generate_random_token ◌>>=◌ recover on_db
    RefreshTokens.revoke_by_hash RefreshTokens.revoke_hash RefreshTokens.create
    RefreshTokens.insert_token Users.get_by_id Users.select_user
both_exchange = (refl, refl)
