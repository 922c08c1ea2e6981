-- ===== src/Tests/Web.antt =====
-- Requests to the server, the rate limiter, and the blacklist of tokens.
use go_ewallet_backend.Prelude.{
  List, ℕ, zero, suc, ◌≡◌, refl, sym, ap, ◌∙◌, arith, ltb, str_eq, if◌then◌else◌, String, Bool,
  true, Option, none, some, [], ◌∷◌,
}
use go_ewallet_backend.Prelude.Int.{pos, ◌+ℤ◌}
use go_ewallet_backend.Model.{empty_db, no_ids, TransferRequest}
use go_ewallet_backend.Runtime.{Error, closed, insufficient_balance}
use go_ewallet_backend.Runtime.Redis.{Contact}
use go_ewallet_backend.Service.Auth.{Crypto}
use go_ewallet_backend.Service.Sessions.{logout, cut_prefix}
use go_ewallet_backend.Runtime.{
  ◌>>=◌, recover, run_in, in_tx, on_db, begin_tx, commit_as, commit, with_rollback, run_on,
}
use go_ewallet_backend.Prelude.Int64.{add64, wrap}
use go_ewallet_backend.Repository.Idempotency
use go_ewallet_backend.Repository.Wallet.Balances.{get_wallet_by_user_id, select_by_user}
use go_ewallet_backend.Repository.Wallet.Transfers.{transfer_with_metadata_tx, select_locked}
use go_ewallet_backend.Service.Reference.{generate_reference}
use go_ewallet_backend.Service.Reservation.{reserve, hash_payload, fail_idempotency}
use go_ewallet_backend.Service.Sessions.{is_token_blacklisted}
use go_ewallet_backend.Service.Wallet.Transfer.{
  transfer_with_idempotency, transfer_in_tx, transfer_reserved, fail_transfer,
}
use go_ewallet_backend.Handler.Wallet
use go_ewallet_backend.Handler.RateLimit.{rate_limiter, rate_limit_script, judge}
use go_ewallet_backend.Handler.Replies.{errors_is}
use go_ewallet_backend.Server.{serve_call, serve_api, limited}
use go_ewallet_backend.Handler.Auth.{Client}
use go_ewallet_backend.Handler.Middleware.{Method, Claims, jwt_middleware}
use go_ewallet_backend.Handler.Middleware.Blacklist.{IsAdmitted, logout-final}
use go_ewallet_backend.Handler.Numbers.{atoi, digits, unsigned}
use go_ewallet_backend.Handler.RateLimit.{ip}
use go_ewallet_backend.Handler.RateLimit.Keys.{Distinguishes}
use go_ewallet_backend.Handler.RateLimit.Window.{passes, rate_limiter-bound}
use go_ewallet_backend.Handler.Replies.{map_wallet_error, error_text}
use go_ewallet_backend.Handler.Status.{map_wallet_error-eq, wallet_status}
use go_ewallet_backend.Server.{
  Setting, State, HttpRequest, serve, serve_all, register, api, transfer,
}
use go_ewallet_backend.Server.Admission.{AsksKey, Admission, serve-Admission}
use go_ewallet_backend.Server.Failing.{serve-failed}
use go_ewallet_backend.Server.Money.{IsSolvent, serve_all-IsSolvent}
use go_ewallet_backend.Tests.Fixture.{calm, letters, start, coffee, two_wallets}
use go_ewallet_backend.Tests.RedisStore.{store, empty_store, store-Documented}
use go_ewallet_backend.Tests.Histories.{in_table_order}
use Prim.Native.String.{count}
use Prim.Native.String.count.{cons}

atoi_page : atoi "17" ≡ some (pos 17)
unfolding atoi digits unsigned
atoi_page = refl

atoi_signed : atoi "+9223372036854775807" ≡ some (pos 9223372036854775807)
unfolding atoi digits unsigned
atoi_signed = refl

atoi_too_large : atoi "9223372036854775808" ≡ none
unfolding atoi digits unsigned
atoi_too_large = refl

atoi_no_number : atoi "1a" ≡ none
unfolding atoi digits unsigned
atoi_no_number = refl

-- The token "rsa" is signed by another method.
abbrev signed : String → Method
signed token = if str_eq token "rsa" then Method.other_method else Method.hmac

-- Nothing fails, and every token that the methods allow is the first user's.
abbrev first_user : Claims
first_user = record { id = 11; email = "ayu"; exp = 1500 }

abbrev parse_first : (Method → Bool) → ℕ → String → Option Claims
parse_first allowed now token = if allowed (signed token) then some first_user else none

parse_first-asks : AsksKey parse_first signed
parse_first-asks key now token claims h = ground (arith, h)

abbrev plain_texts : Error → String
plain_texts e = "driver"

abbrev crypto : Crypto
crypto = record {
  bcrypt_hash = λ p. some "hash";
  bcrypt_matches = λ h p. true;
  sign_token = λ id email exp. some "token";
}

abbrev reached_setting : Setting
reached_setting = record {
  texts = plain_texts;
  env = calm;
  crypto = crypto;
  planner = in_table_order;
  parse = parse_first;
  now = 1000;
  blacklist_contact = Contact.reached;
  limiter_contact = Contact.reached;
  logout_contact = Contact.reached;
}

abbrev phone : Client
phone = record { x_device_id = "d"; user_agent = "app"; ip_address = "10.0.0.1" }

abbrev pay : TransferRequest → HttpRequest
pay req = record {
  call = api (transfer "k1" (some req));
  authorization = "Bearer abc";
  client = phone;
}

abbrev sign_up : HttpRequest
sign_up = record {
  call = register (some (record { email = "ayu"; password = "secret" }));
  authorization = "";
  client = phone;
}

abbrev started : State store
started = record { world = start; store = empty_store }

abbrev new_server : State store
new_server = record {
  world = record { committed = empty_db; tx = closed; seq = no_ids; clock = 0 };
  store = empty_store;
}

abbrev too_much : TransferRequest
too_much = record coffee { amount = pos 60000 }

map_wallet_error-eq_example :
    (map_wallet_error plain_texts insufficient_balance).0 ≡ wallet_status insufficient_balance
map_wallet_error-eq_example = map_wallet_error-eq plain_texts insufficient_balance (λ x. refl) refl

count-letters : (n : ℕ) → count (letters n) ≡ n
count-letters zero = refl
count-letters (suc n) = cons "a" (letters n) ∙ ap suc (count-letters n)

calm-Distinguishes : Distinguishes calm
calm-Distinguishes a b h = sym (count-letters a) ∙ ap count h ∙ count-letters b

rate_limiter-bound_example :
    passes calm store
      (record { action = "login"; limit = 1; window = pos 60000000000 })
      (ip "10.0.0.1")
      ((ip "10.0.0.1", 5) ∷ (ip "10.0.0.2", 6) ∷ (ip "10.0.0.1", 9) ∷ [])
      empty_store
    ≡ 1
unfolding store-Documented
rate_limiter-bound_example =
    rate_limiter-bound calm store store-Documented
      (record { action = "login"; limit = 1; window = pos 60000000000 }) (ip "10.0.0.1")
      calm-Distinguishes 5 ((ip "10.0.0.1", 5) ∷ (ip "10.0.0.2", 6) ∷ (ip "10.0.0.1", 9) ∷ [])
      empty_store refl (omega arith)

abbrev expiring : (Method → Bool) → ℕ → String → Option Claims
expiring allowed now token = if ltb now 1500 then some first_user else none

logout-final_example : ¬ IsAdmitted (
    jwt_middleware expiring store Contact.reached 1200 "Bearer abc"
      (logout calm store Contact.reached 1000 "Bearer abc" "" empty_store start).1)
unfolding cut_prefix store-Documented
logout-final_example =
    logout-final calm expiring store store-Documented 1000 1200 "Bearer abc" "" "abc" empty_store
      (logout calm store Contact.reached 1000 "Bearer abc" "" empty_store start).1 start refl
      (λ now claims h. ground arith) (λ u. refl) (omega arith)

abbrev two_requests : List (Setting × HttpRequest)
two_requests = (reached_setting, sign_up) ∷ (reached_setting, pay coffee) ∷ []

serve_all-IsSolvent_example : IsSolvent (serve_all store two_requests new_server).world.committed
serve_all-IsSolvent_example = serve_all-IsSolvent store two_requests new_server refl

serve-Admission_example :
    Admission store reached_setting signed
      (pay coffee)
      started
      (transfer "k1" (some coffee))
      (serve store reached_setting (pay coffee) started)
serve-Admission_example =
    serve-Admission store reached_setting signed (pay coffee) started (transfer "k1" (some coffee))
      parse_first-asks refl

-- More than the sender has, through every part of the server.
too_much_refused : (serve store reached_setting (pay too_much) started).0 ≡ 400
unfolding serve serve_call serve_api limited rate_limiter rate_limit_script judge jwt_middleware
    cut_prefix is_token_blacklisted Wallet.transfer map_wallet_error error_text errors_is
    transfer_with_idempotency transfer_in_tx transfer_reserved ◌>>=◌ recover run_in in_tx on_db
    begin_tx commit_as commit with_rollback run_on get_wallet_by_user_id select_by_user reserve
    hash_payload Idempotency.reserve Idempotency.insert_key generate_reference
    transfer_with_metadata_tx select_locked add64 wrap ◌+ℤ◌ fail_transfer fail_idempotency
    Idempotency.mark_failed Idempotency.fail_key
too_much_refused = refl

serve-failed_example :
    (serve store reached_setting (pay too_much) started).1.world.committed ≡ two_wallets
serve-failed_example =
    serve-failed store reached_setting (pay too_much) started refl
      (rw too_much_refused (omega arith))
