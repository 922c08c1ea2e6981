-- ===== src/Tests/Fixture.antt =====
-- Two users with a wallet each, the first with 50000 from a confirmed top up, and surroundings in
-- which nothing fails.
use go_ewallet_backend.Prelude.{
  ◌==◌, arith, refl, ℕ, zero, suc, ◌+◌, String, true, false, Option, none, some, List, [], ◌∷◌,
}
use go_ewallet_backend.Prelude.Int.{pos, ◌+ℤ◌}
use go_ewallet_backend.Model.{
  Db, Wallet, User, LedgerRow, TransactionType, TopUpRow, Status, success, credit, empty_db, no_ids,
  wallet_transfer, TransferRequest, CreateTopUpRequest, ConfirmTopUpRequest,
}
use go_ewallet_backend.Runtime.{Env, World, Payload, closed}
use go_ewallet_backend.Repository.Idempotency.{key_row, completed_with}
use go_ewallet_backend.Service.Wallet.Requests.{Request}
use go_ewallet_backend.Service.Books.{IsSound}
use Prim.Native.String.{◌++◌ as concat}

abbrev pub letters : ℕ → String
letters zero = ""
letters (suc n) = String.◌∷◌ "a" (letters n)

abbrev pub marshal_short : Payload → Option String
marshal_short (Payload.transfer req) = some (concat "t" req.description)
marshal_short (Payload.create_top_up req) = some (concat "c" req.description)
marshal_short (Payload.confirm_top_up reference req) = some (concat reference req.description)

abbrev pub calm : Env
calm = record {
  fault = λ n. false;
  aborts = true;
  scans_all = true;
  now = λ n. 1000 + n;
  random_hex = λ bytes n. some (letters n);
  format_time = λ t. "20260101000000";
  format_int = λ n. "7";
  format_float = letters;
  marshal = marshal_short;
  sha256_hex = λ s. concat "h" s;
}

-- The same, on a server where a failed statement leaves its transaction usable.
abbrev pub lenient : Env
lenient = record calm { aborts = false }

abbrev pub wallet_of : ℕ → ℕ → Wallet
wallet_of id balance = record {
  id = id;
  user_id = id + 10;
  balance = pos balance;
  currency = "IDR";
  created_at = 1;
  updated_at = 1;
}

abbrev pub account : ℕ → String → User
account id email = record { id = id; email = email; password = "hash" }

abbrev pub first_order : TopUpRow
first_order = record {
  id = 1;
  wallet_id = 1;
  reference_id = "TUP-1";
  idempotency_key_id = none;
  amount = pos 50000;
  status = success;
  payment_channel = "manual";
  external_reference = none;
  description = none;
  balance_before = some (pos 0);
  balance_after = some (pos 50000);
  created_at = 1;
  updated_at = 1;
  confirmed_at = some 1;
  failed_at = none;
}

abbrev pub first_entry : LedgerRow
first_entry = record {
  id = 1;
  wallet_id = 1;
  reference_id = "TUP-1";
  transaction_type = TransactionType.top_up;
  direction = credit;
  amount = pos 50000;
  balance_before = pos 0;
  balance_after = pos 50000;
  description = none;
  transfer_id = none;
  top_up_order_id = some 1;
  created_at = 1;
}

abbrev pub two_wallets : Db
two_wallets = record empty_db {
  users = account 11 "ayu" ∷ account 12 "budi" ∷ [];
  wallets = wallet_of 1 50000 ∷ wallet_of 2 0 ∷ [];
  top_up_orders = first_order ∷ [];
  ledger_entries = first_entry ∷ [];
}

abbrev pub start : World
start = record {
  committed = two_wallets;
  tx = closed;
  seq = record no_ids { users = 12; wallets = 2; top_up_orders = 1; ledger_entries = 1 };
  clock = 0;
}

abbrev pub coffee : TransferRequest
coffee = record { to_wallet_id = 2; amount = pos 20000; description = "kopi" }

-- An order of the second user that waits for its payment.
abbrev pub waiting_order : TopUpRow
waiting_order = record first_order {
  id = 2;
  wallet_id = 2;
  reference_id = "TUP-2";
  amount = pos 5000;
  status = Status.pending;
  balance_before = none;
  balance_after = none;
  confirmed_at = none;
}

abbrev pub ordered : World
ordered = record start {
  committed = record two_wallets { top_up_orders = first_order ∷ waiting_order ∷ [] };
  seq = record no_ids { users = 12; wallets = 2; top_up_orders = 2; ledger_entries = 1 };
}

abbrev pub by_bank : ConfirmTopUpRequest
by_bank = record { external_reference = "BANK-9"; description = "" }

abbrev pub from_bank : CreateTopUpRequest
from_bank = record { amount = pos 7000; payment_channel = ""; description = "gaji" }

-- The books of the fixture are in order.
pub start-IsSound : IsSound two_wallets
unfolding ◌+ℤ◌
start-IsSound = (
  record {
    unique = (refl, (refl, tt));
    in_range = λ k w h. ground arith;
    explained = λ k w h. ground arith;
    unused = λ k h. ground arith;
  },
  (refl, tt),
)

pub ordered-IsSound : IsSound ordered.committed
ordered-IsSound = (start-IsSound.0, (refl, (refl, tt)))

-- The first user has used the key "k1" for a transfer.
abbrev pub used_key : World
used_key = record start {
  committed = record two_wallets {
    idempotency_keys =
        completed_with 5 "transfer" 1 (key_row 1 5 11 wallet_transfer "k1" "hash") ∷ [];
  };
}

abbrev pub all_requests : List (Env × Request)
all_requests =
    (calm, Request.send 11 "k1" coffee)
    ∷ (calm, Request.open_order 12 "k2" from_bank)
    ∷ (calm, Request.confirm_order 12 "TUP-2" "k3" by_bank)
    ∷ []

-- The connection is lost at the fifth request to the database.
abbrev pub cut : Env
cut = record calm { fault = λ n. n == 5 }

abbrev pub cut_early : Env
cut_early = record calm { fault = λ n. n == 4 }

abbrev pub cut_third : Env
cut_third = record calm { fault = λ n. n == 2 }
