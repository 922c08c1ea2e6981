-- ===== src/Runtime/Surroundings.antt =====
-- The committed tables, the open transaction, and what surrounds the program.
use go_ewallet_backend.Prelude.{ℕ, String, Bool, Option}
use go_ewallet_backend.Model.{
  Db, Sequences, TransferRequest, CreateTopUpRequest, ConfirmTopUpRequest,
}

-- An open transaction works on its own copy of the tables; `started` is its CURRENT_TIMESTAMP.
pub data Transaction : Type 0 where
  closed : Transaction
  active : (started : ℕ) → Db → Transaction
  aborted : Transaction

-- `clock` counts what the program has asked of its surroundings.
pub record World : Type 0 where
  pub committed : Db
  pub tx : Transaction
  pub seq : Sequences
  pub clock : ℕ

-- What `hashPayload` is called with.
pub data Payload : Type 0 where
  transfer : TransferRequest → Payload
  create_top_up : CreateTopUpRequest → Payload
  confirm_top_up : String → ConfirmTopUpRequest → Payload

-- Code that is not in the repository, and chance.
pub record Env : Type 0 where
  -- Does the n-th request to the database fail for a reason outside its SQL: a lost connection,
  -- a cancelled context, a timeout, a value wider than its column?
  pub fault : ℕ → Bool
  -- Does a failed statement abort its transaction? PostgreSQL does so, with code 25P02 for what
  -- follows.
  pub aborts : Bool
  -- Does the database compute the condition of the publisher's query for every pending event, as
  -- when it sorts, or one after the other until it has enough rows, as along an index?
  pub scans_all : Bool
  -- The time at the n-th request, in nanoseconds.
  pub now : ℕ → ℕ
  -- `crypto/rand.Read` of so many bytes at the n-th request, in hexadecimal.
  pub random_hex : ℕ → ℕ → Option String
  -- `time.Format`, and `strconv.FormatInt`.
  pub format_time : ℕ → String
  pub format_int : ℕ → String
  -- `%v` of a number of a token's claims, a float64.
  pub format_float : ℕ → String
  -- `json.Marshal`, and `sha256.Sum256` in hexadecimal.
  pub marshal : Payload → Option String
  pub sha256_hex : String → String
