-- ===== src/Model/Database.antt =====
-- The tables that migrations/*.up.sql create, and the sequences behind their SERIAL ids.
use go_ewallet_backend.Prelude.{ℕ, List, []}
use go_ewallet_backend.Model.Wallets.{Wallet}
use go_ewallet_backend.Model.Transfer.{TransferRow}
use go_ewallet_backend.Model.TopUp.{TopUpRow}
use go_ewallet_backend.Model.Ledger.{LedgerRow}
use go_ewallet_backend.Model.Idempotency.{IdempotencyKey}
use go_ewallet_backend.Model.Outbox.{OutboxEvent}
use go_ewallet_backend.Model.Users.{User}
use go_ewallet_backend.Model.RefreshTokens.{RefreshToken}

pub record Db : Type 0 where
  pub users : List User
  pub wallets : List Wallet
  pub transfers : List TransferRow
  pub top_up_orders : List TopUpRow
  pub ledger_entries : List LedgerRow
  pub idempotency_keys : List IdempotencyKey
  pub outbox_events : List OutboxEvent
  pub refresh_tokens : List RefreshToken

abbrev pub empty_db : Db
empty_db = record {
  users = [];
  wallets = [];
  transfers = [];
  top_up_orders = [];
  ledger_entries = [];
  idempotency_keys = [];
  outbox_events = [];
  refresh_tokens = [];
}

-- The last id that each sequence has given out. A rollback does not turn a sequence back.
pub record Sequences : Type 0 where
  pub users : ℕ
  pub wallets : ℕ
  pub transfers : ℕ
  pub top_up_orders : ℕ
  pub ledger_entries : ℕ
  pub idempotency_keys : ℕ
  pub outbox_events : ℕ
  pub refresh_tokens : ℕ

abbrev pub no_ids : Sequences
no_ids = record {
  users = 0;
  wallets = 0;
  transfers = 0;
  top_up_orders = 0;
  ledger_entries = 0;
  idempotency_keys = 0;
  outbox_events = 0;
  refresh_tokens = 0;
}
