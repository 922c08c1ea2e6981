-- ===== src/Service/Wallet/Quiet.antt =====
-- The steps of the wallet service before a commit leave the committed tables alone.
use go_ewallet_backend.Prelude.{ℕ, String, Option}
use go_ewallet_backend.Prelude.Int.{ℤ}
use go_ewallet_backend.Model.{
  Scope, IdempotencyStatus, processing, completed, LedgerEntry, TopUpRow,
}
use go_ewallet_backend.Runtime.{Env, Payload, Exec, Stmt, Runner, run_on}
use go_ewallet_backend.Runtime.Atomicity.{Quiet, quiet_rules}
use go_ewallet_backend.Repository.Wallet.Transfers.{
  TransferRequestParams, apply_transfer, transfer_with_metadata_tx, get_transfer_by_id,
}
use go_ewallet_backend.Repository.Ledger
use go_ewallet_backend.Repository.TopUp.{scan_row}
use go_ewallet_backend.Repository.Idempotency
use go_ewallet_backend.Repository.Outbox
use go_ewallet_backend.Service.Reference.{generate_reference}
use go_ewallet_backend.Service.Reservation.{reserve, complete_idempotency, fail_idempotency}
use go_ewallet_backend.Service.Wallet.Event.{publish_event_tx}
use go_ewallet_backend.Service.Wallet.Existing.{resolve_existing}

module _ (env : Env) where
  pub Quiet-transfer_with_metadata_tx :
      (params : TransferRequestParams) → Quiet (transfer_with_metadata_tx env params)
  unfolding transfer_with_metadata_tx apply_transfer
  Quiet-transfer_with_metadata_tx params = search quiet_rules depth 20

  pub Quiet-run_on : {A : Type 0} (f : Stmt A) → Quiet (run_on env Runner.tx_runner f)
  unfolding run_on
  Quiet-run_on f = search quiet_rules

  pub Quiet-get_transfer_by_id : (id : ℕ) → Quiet (get_transfer_by_id env Runner.tx_runner id)
  unfolding get_transfer_by_id
  Quiet-get_transfer_by_id id = search (quiet_rules, Quiet-run_on) depth 20

  pub Quiet-create_entry : (entry : LedgerEntry) → Quiet (Ledger.create_tx env entry)
  unfolding Ledger.create_tx
  Quiet-create_entry entry = search quiet_rules

  pub Quiet-scan_row : (f : Stmt (Option TopUpRow)) → Quiet (scan_row env Runner.tx_runner f)
  unfolding scan_row
  Quiet-scan_row f = search (quiet_rules, Quiet-run_on) depth 20

  pub Quiet-reserve_existing :
      (user_id : ℕ) (scope : Scope) (key hash : String)
      → Quiet (Idempotency.reserve_existing env Runner.tx_runner user_id scope key hash)
  unfolding Idempotency.reserve_existing Idempotency.get_by_user_scope_key Idempotency.touch
  Quiet-reserve_existing user_id scope key hash = search (quiet_rules, Quiet-run_on) depth 20

  Quiet-reserve_key :
      (user_id : ℕ) (scope : Scope) (key hash : String)
      → Quiet (Idempotency.reserve env Runner.tx_runner user_id scope key hash)
  unfolding Idempotency.reserve
  Quiet-reserve_key user_id scope key hash =
      search (quiet_rules, Quiet-run_on, Quiet-reserve_existing) depth 20

  pub Quiet-reserve :
      (user_id : ℕ) (scope : Scope) (key : String) (payload : Payload)
      → Quiet (reserve env user_id scope key payload)
  unfolding reserve
  Quiet-reserve user_id scope key payload = search (quiet_rules, Quiet-reserve_key) depth 20

  pub Quiet-complete_idempotency :
      (id : ℕ) (resource_type : String) (resource_id : ℕ)
      → Quiet (complete_idempotency env id resource_type resource_id)
  unfolding complete_idempotency Idempotency.mark_completed
  Quiet-complete_idempotency id resource_type resource_id =
      search (quiet_rules, Quiet-run_on) depth 20

  pub Quiet-fail_idempotency : (id : ℕ) → Quiet (fail_idempotency env id)
  unfolding fail_idempotency Idempotency.mark_failed
  Quiet-fail_idempotency id = search (quiet_rules, Quiet-run_on) depth 20

  pub Quiet-generate_reference : (prefix : String) → Quiet (generate_reference env prefix)
  unfolding generate_reference
  Quiet-generate_reference prefix = search quiet_rules depth 20

  pub Quiet-publish_event_tx :
      (event_type : String) (user_id : ℕ) (amount : ℤ)
      → Quiet (publish_event_tx env event_type user_id amount)
  unfolding publish_event_tx Outbox.create_tx
  Quiet-publish_event_tx event_type user_id amount = search quiet_rules depth 20

-- A used key is answered by a read.
pub Quiet-resolve_existing :
    {A : Type 0} (fetch : ℕ → Exec A) (resource_id : Option ℕ) (status : IdempotencyStatus)
    → ((id : ℕ) → Quiet (fetch id))
    → Quiet (resolve_existing fetch resource_id status)
unfolding resolve_existing
Quiet-resolve_existing fetch resource_id processing qf = search quiet_rules
Quiet-resolve_existing fetch resource_id completed qf = search quiet_rules depth 10
Quiet-resolve_existing fetch resource_id IdempotencyStatus.failed qf = search quiet_rules

pub ruleset step_rules = (
  Quiet-transfer_with_metadata_tx, Quiet-get_transfer_by_id, Quiet-create_entry, Quiet-scan_row,
  Quiet-reserve, Quiet-complete_idempotency, Quiet-fail_idempotency, Quiet-generate_reference,
  Quiet-publish_event_tx, Quiet-resolve_existing, Quiet-run_on,
)
