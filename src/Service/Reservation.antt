-- ===== src/Service/Reservation.antt =====
-- internal/service/idempotency.go, and `reserveIdempotency`, `completeIdempotency` and
-- `failIdempotency` of wallet.go. main.go always hands the wallet service an idempotency service,
-- so the branches for a missing one are left out.
pub mod Fresh
pub mod Completion
pub mod Replay
use go_ewallet_backend.Prelude.{ℕ, String, Bool, Option, none, some, ◌==◌, str_eq, if◌then◌else◌}
use go_ewallet_backend.Model.{Scope, IdempotencyReserveResult}
use go_ewallet_backend.Runtime.{
  Error, idempotency_key_required, idempotency_key_conflict, repository_key_conflict, marshal, Env,
  Payload, Exec, pure, raise, raise_if, or_raise, recover, ◌>>=◌, ◌>>◌, Runner,
}
use go_ewallet_backend.Repository.Idempotency
use mathlib.Core.Option

-- `hashPayload`
unfoldable pub hash_payload : Env → Payload → Option String
hash_payload env payload = Option.map env.sha256_hex (env.marshal payload)

-- `errors.Is(err, repository.ErrIdempotencyKeyConflict)`
abbrev pub service_conflict : Error → Error
service_conflict Error.repository_key_conflict = idempotency_key_conflict
service_conflict e = e

unfoldable pub reserve : Env → ℕ → Scope → String → Payload → Exec IdempotencyReserveResult
reserve env user_id scope key payload = do
  raise_if (str_eq key "") idempotency_key_required
  request_hash ← or_raise (hash_payload env payload) marshal
  recover (Idempotency.reserve env Runner.tx_runner user_id scope key request_hash)
      (λ e. raise (service_conflict e))

unfoldable pub complete_idempotency : Env → ℕ → String → ℕ → Exec (Unit {0})
complete_idempotency env id resource_type resource_id =
    if id == 0
    then pure tt
    else Idempotency.mark_completed env Runner.tx_runner id resource_type resource_id

unfoldable pub fail_idempotency : Env → ℕ → Exec (Unit {0})
fail_idempotency env id =
    if id == 0 then pure tt else Idempotency.mark_failed env Runner.tx_runner id
