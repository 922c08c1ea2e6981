-- ===== src/Service/Wallet/Event.antt =====
-- internal/service/wallet.go: `publishEventTx`. Marshalling a map of strings and a number does not
-- fail.
use go_ewallet_backend.Prelude.{ℕ, String}
use go_ewallet_backend.Prelude.Int.{ℤ}
use go_ewallet_backend.Model.{Event}
use go_ewallet_backend.Runtime.{Env, Exec, pure, gets, ◌>>=◌, ◌>>◌}
use go_ewallet_backend.Repository.Outbox
use Prim.Native.String.{◌++◌ as concat}

abbrev pub event_at : Env → String → ℕ → ℤ → ℕ → Event
event_at env event_type user_id amount now = record {
  event_id = concat event_type (concat "-" (env.format_int now));
  type = event_type;
  user_id = env.format_int user_id;
  amount = amount;
  created_at = now;
}

unfoldable pub publish_event_tx : Env → String → ℕ → ℤ → Exec (Unit {0})
publish_event_tx env event_type user_id amount = do
  now ← gets (λ w. env.now w.clock)
  Outbox.create_tx env event_type (event_at env event_type user_id amount now)
  pure tt
