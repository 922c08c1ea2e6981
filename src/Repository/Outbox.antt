-- ===== src/Repository/Outbox.antt =====
-- internal/repository/outbox.go
use go_ewallet_backend.Prelude.{ℕ, suc, String, Bool, none, [], ◌∷◌, ◌++◌, ◌==◌, if◌then◌else◌}
use go_ewallet_backend.Prelude.Table.{any}
use go_ewallet_backend.Model.{Db, OutboxStatus, OutboxEvent, Event}
use go_ewallet_backend.Runtime.{DbError, Error, Result, ok, err, Env, Exec, Stmt, in_tx}
use go_ewallet_backend.Repository.Column.{returning}

abbrev pub event_row : ℕ → ℕ → String → Event → OutboxEvent
event_row id t event_type payload = record {
  id = id;
  event_type = event_type;
  payload = payload;
  status = OutboxStatus.pending;
  retry_count = 0;
  last_error = none;
  created_at = t;
  updated_at = t;
  published_at = none;
}

abbrev pub has_event_id : ℕ → OutboxEvent → Bool
has_event_id id r = r.id == id

abbrev pub add_event : OutboxEvent → Db → Result Db
add_event row d =
    if any (has_event_id row.id) d.outbox_events
    then err (Error.db DbError.unique_violation)
    else ok (record d { outbox_events = d.outbox_events ++ row ∷ [] })

-- `INSERT INTO outbox_events (…) VALUES (…) RETURNING id`
unfoldable pub insert_event : String → Event → Stmt ℕ
insert_event event_type payload t d s =
    let id = suc s.outbox_events in
    (
      returning id (add_event (event_row id t event_type payload) d),
      record s { outbox_events = id },
    )

unfoldable pub create_tx : Env → String → Event → Exec ℕ
create_tx env event_type payload = in_tx env (insert_event event_type payload)
