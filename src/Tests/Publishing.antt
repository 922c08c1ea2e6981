-- ===== src/Tests/Publishing.antt =====
-- Batches of internal/service/outbox_publisher.go, run.
use go_ewallet_backend.Prelude.{◌≡◌, refl, false, none, some, List, [], ◌∷◌, ◌==◌, if◌then◌else◌}
use go_ewallet_backend.Prelude.Int.{pos}
use go_ewallet_backend.Model.{OutboxEvent, OutboxStatus}
use go_ewallet_backend.Runtime.{
  World, DbError, Error, ok, err, run_in, in_tx, begin_tx, commit_as, commit,
}
use go_ewallet_backend.Repository.Pending.{
  get_pending_for_publish, select_pending, mark_published, publish_event, record_retry, retry_event,
}
use go_ewallet_backend.Service.Publisher.{
  Reply, Broker, publish_batch, publish_found, publish_events, settle_event,
}
use go_ewallet_backend.Service.Publisher.Delivery.{publish_batch-IsDelivered}
use go_ewallet_backend.Service.Publisher.Throughout.{IsDelivered}
use go_ewallet_backend.Tests.Fixture.{calm, start, two_wallets}

abbrev event : OutboxEvent
event = record {
  id = 1;
  event_type = "topup.confirmed";
  payload = record {
    event_id = "topup.confirmed-1";
    type = "topup.confirmed";
    user_id = "11";
    amount = pos 50000;
    created_at = 1;
  };
  status = OutboxStatus.pending;
  retry_count = 0;
  last_error = none;
  created_at = 1;
  updated_at = 1;
  published_at = none;
}

abbrev second : OutboxEvent
second = record event { id = 2; created_at = 2 }

abbrev events_at : List OutboxEvent → World
events_at es = record start { committed = record two_wallets { outbox_events = es } }

abbrev posted : World
posted = events_at (event ∷ second ∷ [])

-- The stream takes the first event and is down for the second.
abbrev flaky : Broker
flaky n e = if e.id == 1 then Reply.accepted else Reply.refused "timeout"

flaky_runs :
    (publish_batch calm flaky 100 [] posted).1.committed.outbox_events
    ≡ record event { status = OutboxStatus.published; published_at = some 1000; updated_at = 1000 }
      ∷ record second { retry_count = 1; last_error = some "timeout"; updated_at = 1000 }
      ∷ []
unfolding publish_batch publish_found publish_events settle_event run_in in_tx begin_tx commit_as
    commit get_pending_for_publish select_pending mark_published publish_event record_retry
    retry_event
flaky_runs = refl

publish_batch-IsDelivered_example :
    let out = publish_batch calm flaky 100 [] posted in IsDelivered out.2 out.1.committed
publish_batch-IsDelivered_example = publish_batch-IsDelivered calm flaky 100 [] posted refl refl

-- Beside an event that has failed 1024 times stands an older one that is in order.
abbrev poisoned : World
poisoned = events_at (event ∷ record second { retry_count = 1024 } ∷ [])

-- A database that sorts computes the backoff of both, and the batch fails.
sorted_fails : (publish_batch calm flaky 1 [] poisoned).0 ≡ err (Error.db DbError.out_of_range)
unfolding publish_batch publish_found run_in in_tx begin_tx commit_as commit get_pending_for_publish
    select_pending
sorted_fails = refl

-- One that stops at the first row does not come upon the other.
index_succeeds : (publish_batch (record calm { scans_all = false }) flaky 1 [] poisoned).0 ≡ ok tt
unfolding publish_batch publish_found publish_events settle_event run_in in_tx begin_tx commit_as
    commit get_pending_for_publish select_pending mark_published publish_event
index_succeeds = refl
