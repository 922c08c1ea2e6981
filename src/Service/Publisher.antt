-- ===== src/Service/Publisher.antt =====
-- internal/service/outbox_publisher.go. The Redis stream is a parameter in what it answers, and a
-- list in what has been added to it: it takes no part in the database's transaction.
pub mod Throughout
pub mod Delivery
use go_ewallet_backend.Prelude.{ℕ, String, List, [], ◌∷◌, ◌++◌}
use go_ewallet_backend.Model.{OutboxEvent}
use go_ewallet_backend.Runtime.{Result, ok, err, Env, World, Exec, closed, begin_tx, commit}
use go_ewallet_backend.Repository.Pending.{get_pending_for_publish, mark_published, record_retry}

-- The answer to an XADD: the event has been added; it has not; it has, but the answer was lost.
pub data Reply : Type 0 where
  accepted : Reply
  refused unanswered : String → Reply

-- The stream's answer at the n-th request to the database.
abbrev pub Broker : Type 0
Broker = ℕ → OutboxEvent → Reply

abbrev pub Stream : Type 0
Stream = List OutboxEvent

abbrev pub added : Reply → OutboxEvent → Stream → Stream
added Reply.accepted e s = s ++ e ∷ []
added (Reply.refused message) e s = s
added (Reply.unanswered message) e s = s ++ e ∷ []

abbrev pub Outcome : Type 0
Outcome = Result (Unit {0}) × World × Stream

-- After a call on the database, with the stream as it is.
abbrev pub go_on : {A : Type 0} → Result A × World → Stream → (A → World → Outcome) → Outcome
go_on (ok a, w) s f = f a w
go_on (err e, w) s f = (err e, w, s)

-- An error of the stream is recorded for a retry.
unfoldable pub settle_event : Env → Reply → OutboxEvent → Exec (Unit {0})
settle_event env Reply.accepted e = mark_published env e.id
settle_event env (Reply.refused message) e = record_retry env e.id message
settle_event env (Reply.unanswered message) e = record_retry env e.id message

unfoldable pub publish_events : Env → Broker → List OutboxEvent → Stream → World → Outcome
publish_events env broker [] s w = (ok tt, w, s)
publish_events env broker (e ∷ es) s w =
    let reply = broker w.clock e in
    let s' = added reply e s in
    go_on (settle_event env reply e w) s' (λ _ w'. publish_events env broker es s' w')

-- The batch commits if there was any event.
unfoldable pub publish_found : Env → Broker → List OutboxEvent → Stream → World → Outcome
publish_found env broker [] s w = (ok tt, w, s)
publish_found env broker (e ∷ es) s w =
    let (result, w', s') = publish_events env broker (e ∷ es) s w in
    go_on (result, w') s' (λ _ v. go_on (commit env v) s' (λ _ u. (ok tt, u, s')))

-- `defer tx.Rollback()`
abbrev pub end_batch : Outcome → Outcome
end_batch (r, w, s) = (r, record w { tx = closed }, s)

unfoldable pub publish_batch : Env → Broker → ℕ → Stream → World → Outcome
publish_batch env broker batch_size s w = go_on (begin_tx env w) s λ _ v. end_batch (
    go_on (get_pending_for_publish env batch_size v) s
      λ events u. publish_found env broker events s u)
