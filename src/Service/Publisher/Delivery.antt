-- ===== src/Service/Publisher/Delivery.antt =====
-- internal/service/outbox_publisher.go: the events that a batch publishes.
use go_ewallet_backend.Prelude.{ℕ, ◌≡◌, sym, subst, List, [], ◌∷◌, ◌++◌, Bool-cases, inl, inr}
use go_ewallet_backend.Model.{OutboxEvent}
use go_ewallet_backend.Runtime.{
  Result, ok, err, Env, World, Transaction, closed, active, aborted, begin_tx, commit,
}
use go_ewallet_backend.Repository.Pending.{get_pending_for_publish}
use go_ewallet_backend.Service.Publisher.{
  Reply, Broker, Stream, Outcome, added, go_on, settle_event, publish_events, publish_found,
  publish_batch, end_batch,
}
use go_ewallet_backend.Service.Publisher.Throughout.{
  IsDelivered, added-IsDelivered, any-last, InTransaction, Throughout, mark_published-Throughout,
  record_retry-Throughout, get_pending-Throughout, commit-Throughout,
}

-- A longer stream has lost no more.
longer_stream :
    (e : OutboxEvent) (s : Stream) (w : World) → Throughout s w → Throughout (s ++ e ∷ []) w
longer_stream e s w h = (added-IsDelivered e s w.committed.outbox_events h.0, longer_in w.tx h.1)
  where
    longer_in : (tx : Transaction) → InTransaction s tx → InTransaction (s ++ e ∷ []) tx
    longer_in closed k = tt
    longer_in aborted k = tt
    longer_in (active t d) k = added-IsDelivered e s d.outbox_events k

-- What the stream's answer adds.
added-Throughout :
    (reply : Reply) (e : OutboxEvent) (s : Stream) (w : World)
    → Throughout s w
    → Throughout (added reply e s) w
added-Throughout (Reply.refused message) e s w h = h
added-Throughout Reply.accepted e s w h = longer_stream e s w h
added-Throughout (Reply.unanswered message) e s w h = longer_stream e s w h

settle_event-Throughout :
    (env : Env) (reply : Reply) (e : OutboxEvent) (s : Stream) (w : World)
    → Throughout s w
    → Throughout (added reply e s) (settle_event env reply e w).1
unfolding settle_event
settle_event-Throughout env Reply.accepted e s w h =
    mark_published-Throughout env (s ++ e ∷ []) e.id (any-last e s) w (longer_stream e s w h)
settle_event-Throughout env (Reply.refused message) e s w h =
    record_retry-Throughout env s e.id message w h
settle_event-Throughout env (Reply.unanswered message) e s w h =
    record_retry-Throughout env (s ++ e ∷ []) e.id message w (longer_stream e s w h)

begin_tx-Throughout :
    (env : Env) (s : Stream) (w : World)
    → w.tx ≡ closed
    → IsDelivered s w.committed
    → Throughout s (begin_tx env w).1
unfolding begin_tx
begin_tx-Throughout env s w idle h = elim (Bool-cases (env.fault w.clock)) [
  | inl lost ↦ rw lost (h, subst (InTransaction s) (sym idle) tt)
  | inr fine ↦ rw fine (h, h)
]

end_batch-Throughout :
    (out : Outcome) → Throughout out.2 out.1 → Throughout (end_batch out).2 (end_batch out).1
end_batch-Throughout out h = (h.0, tt)

-- What holds of the world and the stream at the end holds whether the call returned or failed.
go_on-Throughout :
    {A : Type 0} (r : Result A × World) (s : Stream) (f : A → World → Outcome)
    → Throughout s r.1
    → ((a : A) (w : World) → Throughout s w → Throughout (f a w).2 (f a w).1)
    → Throughout (go_on r s f).2 (go_on r s f).1
go_on-Throughout (ok a, w) s f h k = k a w h
go_on-Throughout (err e, w) s f h k = h

module _ (env : Env) (broker : Broker) where
  publish_events-Throughout :
      (es : List OutboxEvent) (s : Stream) (w : World)
      → Throughout s w
      → let out = publish_events env broker es s w in Throughout out.2 out.1
  unfolding publish_events
  publish_events-Throughout [] s w h = h
  publish_events-Throughout (e ∷ es) s w h =
      let reply = broker w.clock e in
      go_on-Throughout (settle_event env reply e w) (added reply e s) _
        (settle_event-Throughout env reply e s w h)
        (λ _ v k. publish_events-Throughout es (added reply e s) v k)

  publish_found-Throughout :
      (es : List OutboxEvent) (s : Stream) (w : World)
      → Throughout s w
      → let out = publish_found env broker es s w in Throughout out.2 out.1
  unfolding publish_found
  publish_found-Throughout [] s w h = h
  publish_found-Throughout (e ∷ es) s w h =
      let out = publish_events env broker (e ∷ es) s w in
      go_on-Throughout (out.0, out.1) out.2 _ (publish_events-Throughout (e ∷ es) s w h)
        λ _ v k.
          go_on-Throughout (commit env v) out.2 _ (commit-Throughout env out.2 v k) (λ _ u l. l)

  batch_in-Throughout :
      (batch_size : ℕ) (s : Stream) (v : World)
      → Throughout s v
      → let out = end_batch (
          go_on
            (get_pending_for_publish env batch_size v)
            s
            (λ events u. publish_found env broker events s u)) in
        Throughout out.2 out.1
  batch_in-Throughout batch_size s v k =
      let out =
        go_on (get_pending_for_publish env batch_size v) s
          (λ events u. publish_found env broker events s u) in
      end_batch-Throughout out (
        go_on-Throughout (get_pending_for_publish env batch_size v) s _
          (get_pending-Throughout env s batch_size v k)
          (λ es u l. publish_found-Throughout es s u l))

  -- A batch of the publisher, begun with no transaction open, loses no event, whatever the stream
  -- answers and whatever fails: if every event that is committed as published is in the stream, so
  -- it is after the batch.
  pub publish_batch-IsDelivered :
      (batch_size : ℕ) (s : Stream) (w : World)
      → w.tx ≡ closed
      → IsDelivered s w.committed
      → let out = publish_batch env broker batch_size s w in IsDelivered out.2 out.1.committed
  unfolding publish_batch
  publish_batch-IsDelivered batch_size s w idle h =
      (go_on-Throughout (begin_tx env w) s _ (begin_tx-Throughout env s w idle h)
        (λ _ v k. batch_in-Throughout batch_size s v k)).0
