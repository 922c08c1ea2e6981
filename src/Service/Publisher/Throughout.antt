-- ===== src/Service/Publisher/Throughout.antt =====
-- Published events, in the committed tables and in those of an open transaction, and the stream.
use go_ewallet_backend.Prelude.{
  ℕ, String, ◌≡◌, refl, ap, ◌∙◌, subst, Bool, true, false, ◌&&◌, not, List, [], ◌∷◌, ◌++◌, arith,
  if◌then◌else◌, Bool-cases, inl, inr,
}
use go_ewallet_backend.Prelude.Table.{any, update_where, any-append, any-update_where}
use go_ewallet_backend.Model.{Db, Sequences, OutboxStatus, OutboxEvent}
use go_ewallet_backend.Runtime.{
  Result, ok, err, Env, World, Transaction, closed, active, aborted, Stmt, run_in, in_tx, settle,
  commit, commit_as,
}
use go_ewallet_backend.Repository.Outbox.{has_event_id}
use go_ewallet_backend.Repository.Pending.{
  get_pending_for_publish, select_pending, mark_published, publish_event, record_retry, retry_event,
  published_at_time, retried, unchanged,
}
use go_ewallet_backend.Service.Publisher.{Stream}

abbrev pub is_published : OutboxStatus → Bool
is_published OutboxStatus.published = true
is_published OutboxStatus.pending = false
is_published OutboxStatus.failed = false

-- Marked published, but not in the stream.
abbrev pub is_lost : Stream → OutboxEvent → Bool
is_lost s e = is_published e.status && not (any (has_event_id e.id) s)

-- No event is lost.
abbrev pub IsDelivered : Stream → Db → Type 0
IsDelivered s d = any (is_lost s) d.outbox_events ≡ false

unchanged-same :
    (d : Db) (r : Result (List OutboxEvent)) {es : List OutboxEvent} {d' : Db}
    → unchanged d r ≡ ok (es, d')
    → d ≡ d'
unchanged-same d (ok es) h = ground arith
unchanged-same d (err e) h = cc

-- An event that is added loses none.
pub added-IsDelivered :
    (e : OutboxEvent) (s : Stream) (rows : List OutboxEvent)
    → any (is_lost s) rows ≡ false
    → any (is_lost (s ++ e ∷ [])) rows ≡ false
added-IsDelivered e s [] h = refl
added-IsDelivered e s (x ∷ rows) h =
    ground (arith, any-append (has_event_id x.id) s e, added-IsDelivered e s rows)

-- Marking an event that is in the stream loses none.
published-IsDelivered :
    (t id : ℕ) (s : Stream) (rows : List OutboxEvent)
    → any (has_event_id id) s ≡ true
    → any (is_lost s) rows ≡ false
    → any (is_lost s) (update_where (has_event_id id) (published_at_time t) rows) ≡ false
published-IsDelivered t id s [] there h = refl
published-IsDelivered t id s (x ∷ rows) there h = elim (Bool-cases (has_event_id id x)) [
  | inl same ↦ ground (arith, published-IsDelivered t id s rows there)
  | inr other ↦ ground (arith, published-IsDelivered t id s rows there)
]

pub any-last : (e : OutboxEvent) (s : Stream) → any (has_event_id e.id) (s ++ e ∷ []) ≡ true
any-last e s = ground (arith, any-append (has_event_id e.id) s e)

tables_of :
    {A : Type 0} {a a' : A} {d d' : Db} {q q' : Sequences}
    → ◌≡◌ {A = Result (A × Db) × Sequences} (ok (a, d), q) (ok (a', d'), q')
    → d ≡ d'
tables_of h = ground arith

-- The committed tables and those of the open transaction.
abbrev pub InTransaction : Stream → Transaction → Type 0
InTransaction s closed = Unit
InTransaction s aborted = Unit
InTransaction s (active t d) = IsDelivered s d

abbrev pub Throughout : Stream → World → Type 0
Throughout s w = IsDelivered s w.committed × InTransaction s w.tx

module _ (env : Env) (s : Stream) where
  after_failure-InTransaction :
      (t : ℕ) (d : Db)
      → IsDelivered s d
      → InTransaction s (if env.aborts then aborted else active t d)
  after_failure-InTransaction t d h = elim (Bool-cases env.aborts) [
    | inl strict ↦ rw strict tt
    | inr lenient ↦ rw lenient h
  ]

  module _ {A : Type 0} where
    settle-Throughout :
        (t : ℕ) (d : Db) (w : World) (r : Result (A × Db) × Sequences)
        → ((a : A) (d' : Db) (q : Sequences) → r ≡ (ok (a, d'), q) → IsDelivered s d')
        → IsDelivered s d
        → IsDelivered s w.committed
        → Throughout s (settle env t d w r).1
    settle-Throughout t d w (ok (a, d'), q) keeps h c = (c, keeps a d' q refl)
    settle-Throughout t d w (err e, q) keeps h c = (c, after_failure-InTransaction t d h)

    run_in-Throughout :
        (f : Stmt A)
        → ((t : ℕ) (d : Db) (q : Sequences) (a : A) (d' : Db) (q' : Sequences)
            → IsDelivered s d
            → f t d q ≡ (ok (a, d'), q')
            → IsDelivered s d')
        → (tx : Transaction) (w : World) → Throughout s w
        → InTransaction s tx
        → Throughout s (run_in env f tx w).1
    unfolding run_in
    run_in-Throughout f keeps closed w h k = h
    run_in-Throughout f keeps aborted w h k = h
    run_in-Throughout f keeps (active t d) w h k = elim (Bool-cases (env.fault w.clock)) [
      | inl lost ↦ rw lost (h.0, after_failure-InTransaction t d k)
      | inr fine ↦
          rw fine
            (settle-Throughout t d w (f t d w.seq) (λ a d' q e. keeps t d w.seq a d' q k e) k h.0)
    ]

    in_tx-Throughout :
        (f : Stmt A)
        → ((t : ℕ) (d : Db) (q : Sequences) (a : A) (d' : Db) (q' : Sequences)
            → IsDelivered s d
            → f t d q ≡ (ok (a, d'), q')
            → IsDelivered s d')
        → (w : World) → Throughout s w
        → Throughout s (in_tx env f w).1
    unfolding in_tx
    in_tx-Throughout f keeps w h = run_in-Throughout f keeps w.tx w h h.1

  pub mark_published-Throughout :
      (id : ℕ)
      → any (has_event_id id) s ≡ true
      → (w : World) → Throughout s w
      → Throughout s (mark_published env id w).1
  unfolding mark_published publish_event
  mark_published-Throughout id there = in_tx-Throughout (publish_event id) λ t d q a d' q' h e.
      subst (IsDelivered s) (tables_of e) (published-IsDelivered t id s d.outbox_events there h)

  pub record_retry-Throughout :
      (id : ℕ) (message : String) (w : World)
      → Throughout s w
      → Throughout s (record_retry env id message w).1
  unfolding record_retry retry_event
  record_retry-Throughout id message =
      in_tx-Throughout (retry_event id message) λ t d q a d' q' h e.
        subst (IsDelivered s) (tables_of e) (
          any-update_where (is_lost s) (has_event_id id) (retried t message) d.outbox_events
            (λ x. refl)
          ∙ h)

  pub get_pending-Throughout :
      (limit : ℕ) (w : World)
      → Throughout s w
      → Throughout s (get_pending_for_publish env limit w).1
  unfolding get_pending_for_publish select_pending
  get_pending-Throughout limit = in_tx-Throughout (select_pending env limit) λ t d q a d' q' h e.
      let same : d ≡ d' =
        unchanged-same d _ (ap (λ (p : Result (List OutboxEvent × Db) × Sequences). p.0) e) in
      subst (IsDelivered s) same h

  commit_as-Throughout :
      (tx : Transaction) (w : World)
      → Throughout s w
      → InTransaction s tx
      → Throughout s (commit_as env tx w).1
  unfolding commit_as
  commit_as-Throughout closed w h k = h
  commit_as-Throughout aborted w h k = (h.0, tt)
  commit_as-Throughout (active t d) w h k = elim (Bool-cases (env.fault w.clock)) [
    | inl lost ↦ rw lost (h.0, tt)
    | inr fine ↦ rw fine (k, tt)
  ]

  pub commit-Throughout : (w : World) → Throughout s w → Throughout s (commit env w).1
  unfolding commit
  commit-Throughout w h = commit_as-Throughout w.tx w h h.1
