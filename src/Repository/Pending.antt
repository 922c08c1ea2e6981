-- ===== src/Repository/Pending.antt =====
-- internal/repository/outbox.go: what the publisher reads and writes. Times are in nanoseconds.
use go_ewallet_backend.Prelude.{
  ℕ, zero, suc, ◌+◌, ◌*◌, ◌^◌, String, Bool, true, false, ◌||◌, some, List, [], ◌∷◌, ◌==◌, ltb, leb,
  if◌then◌else◌,
}
use go_ewallet_backend.Prelude.Table.{any, select_where, update_where}
use go_ewallet_backend.Model.{Db, OutboxStatus, OutboxEvent}
use go_ewallet_backend.Runtime.{DbError, Error, Result, ok, err, Env, Exec, Stmt, update, in_tx}
use go_ewallet_backend.Repository.Outbox.{has_event_id}

abbrev pub is_pending : OutboxEvent → Bool
is_pending e = elim e.status [
  | OutboxStatus.pending ↦ true
  | OutboxStatus.published ↦ false
  | OutboxStatus.failed ↦ false
]

-- `make_interval(secs => LEAST(POWER(2, retry_count), 300))`, below the overflow of POWER.
abbrev pub backoff : ℕ → ℕ
backoff retry_count = if ltb retry_count 9 then 2 ^ retry_count * 1000000000 else 300 * 1000000000

-- `POWER` of two integers is the one on double precision, which fails from 2^1024 on.
abbrev pub overflows : OutboxEvent → Bool
overflows e = leb 1024 e.retry_count

-- `retry_count = 0 OR updated_at + … <= CURRENT_TIMESTAMP`
abbrev pub is_due : ℕ → OutboxEvent → Bool
is_due t e = e.retry_count == 0 || leb (e.updated_at + backoff e.retry_count) t

-- `ORDER BY created_at`
abbrev pub insert_by_time : OutboxEvent → List OutboxEvent → List OutboxEvent
insert_by_time e [] = e ∷ []
insert_by_time e (x ∷ xs) =
    let rest = insert_by_time e xs in if leb e.created_at x.created_at then e ∷ x ∷ xs else x ∷ rest

abbrev pub order_by_time : List OutboxEvent → List OutboxEvent
order_by_time [] = []
order_by_time (x ∷ xs) = insert_by_time x (order_by_time xs)

-- `LIMIT`
abbrev pub limited : ℕ → List OutboxEvent → List OutboxEvent
limited zero xs = []
limited (suc n) [] = []
limited (suc n) (x ∷ xs) = x ∷ limited n xs

-- The condition is computed for every pending event before the rows are put in order.
abbrev pub sorted_scan : ℕ → ℕ → List OutboxEvent → Result (List OutboxEvent)
sorted_scan t limit pending =
    if any overflows pending
    then err (Error.db DbError.out_of_range)
    else ok (limited limit (order_by_time (select_where (is_due t) pending)))

abbrev pub behind : OutboxEvent → Result (List OutboxEvent) → Result (List OutboxEvent)
behind e (ok es) = ok (e ∷ es)
behind e (err x) = err x

-- The condition is computed for one event after the other, in order, until the rows are enough.
abbrev pub index_scan : ℕ → ℕ → List OutboxEvent → Result (List OutboxEvent)
index_scan t zero es = ok []
index_scan t (suc n) [] = ok []
index_scan t (suc n) (e ∷ es) =
    let taken = index_scan t n es in
    let left = index_scan t (suc n) es in
    if overflows e
    then err (Error.db DbError.out_of_range)
    else if is_due t e
    then behind e taken
    else left

abbrev pub unchanged : Db → Result (List OutboxEvent) → Result (List OutboxEvent × Db)
unchanged d (ok es) = ok (es, d)
unchanged d (err x) = err x

unfoldable pub select_pending : Env → ℕ → Stmt (List OutboxEvent)
select_pending env limit = update λ t d.
    let pending = select_where is_pending d.outbox_events in
    unchanged d (
      if env.scans_all
      then sorted_scan t limit pending
      else index_scan t limit (order_by_time pending))

unfoldable pub get_pending_for_publish : Env → ℕ → Exec (List OutboxEvent)
get_pending_for_publish env limit = in_tx env (select_pending env limit)

abbrev pub published_at_time : ℕ → OutboxEvent → OutboxEvent
published_at_time t e = record e {
  status = OutboxStatus.published;
  published_at = some t;
  updated_at = t;
}

abbrev pub set_event : ℕ → (OutboxEvent → OutboxEvent) → Db → Result (Unit {0} × Db)
set_event id f d =
    ok (tt, record d { outbox_events = update_where (has_event_id id) f d.outbox_events })

unfoldable pub publish_event : ℕ → Stmt (Unit {0})
publish_event id = update (λ t d. set_event id (published_at_time t) d)

unfoldable pub mark_published : Env → ℕ → Exec (Unit {0})
mark_published env id = in_tx env (publish_event id)

abbrev pub retried : ℕ → String → OutboxEvent → OutboxEvent
retried t message e = record e {
  retry_count = suc e.retry_count;
  last_error = some message;
  updated_at = t;
}

unfoldable pub retry_event : ℕ → String → Stmt (Unit {0})
retry_event id message = update (λ t d. set_event id (retried t message) d)

unfoldable pub record_retry : Env → ℕ → String → Exec (Unit {0})
record_retry env id message = in_tx env (retry_event id message)
