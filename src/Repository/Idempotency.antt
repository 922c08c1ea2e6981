-- ===== src/Repository/Idempotency.antt =====
-- internal/repository/idempotency.go
use go_ewallet_backend.Prelude.{
  ℕ, suc, String, true, false, ◌||◌, not, Option, none, some, [], ◌∷◌, ◌++◌, str_eq, if◌then◌else◌,
}
use go_ewallet_backend.Prelude.Table.{find?, any, update_where}
use go_ewallet_backend.Model.{
  Db, Scope, IdempotencyStatus, IdempotencyKey, IdempotencyReserveResult, has_key, has_key_id,
  processing, completed,
}
use go_ewallet_backend.Runtime.{
  DbError, Error, Result, ok, err, no_rows, is_unique_violation, repository_key_conflict, Env, Exec,
  pure, raise, or_raise, raise_if, recover, ◌>>=◌, ◌>>◌, Stmt, query, update, Runner, run_on,
}
use go_ewallet_backend.Repository.Column.{is_user, returning}

abbrev pub key_row : ℕ → ℕ → ℕ → Scope → String → String → IdempotencyKey
key_row id t user_id scope key request_hash = record {
  id = id;
  user_id = user_id;
  scope = scope;
  idempotency_key = key;
  request_hash = request_hash;
  status = processing;
  resource_type = none;
  resource_id = none;
  locked_at = some t;
  last_seen_at = t;
  expires_at = none;
  created_at = t;
  updated_at = t;
}

abbrev pub add_key : IdempotencyKey → Db → Result Db
add_key row d =
    if any (has_key_id row.id) d.idempotency_keys
      || any (has_key row.user_id row.scope row.idempotency_key) d.idempotency_keys
    then err (Error.db DbError.unique_violation)
    else if not (any (is_user row.user_id) d.users)
    then err (Error.db DbError.foreign_key_violation)
    else ok (record d { idempotency_keys = d.idempotency_keys ++ row ∷ [] })

-- `INSERT INTO idempotency_keys (…) VALUES (…) RETURNING …`
unfoldable pub insert_key : ℕ → Scope → String → String → Stmt IdempotencyKey
insert_key user_id scope key request_hash t d s =
    let id = suc s.idempotency_keys in
    let row = key_row id t user_id scope key request_hash in
    (returning row (add_key row d), record s { idempotency_keys = id })

unfoldable pub select_key : ℕ → Scope → String → Stmt (Option IdempotencyKey)
select_key user_id scope key = query (λ t d. find? (has_key user_id scope key) d.idempotency_keys)

unfoldable pub get_by_user_scope_key : Env → Runner → ℕ → Scope → String → Exec IdempotencyKey
get_by_user_scope_key env runner user_id scope key = do
  row ← run_on env runner (select_key user_id scope key)
  or_raise row no_rows

abbrev pub set_key : ℕ → (IdempotencyKey → IdempotencyKey) → Db → Result (Unit {0} × Db)
set_key id f d =
    ok (tt, record d { idempotency_keys = update_where (has_key_id id) f d.idempotency_keys })

abbrev pub seen : ℕ → IdempotencyKey → IdempotencyKey
seen t r = record r { last_seen_at = t; updated_at = t }

unfoldable pub touch_key : ℕ → Stmt (Unit {0})
touch_key id = update (λ t d. set_key id (seen t) d)

unfoldable pub touch : Env → Runner → ℕ → Exec (Unit {0})
touch env runner id = run_on env runner (touch_key id)

abbrev pub completed_with : ℕ → String → ℕ → IdempotencyKey → IdempotencyKey
completed_with t resource_type resource_id r = record r {
  status = completed;
  resource_type = some resource_type;
  resource_id = some resource_id;
  last_seen_at = t;
  updated_at = t;
}

unfoldable pub complete_key : ℕ → String → ℕ → Stmt (Unit {0})
complete_key id resource_type resource_id =
    update (λ t d. set_key id (completed_with t resource_type resource_id) d)

unfoldable pub mark_completed : Env → Runner → ℕ → String → ℕ → Exec (Unit {0})
mark_completed env runner id resource_type resource_id =
    run_on env runner (complete_key id resource_type resource_id)

abbrev pub failed_at : ℕ → IdempotencyKey → IdempotencyKey
failed_at t r = record r { status = IdempotencyStatus.failed; last_seen_at = t; updated_at = t }

unfoldable pub fail_key : ℕ → Stmt (Unit {0})
fail_key id = update (λ t d. set_key id (failed_at t) d)

unfoldable pub mark_failed : Env → Runner → ℕ → Exec (Unit {0})
mark_failed env runner id = run_on env runner (fail_key id)

abbrev pub new_reservation : IdempotencyKey → IdempotencyReserveResult
new_reservation r = record { key = r; is_new = true }

-- What follows the insert that found the key taken.
unfoldable pub reserve_existing :
    Env → Runner → ℕ → Scope → String → String → Exec IdempotencyReserveResult
reserve_existing env runner user_id scope key request_hash = do
  found ← get_by_user_scope_key env runner user_id scope key
  raise_if (not (str_eq found.request_hash request_hash)) repository_key_conflict
  touch env runner found.id
  again ← get_by_user_scope_key env runner user_id scope key
  pure (record { key = again; is_new = false })

unfoldable pub reserve : Env → Runner → ℕ → Scope → String → String → Exec IdempotencyReserveResult
reserve env runner user_id scope key request_hash =
    recover
      (do
        row ← run_on env runner (insert_key user_id scope key request_hash)
        pure (new_reservation row))
      (λ e.
        if is_unique_violation e
        then reserve_existing env runner user_id scope key request_hash
        else raise e)
