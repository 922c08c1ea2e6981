-- ===== src/Runtime/Statement.antt =====
-- SQL statements, run in the open transaction or on their own, and the ends of a transaction.
use go_ewallet_backend.Prelude.{ℕ, suc, if◌then◌else◌}
use go_ewallet_backend.Model.{Db, Sequences}
use go_ewallet_backend.Runtime.Errors.{DbError, Error, Result, ok, err}
use go_ewallet_backend.Runtime.Surroundings.{World, Env, Transaction, closed, active, aborted}
use go_ewallet_backend.Runtime.Calls.{Exec}

-- A statement at a time, over the tables and the sequences. It changes the tables or fails; an id
-- that it has drawn stays drawn.
abbrev pub Stmt : Type 0 → Type 0
Stmt A = ℕ → Db → Sequences → Result (A × Db) × Sequences

module _ {A : Type 0} where
  -- A query reads the tables.
  abbrev pub query : (ℕ → Db → A) → Stmt A
  query f t d s = (ok (f t d, d), s)

  -- An update computes the new tables, or an error.
  abbrev pub update : (ℕ → Db → Result (A × Db)) → Stmt A
  update f t d s = (f t d, s)

abbrev pub tick : World → World
tick w = record w { clock = suc w.clock }

module _ (env : Env) where
  abbrev pub after_failure : ℕ → Db → Transaction
  after_failure t d = if env.aborts then aborted else active t d

  module _ {A : Type 0} where
    abbrev pub settle : ℕ → Db → World → Result (A × Db) × Sequences → Result A × World
    settle t d w (ok (a, d'), s) =
        (ok a, record w { tx = active t d'; seq = s; clock = suc w.clock })
    settle t d w (err e, s) =
        (err e, record w { tx = after_failure t d; seq = s; clock = suc w.clock })

    unfoldable pub run_in : Stmt A → Transaction → Exec A
    run_in f closed w = (err (Error.db DbError.tx_done), w)
    run_in f aborted w = (err (Error.db DbError.in_failed_transaction), tick w)
    run_in f (active t d) w =
        if env.fault w.clock
        then (
          err (Error.db DbError.unavailable),
          record w { tx = after_failure t d; clock = suc w.clock },
        )
        else settle t d w (f t d w.seq)

    -- `tx.QueryRowContext`, `tx.QueryContext` and `tx.ExecContext`.
    unfoldable pub in_tx : Stmt A → Exec A
    unfolding run_in
    in_tx f w = run_in f w.tx w

    abbrev pub settle_alone : World → Result (A × Db) × Sequences → Result A × World
    settle_alone w (ok (a, d'), s) =
        (ok a, record w { committed = d'; seq = s; clock = suc w.clock })
    settle_alone w (err e, s) = (err e, record w { seq = s; clock = suc w.clock })

    -- The same on `db`: the statement is a transaction of its own.
    unfoldable pub on_db : Stmt A → Exec A
    on_db f w =
        if env.fault w.clock
        then (err (Error.db DbError.unavailable), tick w)
        else settle_alone w (f (env.now w.clock) w.committed w.seq)

  -- `db.BeginTx`
  unfoldable pub begin_tx : Exec (Unit {0})
  begin_tx w =
      if env.fault w.clock
      then (err (Error.db DbError.unavailable), tick w)
      else (ok tt, record w { tx = active (env.now w.clock) w.committed; clock = suc w.clock })

  unfoldable pub commit_as : Transaction → Exec (Unit {0})
  commit_as closed w = (err (Error.db DbError.tx_done), w)
  commit_as aborted w =
      (err (Error.db DbError.in_failed_transaction), record w { tx = closed; clock = suc w.clock })
  commit_as (active t d) w =
      if env.fault w.clock
      then (err (Error.db DbError.unavailable), record w { tx = closed; clock = suc w.clock })
      else (ok tt, record w { committed = d; tx = closed; clock = suc w.clock })

  -- `tx.Commit`
  unfoldable pub commit : Exec (Unit {0})
  unfolding commit_as
  commit w = commit_as w.tx w

module _ {A : Type 0} where
  abbrev pub roll_back : Result A × World → Result A × World
  roll_back (r, w) = (r, record w { tx = closed })

  -- `defer tx.Rollback()`: after a commit it finds the transaction closed and does nothing.
  unfoldable pub with_rollback : Exec A → Exec A
  with_rollback m w = roll_back (m w)

-- `queryRowExecer`: the transaction that the caller hands on, or `nil` for the pool.
pub data Runner : Type 0 where
  nil_runner tx_runner : Runner

-- `resolveRunner`
unfoldable pub run_on : {A : Type 0} → Env → Runner → Stmt A → Exec A
unfolding in_tx on_db
run_on env Runner.tx_runner f = in_tx env f
run_on env Runner.nil_runner f = on_db env f
