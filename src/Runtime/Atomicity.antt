-- ===== src/Runtime/Atomicity.antt =====
-- Calls that leave the committed tables alone: always (`Quiet`), or whenever they fail (`Atomic`).
use go_ewallet_backend.Prelude.{
  ℕ, ◌≡◌, refl, ◌∙◌, Bool, true, false, Option, none, some, arith, if◌then◌else◌, inl, inr,
  Bool-cases,
}
use go_ewallet_backend.Model.{Db, Sequences}
use go_ewallet_backend.Runtime.Errors.{Error, Result, ok, err}
use go_ewallet_backend.Runtime.Surroundings.{World, Env, Transaction, closed, active, aborted}
use go_ewallet_backend.Runtime.Calls.{
  Exec, ◌>>=◌, recover, raise_if, or_raise, pure, raise, after, handle, gets, lift,
}
use go_ewallet_backend.Runtime.Statement.{
  Stmt, query, on_db, run_in, in_tx, begin_tx, commit, commit_as, with_rollback, settle, roll_back,
}

pub record Quiet {A : Type 0} (m : Exec A) : Type 0 where
  pub at : (w : World) → (m w).1.committed ≡ w.committed

-- `v` follows from `w`: a failure has left the committed tables as they were.
abbrev pub Unchanged : {A : Type 0} → World → Result A × World → Type 0
Unchanged w (ok a, v) = Unit
Unchanged w (err e, v) = v.committed ≡ w.committed

pub record Atomic {A : Type 0} (m : Exec A) : Type 0 where
  pub at : (w : World) → Unchanged w (m w)

module _ {A : Type 0} where
  pub Quiet-pure : (a : A) → Quiet (pure a)
  Quiet-pure a = record { at = λ w. refl }

  pub Quiet-raise : (e : Error) → Quiet (raise {A = A} e)
  Quiet-raise e = record { at = λ w. refl }

  pub Quiet-or_raise : (o : Option A) (e : Error) → Quiet (or_raise o e)
  Quiet-or_raise none e = record { at = λ w. refl }
  Quiet-or_raise (some a) e = record { at = λ w. refl }

  pub Quiet-if : (b : Bool) {m n : Exec A} → Quiet m → Quiet n → Quiet (if b then m else n)
  Quiet-if true qm qn = qm
  Quiet-if false qm qn = qn

pub Quiet-gets : {A : Type 0} (f : World → A) → Quiet (gets f)
Quiet-gets f = record { at = λ w. refl }

pub Quiet-lift : {A : Type 0} (r : Result A) → Quiet (lift r)
Quiet-lift r = record { at = λ w. refl }

pub Quiet-raise_if : (b : Bool) (e : Error) → Quiet (raise_if b e)
Quiet-raise_if true e = record { at = λ w. refl }
Quiet-raise_if false e = record { at = λ w. refl }

module _ (env : Env) {A : Type 0} (f : Stmt A) where
  settle-committed :
      (t : _) (d : Db) (w : World) (r : Result (A × Db) × Sequences)
      → (settle env t d w r).1.committed ≡ w.committed
  settle-committed t d w (ok (a, d'), s) = refl
  settle-committed t d w (err e, s) = refl

  run_in-committed : (tx : Transaction) (w : World) → (run_in env f tx w).1.committed ≡ w.committed
  unfolding run_in
  run_in-committed closed w = refl
  run_in-committed aborted w = refl
  run_in-committed (active t d) w = ground (arith, settle-committed t d w (f t d w.seq))

  pub Quiet-in_tx : Quiet (in_tx env f)
  unfolding in_tx
  Quiet-in_tx = record { at = λ w. run_in-committed w.tx w }

-- A query on the pool reads.
pub Quiet-on_db-query : {A : Type 0} (env : Env) (f : ℕ → Db → A) → Quiet (on_db env (query f))
unfolding on_db
Quiet-on_db-query env f = record { at = λ w. ground arith }

pub Quiet-begin_tx : (env : Env) → Quiet (begin_tx env)
unfolding begin_tx
Quiet-begin_tx env = record { at = λ w. ground arith }

Unchanged-moved :
    {B : Type 0} (w v : World) (r : Result B × World)
    → v.committed ≡ w.committed
    → Unchanged v r
    → Unchanged w r
Unchanged-moved w v (ok b, u) e h = tt
Unchanged-moved w v (err x, u) e h = h ∙ e

module _ {A B : Type 0} where
  after-committed :
      (r : Result A × World) (f : A → Exec B)
      → ((a : A) → Quiet (f a))
      → (after r f).1.committed ≡ r.1.committed
  after-committed (ok a, v) f qf = (qf a).at v
  after-committed (err e, v) f qf = refl

  pub Quiet-bind :
      (m : Exec A) (f : A → Exec B) → Quiet m → ((a : A) → Quiet (f a)) → Quiet (m >>= f)
  unfolding ◌>>=◌
  Quiet-bind m f qm qf = record { at = λ w. after-committed (m w) f qf ∙ qm.at w }

  after-Unchanged :
      (w : World) (r : Result A × World) (f : A → Exec B)
      → r.1.committed ≡ w.committed
      → ((a : A) → Atomic (f a))
      → Unchanged w (after r f)
  after-Unchanged w (ok a, v) f e af = Unchanged-moved w v (f a v) e ((af a).at v)
  after-Unchanged w (err x, v) f e af = e

  -- What precedes the commit is quiet; what follows it must not fail.
  pub Atomic-bind :
      (m : Exec A) (f : A → Exec B) → Quiet m → ((a : A) → Atomic (f a)) → Atomic (m >>= f)
  unfolding ◌>>=◌
  Atomic-bind m f qm af = record { at = λ w. after-Unchanged w (m w) f (qm.at w) af }

module _ {A : Type 0} where
  quiet-Unchanged : (w : World) (r : Result A × World) → r.1.committed ≡ w.committed → Unchanged w r
  quiet-Unchanged w (ok a, v) e = tt
  quiet-Unchanged w (err x, v) e = e

  pub Atomic-Quiet : (m : Exec A) → Quiet m → Atomic m
  Atomic-Quiet m qm = record { at = λ w. quiet-Unchanged w (m w) (qm.at w) }

  pub Atomic-if : (b : Bool) {m n : Exec A} → Atomic m → Atomic n → Atomic (if b then m else n)
  Atomic-if true am an = am
  Atomic-if false am an = an

  handle-committed :
      (r : Result A × World) (f : Error → Exec A)
      → ((e : Error) → Quiet (f e))
      → (handle r f).1.committed ≡ r.1.committed
  handle-committed (ok a, v) f qf = refl
  handle-committed (err e, v) f qf = (qf e).at v

  pub Quiet-recover :
      (m : Exec A) (f : Error → Exec A)
      → Quiet m
      → ((e : Error) → Quiet (f e))
      → Quiet (recover m f)
  unfolding recover
  Quiet-recover m f qm qf = record { at = λ w. handle-committed (m w) f qf ∙ qm.at w }

  roll_back-Unchanged :
      (w : World) (r : Result A × World) → Unchanged w r → Unchanged w (roll_back r)
  roll_back-Unchanged w (ok a, v) h = tt
  roll_back-Unchanged w (err e, v) h = h

  pub Atomic-with_rollback : (m : Exec A) → Atomic m → Atomic (with_rollback m)
  unfolding with_rollback
  Atomic-with_rollback m am = record { at = λ w. roll_back-Unchanged w (m w) (am.at w) }

  module _ (env : Env) (a : A) where
    commit_as-Unchanged :
        (tx : Transaction) (w : World) → Unchanged w (after (commit_as env tx w) (λ _. pure a))
    unfolding commit_as
    commit_as-Unchanged closed w = refl
    commit_as-Unchanged aborted w = refl
    commit_as-Unchanged (active t d) w = elim (Bool-cases (env.fault w.clock)) [
      | inl lost ↦ rw lost refl
      | inr fine ↦ rw fine tt
    ]

    -- A commit, as the last thing that can fail.
    pub Atomic-commit : Atomic (commit env >>= λ _. pure a)
    unfolding commit ◌>>=◌
    Atomic-commit = record { at = λ w. commit_as-Unchanged w.tx w }

pub ruleset quiet_rules = (
  Quiet-pure, Quiet-raise, Quiet-or_raise, Quiet-raise_if, Quiet-if, Quiet-gets, Quiet-lift,
  Quiet-in_tx, Quiet-begin_tx, Quiet-bind, Quiet-recover,
)

pub ruleset atomic_rules =
    (quiet_rules, Atomic-bind, Atomic-if, Atomic-with_rollback, Atomic-commit, Atomic-Quiet)
