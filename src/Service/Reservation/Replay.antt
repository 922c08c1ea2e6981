-- ===== src/Service/Reservation/Replay.antt =====
-- A used key, on a server whose transactions do not outlive a failed statement.
use go_ewallet_backend.Prelude.{ℕ, String, ◌≡◌, true, arith, Bool-cases, inl, inr, if◌then◌else◌}
use go_ewallet_backend.Model.{Db, Sequences, Scope, IdempotencyReserveResult}
use go_ewallet_backend.Runtime.{
  Error, Result, ok, err, Env, World, active, aborted, ◌>>=◌, pure, raise, Stmt, run_in, in_tx,
  settle, Runner, run_on, is_unique_violation, after, Payload,
}
use go_ewallet_backend.Runtime.Inversion.{
  bind-ok, recover-cases, recover-ok, raise_if-then, or_raise-then, in_tx-then,
}
use go_ewallet_backend.Repository.Idempotency
use go_ewallet_backend.Repository.Idempotency.{
  insert_key, new_reservation, reserve_existing, get_by_user_scope_key,
}
use go_ewallet_backend.Service.Reservation.{reserve}
use go_ewallet_backend.Service.Reservation.Completion.{IsUsed}
use go_ewallet_backend.Service.Reservation.Fresh.{insert_key-done}

module _ (env : Env) (strict : env.aborts ≡ true) where
  module _ {A : Type 0} where
    settle-err :
        (t : ℕ) (d : Db) (w : World) (r : Result (A × Db) × Sequences) {e : Error} {v : World}
        → settle env t d w r ≡ (err e, v)
        → v.tx ≡ aborted
    settle-err t d w (ok (a, d'), s) h = cc
    settle-err t d w (err x, s) h = ground arith

    -- A statement that fails has aborted the transaction.
    in_tx-err :
        (f : Stmt A) (t : ℕ) (d : Db) (w : World) {e : Error} {v : World}
        → w.tx ≡ active t d
        → in_tx env f w ≡ (err e, v)
        → v.tx ≡ aborted
    unfolding in_tx run_in
    in_tx-err f t d w {e} {v} opened h = elim (Bool-cases (env.fault w.clock)) [
      | inl lost ↦ ground (arith, rw (opened, lost) at h)
      | inr fine ↦ settle-err t d w (f t d w.seq) (rw (opened, fine) at h)
    ]

    -- In an aborted transaction no statement returns.
    in_tx-aborted :
        (f : Stmt A) (w : World) {a : A} {w' : World}
        → w.tx ≡ aborted
        → in_tx env f w ≡ (ok a, w')
        → ⊥
    unfolding in_tx run_in
    in_tx-aborted f w over h = cc (rw over at h)

  after_pure-err :
      {A B : Type 0} (r : Result A × World) (g : A → B) {e : Error} {v : World}
      → after r (λ a. pure (g a)) ≡ (err e, v)
      → r ≡ (err e, v)
  after_pure-err (ok a, u) g h = cc
  after_pure-err (err x, u) g h = cc

  module _ (user_id : ℕ) (scope : Scope) (key hash : String) where
    handler-refused :
        (e : Error) (w : World) {r : IdempotencyReserveResult} {w' : World}
        → w.tx ≡ aborted
        → (if is_unique_violation e
              then reserve_existing env Runner.tx_runner user_id scope key hash
              else raise e)
            w
          ≡ (ok r, w')
        → ⊥
    unfolding reserve_existing get_by_user_scope_key run_on
    handler-refused e w over h = elim (Bool-cases (is_unique_violation e)) [
      | inl taken ↦
          let (_, _, s, _) = bind-ok _ _ (rw taken at h) in
          let (_, _, q, _) = bind-ok _ _ s in in_tx-aborted _ w over q
      | inr other ↦ cc (rw other at h)
    ]

    repository_reserve-refused :
        (t : ℕ) (d : Db) (w : World) {r : IdempotencyReserveResult} {w' : World}
        → w.tx ≡ active t d
        → IsUsed user_id scope key d
        → Idempotency.reserve env Runner.tx_runner user_id scope key hash w ≡ (ok r, w')
        → ⊥
    unfolding Idempotency.reserve run_on ◌>>=◌
    repository_reserve-refused t d w opened used h = elim (recover-cases _ _ h) [
      | inl inserted ↦
          let (row, w1, ran, _) = in_tx-then env _ _ t d opened inserted in
          let (_, _, free, _, _) = insert_key-done user_id scope key hash ran in cc (used, free)
      | inr (e, v, failed, handled) ↦
          handler-refused e v (in_tx-err _ t d w opened (after_pure-err _ _ failed)) handled
    ]

-- The reservation of a used key returns no result: its INSERT aborts the transaction in which it
-- goes on to read.
pub reserve-refused :
    (env : Env) (user_id : ℕ) (scope : Scope) (key : String) (payload : Payload) (t : ℕ) (d : Db)
    (w : World) {r : IdempotencyReserveResult} {w' : World}
    → env.aborts ≡ true
    → w.tx ≡ active t d
    → IsUsed user_id scope key d
    → reserve env user_id scope key payload w ≡ (ok r, w')
    → ⊥
unfolding reserve
reserve-refused env user_id scope key payload t d w strict opened used h0 =
    let (_, h1) = raise_if-then _ _ _ h0 in
    let (hash, _, h2) = or_raise-then _ _ _ h1 in
    repository_reserve-refused env strict user_id scope key hash t d w opened used
      (recover-ok _ _ (λ e v f. cc f) h2)
