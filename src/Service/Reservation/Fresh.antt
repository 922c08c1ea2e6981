-- ===== src/Service/Reservation/Fresh.antt =====
-- A reservation that is new: the key was free, and a processing record holds it now.
use go_ewallet_backend.Prelude.{
  ℕ, ◌≡◌, ap, true, false, [], ◌∷◌, ◌++◌, ◌==◌, arith, String, inl, inr, Bool-cases, if◌then◌else◌,
}
use go_ewallet_backend.Prelude.Table.{any}
use go_ewallet_backend.Model.{
  Db, Scope, IdempotencyKey, IdempotencyReserveResult, has_key, has_key_id,
}
use go_ewallet_backend.Runtime.{
  Env, World, Payload, active, Error, ok, Runner, run_on, raise, is_unique_violation,
}
use go_ewallet_backend.Runtime.Inversion.{
  Ran, in_tx-then, bind-ok, or_raise-then, raise_if-then, recover-ok, recover-cases, pure-ok,
}
use go_ewallet_backend.Repository.Idempotency
use go_ewallet_backend.Repository.Idempotency.{
  key_row, insert_key, new_reservation, reserve_existing,
}
use go_ewallet_backend.Service.Reservation.{reserve}

-- The tables `d` with the record that holds the key.
abbrev pub reserved_db : Db → IdempotencyKey → Db
reserved_db d row = record d { idempotency_keys = d.idempotency_keys ++ row ∷ [] }

pub record Fresh (user_id : ℕ) (scope : Scope) (key : String) (t : ℕ) (d : Db)
    (r : IdempotencyReserveResult) (w' : World) : Type 0 where
  pub hash : String
  pub row : r.key ≡ key_row r.key.id t user_id scope key hash
  pub nonzero : (r.key.id == 0) ≡ false
  pub key_free : any (has_key user_id scope key) d.idempotency_keys ≡ false
  pub id_free : any (has_key_id r.key.id) d.idempotency_keys ≡ false
  pub left : w'.tx ≡ active t (reserved_db d r.key)

module _ (user_id : ℕ) (scope : Scope) (key hash : String) where
  pub insert_key-done :
      {t : ℕ} {d : Db} {w : World} {row : IdempotencyKey} {v : World}
      (r : Ran (insert_key user_id scope key hash) t d w row v)
      → (row ≡ key_row row.id t user_id scope key hash)
        × ((row.id == 0) ≡ false)
        × (any (has_key user_id scope key) d.idempotency_keys ≡ false)
        × (any (has_key_id row.id) d.idempotency_keys ≡ false)
        × (r.done ≡ reserved_db d row)
  unfolding insert_key
  insert_key-done r = (
    ground (arith, r.ran),
    ground (arith, r.ran),
    ground (arith, r.ran),
    ground (arith, r.ran),
    ground (arith, r.ran),
  )

  Fresh-inserted :
      (t : ℕ) (d : Db) (w : World) (row : IdempotencyKey) (r : IdempotencyReserveResult)
      (w1 w' : World)
      → Ran (insert_key user_id scope key hash) t d w row w1
      → r ≡ new_reservation row
      → w' ≡ w1
      → Fresh user_id scope key t d r w'
  Fresh-inserted t d w row r w1 w' ran returned same =
      let (shape, nonzero, key_free, id_free, done) = insert_key-done ran in
      let e : r.key ≡ row = ap (λ (x : IdempotencyReserveResult). x.key) returned in
      record {
        hash = hash;
        row = cc (shape, e);
        nonzero = rw e nonzero;
        key_free = key_free;
        id_free = rw e id_free;
        left = cc (ran.left, done, e, same);
      }

  module _ (env : Env) where
    -- The branch for a used key says that it is not new.
    existing-is_new :
        (w : World) {r : IdempotencyReserveResult} {w' : World}
        → reserve_existing env Runner.tx_runner user_id scope key hash w ≡ (ok r, w')
        → r.is_new ≡ false
    unfolding reserve_existing
    existing-is_new w h0 =
        let (found, w1, _, h1) = bind-ok _ _ h0 in
        let (_, h2) = raise_if-then _ _ _ h1 in
        let (_, w2, _, h3) = bind-ok _ _ h2 in
        let (again, w3, _, h4) = bind-ok _ _ h3 in
        ap (λ (x : IdempotencyReserveResult). x.is_new) (pure-ok h4).0

    handler-is_new :
        (e : Error) (w : World) {r : IdempotencyReserveResult} {w' : World}
        → (if is_unique_violation e
              then reserve_existing env Runner.tx_runner user_id scope key hash
              else raise e)
            w
          ≡ (ok r, w')
        → r.is_new ≡ false
    handler-is_new e w {r} {w'} h = elim (Bool-cases (is_unique_violation e)) [
      | inl taken ↦ existing-is_new w (rw taken at h)
      | inr other ↦ cc (rw other at h)
    ]

    repository_reserve-Fresh :
        (t : ℕ) (d : Db) (w : World) {r : IdempotencyReserveResult} {w' : World}
        → w.tx ≡ active t d
        → r.is_new ≡ true
        → Idempotency.reserve env Runner.tx_runner user_id scope key hash w ≡ (ok r, w')
        → Fresh user_id scope key t d r w'
    unfolding Idempotency.reserve run_on
    repository_reserve-Fresh t d w {r} {w'} opened new h = elim (recover-cases _ _ h) [
      | inl inserted ↦
          let (row, w1, ran, h1) = in_tx-then env _ _ t d opened inserted in
          let (returned, same) = pure-ok h1 in Fresh-inserted t d w row r w1 w' ran returned same
      | inr (e, v, _, handled) ↦ cc (handler-is_new e v handled)
    ]

-- A new reservation by the service.
pub reserve-Fresh :
    (env : Env) (user_id : ℕ) (scope : Scope) (key : String) (payload : Payload) (t : ℕ) (d : Db)
    (w : World) {r : IdempotencyReserveResult} {w' : World}
    → w.tx ≡ active t d
    → r.is_new ≡ true
    → reserve env user_id scope key payload w ≡ (ok r, w')
    → Fresh user_id scope key t d r w'
unfolding reserve
reserve-Fresh env user_id scope key payload t d w opened new h0 =
    let (_, h1) = raise_if-then _ _ _ h0 in
    let (hash, _, h2) = or_raise-then _ _ _ h1 in
    repository_reserve-Fresh user_id scope key hash env t d w opened new
      (recover-ok _ _ (λ e v f. cc f) h2)
