-- ===== src/Service/Wallet/Steps.antt =====
-- What the steps that the wallet service shares have done to the tables of its transaction.
use go_ewallet_backend.Prelude.{
  ℕ, ◌≡◌, refl, ◌∙◌, ap, true, false, [], ◌∷◌, ◌++◌, ◌==◌, arith, String,
}
use go_ewallet_backend.Prelude.Int.{ℤ}
use go_ewallet_backend.Prelude.Table.{update_where}
use go_ewallet_backend.Model.{Db, LedgerEntry, OutboxEvent, Event, OutboxStatus, has_key_id}
use go_ewallet_backend.Runtime.{Env, World, active, ok, run_on}
use go_ewallet_backend.Runtime.Inversion.{
  Ran, in_tx-ok, in_tx-then, gets-then, or_raise-then, pure-ok,
}
use go_ewallet_backend.Repository.Ledger
use go_ewallet_backend.Repository.Ledger.{ledger_row, insert_entry, progresses}
use go_ewallet_backend.Repository.Idempotency
use go_ewallet_backend.Repository.Idempotency.{key_row, completed_with, insert_key, complete_key}
use go_ewallet_backend.Repository.Outbox
use go_ewallet_backend.Repository.Outbox.{insert_event}
use go_ewallet_backend.Service.Reference.{generate_reference}
use go_ewallet_backend.Service.Reservation.{complete_idempotency}
use go_ewallet_backend.Service.Wallet.Event.{publish_event_tx}

insert_entry-done :
    (entry : LedgerEntry) {t : ℕ} {d : Db} {w : World} {id : ℕ} {v : World}
    (r : Ran (insert_entry entry) t d w id v)
    → (r.done ≡ record d { ledger_entries = d.ledger_entries ++ ledger_row id t entry ∷ [] })
      × (progresses entry.direction entry.amount entry.balance_before entry.balance_after ≡ true)
unfolding insert_entry
insert_entry-done entry r = ground (arith, r.ran)

complete_key-done :
    (id : ℕ) (resource_type : String) (resource_id : ℕ) {t : ℕ} {d : Db} {w : World} {u : Unit {0}}
    {v : World} (r : Ran (complete_key id resource_type resource_id) t d w u v)
    → r.done ≡ record d {
      idempotency_keys =
          update_where
            (has_key_id id)
            (completed_with t resource_type resource_id)
            d.idempotency_keys;
    }
unfolding complete_key
complete_key-done id resource_type resource_id r = ground (arith, r.ran)

-- The event that was appended is pending.
insert_event-done :
    (event_type : String) (payload : _) {t : ℕ} {d : Db} {w : World} {id : ℕ} {v : World}
    (r : Ran (insert_event event_type payload) t d w id v)
    → (row : OutboxEvent) × (r.done ≡ record d { outbox_events = d.outbox_events ++ row ∷ [] })
      × (row.status ≡ OutboxStatus.pending)
      × (row.event_type ≡ event_type)
      × (row.payload ≡ payload)
unfolding insert_event
insert_event-done event_type payload {t = t} {id = id} r =
    (Outbox.event_row id t event_type payload, ground (arith, r.ran), refl, refl, refl)

module _ (env : Env) {t : ℕ} {d : Db} (w : World) {w' : World} (opened : w.tx ≡ active t d) where
  -- An entry has been appended whose balances fit its direction and amount.
  pub create_entry-ok :
      (entry : LedgerEntry) {id : ℕ}
      → Ledger.create_tx env entry w ≡ (ok id, w')
      → (w'.tx
          ≡ active t (record d { ledger_entries = d.ledger_entries ++ ledger_row id t entry ∷ [] }))
        × (progresses entry.direction entry.amount entry.balance_before entry.balance_after ≡ true)
        × (w'.committed ≡ w.committed)
  unfolding Ledger.create_tx
  create_entry-ok entry h =
      let r = in_tx-ok env (insert_entry entry) t d w opened h in
      let (e, fits) = insert_entry-done entry r in (r.left ∙ ap (active t) e, fits, r.kept)

  -- The reservation with this id has been completed.
  pub complete_idempotency-ok :
      (id : ℕ) (resource_type : String) (resource_id : ℕ) {u : Unit {0}}
      → (id == 0) ≡ false
      → complete_idempotency env id resource_type resource_id w ≡ (ok u, w')
      → (w'.tx
          ≡ active t (record d {
            idempotency_keys =
                update_where
                  (has_key_id id)
                  (completed_with t resource_type resource_id)
                  d.idempotency_keys;
          }))
        × (w'.committed ≡ w.committed)
  unfolding complete_idempotency Idempotency.mark_completed run_on
  complete_idempotency-ok id resource_type resource_id nonzero h =
      let r =
        in_tx-ok env (complete_key id resource_type resource_id) t d w opened (rw nonzero at h) in
      (r.left ∙ ap (active t) (complete_key-done id resource_type resource_id r), r.kept)

  -- A pending event has been appended.
  pub publish_event_tx-ok :
      (event_type : String) (user_id : ℕ) (amount : ℤ) {u : Unit {0}}
      → publish_event_tx env event_type user_id amount w ≡ (ok u, w')
      → (row : OutboxEvent) × (w'.tx
          ≡ active t (record d { outbox_events = d.outbox_events ++ row ∷ [] }))
        × (row.status ≡ OutboxStatus.pending)
        × (row.event_type ≡ event_type)
        × (row.payload.amount ≡ amount)
  unfolding publish_event_tx Outbox.create_tx
  publish_event_tx-ok event_type user_id amount h0 =
      let (id, w1, ran, h1) = in_tx-then env _ _ t d opened (gets-then _ _ h0) in
      let (row, e, pending, type, payload) = insert_event-done event_type _ ran in
      (
        row,
        ap (λ (v : World). v.tx) (pure-ok h1).1 ∙ ran.left ∙ ap (active t) e,
        pending,
        type,
        ap (λ (p : Event). p.amount) payload,
      )

  -- A reference is made up without touching the database.
  pub generate_reference-ok :
      (prefix : String) {s : String} → generate_reference env prefix w ≡ (ok s, w') → w' ≡ w
  unfolding generate_reference
  generate_reference-ok prefix h0 =
      let (hex, _, h1) = or_raise-then _ _ _ (gets-then _ _ h0) in (pure-ok (gets-then _ _ h1)).1
