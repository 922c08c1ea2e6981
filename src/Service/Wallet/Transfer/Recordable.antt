-- ===== src/Service/Wallet/Transfer/Recordable.antt =====
-- internal/service/wallet.go: the rest of `TransferWithIdempotency`, from the ledger to the commit,
-- returns where the ledger has room for the two entries.
use go_ewallet_backend.Prelude.{
  ℕ, suc, ◌≡◌, refl, sym, subst, ◌∙◌, ap, true, false, some, List, [], ◌∷◌, ◌++◌, ◌==◌, arith,
  str_eq, String, Bool, if◌then◌else◌,
}
use go_ewallet_backend.Prelude.Int.{ℤ, ◌+ℤ◌, ◌-ℤ◌}
use go_ewallet_backend.Prelude.Table.{any, any-append, update_where}
use go_ewallet_backend.Model.{
  Db, Sequences, LedgerRow, TransferRequest, TransferResponse, has_id, has_key_id,
}
use go_ewallet_backend.Runtime.{Env, World, ok, pure, Runner, run_on}
use go_ewallet_backend.Runtime.Reaching.{
  Reaches, Inside, Returns, IsReliable, bind-Reaches, in_tx-Reaches, in_tx-past, gets-past,
  pure-Reaches, commit-Reaches,
}
use go_ewallet_backend.Repository.Column.{not_positive, eq_ℤ}
use go_ewallet_backend.Repository.Idempotency
use go_ewallet_backend.Repository.Ledger
use go_ewallet_backend.Repository.Ledger.{
  ledger_row, has_entry_id, same_movement, dangling_transfer, insert_entry, direction_eq,
  progresses,
}
use go_ewallet_backend.Repository.Outbox
use go_ewallet_backend.Service.Reservation.{complete_idempotency}
use go_ewallet_backend.Service.Wallet.Event.{publish_event_tx}
use go_ewallet_backend.Service.Wallet.Transfer.{record_transfer, debit_entry, credit_entry}

abbrev pub has_ledger_reference : String → LedgerRow → Bool
has_ledger_reference reference r = str_eq r.reference_id reference

-- What `ledger_entries` and `outbox_events` must not hold yet, and what the entries refer to.
pub record Recordable (r : TransferResponse) (d : Db) (s : Sequences) : Type 0 where
  pub amount_ok : not_positive r.amount ≡ false
  pub sender_sum : r.sender_balance_after ≡ r.sender_balance_before -ℤ r.amount
  pub recipient_sum : r.recipient_balance_after ≡ r.recipient_balance_before +ℤ r.amount
  pub first_id : any (has_entry_id (suc s.ledger_entries)) d.ledger_entries ≡ false
  pub second_id : any (has_entry_id (suc (suc s.ledger_entries))) d.ledger_entries ≡ false
  pub new_name : any (has_ledger_reference r.reference_id) d.ledger_entries ≡ false
  pub sender_known : any (has_id r.from_wallet_id) d.wallets ≡ true
  pub recipient_known : any (has_id r.to_wallet_id) d.wallets ≡ true
  pub transfer_known : dangling_transfer (some r.id) d.transfers ≡ false
  pub event_id : any (Outbox.has_event_id (suc s.outbox_events)) d.outbox_events ≡ false

-- A reference that no entry has makes no movement twice.
no_movement :
    (row : LedgerRow) (es : List LedgerRow)
    → any (has_ledger_reference row.reference_id) es ≡ false
    → any (same_movement row) es ≡ false
no_movement row [] h = refl
no_movement row (e ∷ es) h = ground (arith, no_movement row es)

eq_ℤ-same : (a b : ℤ) → a ≡ b → eq_ℤ a b ≡ true
eq_ℤ-same a b h = ground arith

abbrev with_entry : Db → LedgerRow → Db
with_entry d row = record d { ledger_entries = d.ledger_entries ++ row ∷ [] }

abbrev next_entry : Sequences → Sequences
next_entry s = record s { ledger_entries = suc s.ledger_entries }

module _ (r : TransferResponse) (t : ℕ) (d : Db) (s : Sequences) (fine : Recordable r d s) where
  debit-runs : insert_entry (debit_entry r) t d s ≡ (
    ok (suc s.ledger_entries, with_entry d (ledger_row (suc s.ledger_entries) t (debit_entry r))),
    next_entry s,
  )
  unfolding insert_entry
  debit-runs = ground (
    arith,
    fine.amount_ok,
    eq_ℤ-same _ _ fine.sender_sum,
    fine.first_id,
    fine.sender_known,
    fine.transfer_known,
    no_movement (ledger_row (suc s.ledger_entries) t (debit_entry r)) d.ledger_entries
        fine.new_name,
  )

  credit-runs :
      let first = ledger_row (suc s.ledger_entries) t (debit_entry r) in
      insert_entry (credit_entry r) t (with_entry d first) (next_entry s) ≡ (
        ok (
          suc (suc s.ledger_entries),
          with_entry
              (with_entry d first)
              (ledger_row (suc (suc s.ledger_entries)) t (credit_entry r)),
        ),
        next_entry (next_entry s),
      )
  unfolding insert_entry
  credit-runs =
      let row = ledger_row (suc (suc s.ledger_entries)) t (credit_entry r) in
      let first = ledger_row (suc s.ledger_entries) t (debit_entry r) in
      ground (
        arith,
        fine.amount_ok,
        eq_ℤ-same _ _ fine.recipient_sum,
        fine.second_id,
        fine.recipient_known,
        fine.transfer_known,
        any-append (has_entry_id (suc (suc s.ledger_entries))) d.ledger_entries first,
        any-append (same_movement row) d.ledger_entries first,
        no_movement row d.ledger_entries fine.new_name,
      )

abbrev with_completed : ℕ → String → ℕ → ℕ → Db → Db
with_completed id type resource t d = record d {
  idempotency_keys =
      update_where (has_key_id (suc id)) (Idempotency.completed_with t type resource)
        d.idempotency_keys;
}

pub not_zero : (n : ℕ) → (suc n == 0) ≡ false
not_zero n = ground arith

complete_key-runs :
    (id : ℕ) (type : String) (resource : ℕ) (t : ℕ) (d : Db) (s : Sequences)
    → Idempotency.complete_key id type resource t d s
      ≡ (Idempotency.set_key id (Idempotency.completed_with t type resource) d, s)
unfolding Idempotency.complete_key
complete_key-runs id type resource t d s = refl

insert_event-runs :
    (type : String) (e : _) (t : ℕ) (d : Db) (s : Sequences)
    → any (Outbox.has_event_id (suc s.outbox_events)) d.outbox_events ≡ false
    → Outbox.insert_event type e t d s ≡ (
      ok (
        suc s.outbox_events,
        record d {
          outbox_events = d.outbox_events ++ Outbox.event_row (suc s.outbox_events) t type e ∷ [];
        },
      ),
      record s { outbox_events = suc s.outbox_events },
    )
unfolding Outbox.insert_event
insert_event-runs type e t d s h = ground (arith, h)

module _ (env : Env) (calm : IsReliable env) (id : ℕ) (type : String) (resource : ℕ) {t : ℕ}
    {d : Db} {s : Sequences} {w : World} (inside : Inside t d s w) where
  -- The id that the reservation draws is not 0, so its row is marked.
  complete_idempotency-Reaches :
      Reaches
        (complete_idempotency env (suc id) type resource)
        w
        (Returns tt t (with_completed id type resource t d) s)
  unfolding complete_idempotency Idempotency.mark_completed run_on
  complete_idempotency-Reaches =
      subst
        (λ b.
          Reaches
            (if b
              then pure tt
              else Idempotency.mark_completed env Runner.tx_runner (suc id) type resource)
            w (Returns tt t (with_completed id type resource t d) s))
        (sym (not_zero id))
        (in_tx-Reaches env calm (Idempotency.complete_key (suc id) type resource) inside
          (complete_key-runs (suc id) type resource t d s))

module _ (env : Env) (calm : IsReliable env) (type : String) (user_id : ℕ) (amount : ℤ) {t : ℕ}
    {d : Db} {s : Sequences} {w : World} (inside : Inside t d s w) where
  publish_event_tx-Reaches :
      any (Outbox.has_event_id (suc s.outbox_events)) d.outbox_events ≡ false
      → Reaches
          (publish_event_tx env type user_id amount)
          w
          (λ _ v. (d' : Db) × (s' : Sequences) × Inside t d' s' v × (d'.transfers ≡ d.transfers))
  unfolding publish_event_tx Outbox.create_tx
  publish_event_tx-Reaches new = gets-past _ _ refl (
      in_tx-past env calm _ _ inside (insert_event-runs _ _ _ _ _ new)
        (λ v i. pure-Reaches tt (_, _, i, refl)))

module _ (env : Env) (calm : IsReliable env) (user_id key_id : ℕ) (req : TransferRequest)
    (r : TransferResponse) {t : ℕ} {d : Db} {s : Sequences} {w : World} (inside : Inside t d s w)
    (fine : Recordable r d s) where
  pub record_transfer-Reaches :
      Reaches
        (record_transfer env user_id (suc key_id) req r)
        w
        (λ x v. (x ≡ r) × (v.committed.transfers ≡ d.transfers))
  unfolding record_transfer Ledger.create_tx
  record_transfer-Reaches = in_tx-past env calm _ _ inside (debit-runs r t d s fine) (λ w1 i1.
      in_tx-past env calm _ _ i1 (credit-runs r t d s fine) (λ w2 i2.
        bind-Reaches _ _ (complete_idempotency-Reaches env calm key_id _ _ i2) (λ u w3 (_, i3).
          bind-Reaches _ _ (publish_event_tx-Reaches env calm _ _ _ i3 fine.event_id)
            (λ u w4 (d4, s4, i4, same4).
              bind-Reaches _ _ (commit-Reaches env calm i4)
                (λ u w5 kept. pure-Reaches r (refl, ap (λ (x : Db). x.transfers) kept ∙ same4))))))
