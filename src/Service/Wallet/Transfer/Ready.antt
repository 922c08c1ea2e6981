-- ===== src/Service/Wallet/Transfer/Ready.antt =====
-- internal/service/wallet.go: what `TransferWithIdempotency` needs to go through, and the
-- reservation and the reference that it then gets.
use go_ewallet_backend.Prelude.{
  ℕ, suc, ◌≡◌, refl, ap, true, false, some, [], ◌∷◌, ◌++◌, ◌==◌, arith, str_eq, String,
}
use go_ewallet_backend.Prelude.Int.{pos, ◌+ℤ◌, ◌≤ℤ◌}
use go_ewallet_backend.Prelude.Int64.{max_int64}
use go_ewallet_backend.Prelude.Table.{find?, any}
use go_ewallet_backend.Model.{
  Db, Sequences, Wallet, TransferRequest, Scope, wallet_transfer, has_user, has_id, has_key,
  has_key_id,
}
use go_ewallet_backend.Runtime.{Env, World, Payload, ok, random, run_on}
use go_ewallet_backend.Runtime.Reaching.{
  Reaches, Inside, Returns, IsReliable, recover-Reaches, raise_if-past, or_raise-past, gets-past,
  in_tx-past, pure-Reaches,
}
use go_ewallet_backend.Repository.Column.{is_user}
use go_ewallet_backend.Repository.Idempotency
use go_ewallet_backend.Repository.Ledger.{has_entry_id}
use go_ewallet_backend.Repository.Outbox.{has_event_id}
use go_ewallet_backend.Repository.Wallet.Transfers.{
  has_transfer_id, has_transfer_reference, has_transfer_key,
}
use go_ewallet_backend.Service.Reference.{generate_reference, reference_name}
use go_ewallet_backend.Service.Reservation.{reserve, hash_payload}
use go_ewallet_backend.Service.Wallet.Transfer.Recordable.{has_ledger_reference}
use mathlib.Core.Option

-- The ids that the sequences give out next are not in the tables.
pub record HasNewIds (d : Db) (s : Sequences) : Type 0 where
  pub new_key_id : any (has_key_id (suc s.idempotency_keys)) d.idempotency_keys ≡ false
  pub new_key_reference : any (has_transfer_key (some (suc s.idempotency_keys))) d.transfers ≡ false
  pub new_transfer : any (has_transfer_id (suc s.transfers)) d.transfers ≡ false
  pub new_entry : any (has_entry_id (suc s.ledger_entries)) d.ledger_entries ≡ false
  pub new_second_entry : any (has_entry_id (suc (suc s.ledger_entries))) d.ledger_entries ≡ false
  pub new_event : any (has_event_id (suc s.outbox_events)) d.outbox_events ≡ false

-- A reference that no transfer and no entry has.
pub record IsNewReference (reference : String) (d : Db) : Type 0 where
  pub nonempty : str_eq reference "" ≡ false
  pub no_transfer : any (has_transfer_reference reference) d.transfers ≡ false
  pub no_entry : any (has_ledger_reference reference) d.ledger_entries ≡ false

-- Chance gives a reference at any time, and always a new one.
pub record GivesReferences (env : Env) (d : Db) : Type 0 where
  pub random_given : (n : ℕ) → (hex : String) × (env.random_hex 4 n ≡ some hex)
  pub reference_new :
      (n : ℕ) (hex : String)
      → env.random_hex 4 n ≡ some hex
      → IsNewReference (reference_name "TRF" (env.format_time (env.now n)) hex) d

-- The user has a wallet that holds the amount, the other wallet has room for it, and the key is
-- a new one of the user.
pub record IsReady (env : Env) (user_id : ℕ) (key : String) (req : TransferRequest) (d : Db)
    : Type 0 where
  pub sender : Wallet
  pub recipient : Wallet
  pub sent_by : find? (has_user user_id) d.wallets ≡ some sender
  pub sent_to : find? (has_id req.to_wallet_id) d.wallets ≡ some recipient
  pub distinct : (sender.id == req.to_wallet_id) ≡ false
  pub positive : pos 1 ≤ℤ req.amount
  pub covered : req.amount ≤ℤ sender.balance
  pub room : recipient.balance +ℤ req.amount ≤ℤ max_int64
  pub account : any (is_user user_id) d.users ≡ true
  pub keyed : str_eq key "" ≡ false
  pub unused_key : any (has_key user_id wallet_transfer key) d.idempotency_keys ≡ false
  pub text : String
  pub marshalled : env.marshal (Payload.transfer req) ≡ some text

insert_key-runs :
    (user_id : ℕ) (scope : Scope) (key hash : String) (t : ℕ) (d : Db) (s : Sequences)
    → any (has_key_id (suc s.idempotency_keys)) d.idempotency_keys ≡ false
    → any (has_key user_id scope key) d.idempotency_keys ≡ false
    → any (is_user user_id) d.users ≡ true
    → let row = Idempotency.key_row (suc s.idempotency_keys) t user_id scope key hash in
      Idempotency.insert_key user_id scope key hash t d s ≡ (
        ok (row, record d { idempotency_keys = d.idempotency_keys ++ row ∷ [] }),
        record s { idempotency_keys = suc s.idempotency_keys },
      )
unfolding Idempotency.insert_key
insert_key-runs user_id scope key hash t d s new unused known = ground (arith, new, unused, known)

module _ (env : Env) (calm : IsReliable env) (user_id : ℕ) (scope : Scope) (key : String)
    (payload : Payload) {t : ℕ} {d : Db} {s : Sequences} {w : World} (inside : Inside t d s w) where
  -- A key that its user has not used is reserved.
  pub reserve-Reaches :
      {text : String}
      → env.marshal payload ≡ some text
      → str_eq key "" ≡ false
      → any (has_key_id (suc s.idempotency_keys)) d.idempotency_keys ≡ false
      → any (has_key user_id scope key) d.idempotency_keys ≡ false
      → any (is_user user_id) d.users ≡ true
      → let row =
          Idempotency.key_row (suc s.idempotency_keys) t user_id scope key (env.sha256_hex text) in
        Reaches (reserve env user_id scope key payload) w (
          Returns
            (Idempotency.new_reservation row)
            t
            (record d { idempotency_keys = d.idempotency_keys ++ row ∷ [] })
            (record s { idempotency_keys = suc s.idempotency_keys }))
  unfolding reserve hash_payload Idempotency.reserve run_on
  reserve-Reaches marshalled keyed new unused known = raise_if-past _ _ _ keyed (
      or_raise-past _ _ _ (ap (Option.map env.sha256_hex) marshalled) (
        recover-Reaches _ _ (
          recover-Reaches _ _ (
            in_tx-past env calm _ _ inside
              (insert_key-runs user_id scope key _ t d s new unused known)
              (λ v i. pure-Reaches _ (refl, i))))))

pub generate_reference-Reaches :
    (env : Env) (d : Db) (w : World)
    → GivesReferences env d
    → Reaches (generate_reference env "TRF") w (λ r v. IsNewReference r d × (v ≡ w))
unfolding generate_reference
generate_reference-Reaches env d w given =
    let (hex, e) = given.random_given w.clock in
    gets-past _ _ e (
      or_raise-past _ random _ refl
        (gets-past _ _ refl (pure-Reaches _ (given.reference_new w.clock hex e, refl))))
