-- ===== src/Service/Wallet/Transfer/Affordable.antt =====
-- internal/repository/wallet.go: `TransferWithMetadataTx` on wallets that can afford the transfer.
use go_ewallet_backend.Prelude.{
  ℕ, suc, ◌≡◌, refl, ◌∙◌, true, false, some, List, [], ◌∷◌, ◌++◌, ◌==◌, arith, str_eq, ==_iff,
}
use go_ewallet_backend.Prelude.Int.{ℤ, pos, ◌+ℤ◌, ◌-ℤ◌, ◌≤ℤ◌, leb_ℤ}
use go_ewallet_backend.Prelude.Int64.{max_int64, fits_int64}
use go_ewallet_backend.Prelude.Table.{find?, any, count_where}
use go_ewallet_backend.Model.{Db, Sequences, Wallet, has_id}
use go_ewallet_backend.Runtime.{ok}
use go_ewallet_backend.Repository.Column.{dangling_user, dangling_key}
use go_ewallet_backend.Repository.Wallet.Balances.{
  all_fit, with_balance, plus, minus, subtract_by_id, add_by_id,
}
use go_ewallet_backend.Repository.Wallet.Statements.{debited, credited}
use go_ewallet_backend.Repository.Wallet.Transfers.{
  TransferRequestParams, insert_transfer, transfer_row, has_transfer_id, has_transfer_reference,
  has_transfer_key,
}
use go_ewallet_backend.Service.Amount.Bounds.{IsBalance, IsAmount}
use go_ewallet_backend.Service.Books.Rows.{UniqueIds, any-update, update-UniqueIds}
use go_ewallet_backend.Service.Books.Transferred.{recipient_after_debit}

all_fit_of_none :
    (k : ℕ) (f : ℤ → ℤ) (ws : List Wallet)
    → any (has_id k) ws ≡ false
    → all_fit (has_id k) f ws ≡ true
all_fit_of_none k f [] h = refl
all_fit_of_none k f (x ∷ ws) h = ground (arith, all_fit_of_none k f ws)

-- An update of the one row that the id finds passes the range check where that row does.
pub all_fit_of_found :
    (k : ℕ) (f : ℤ → ℤ) {w : Wallet} (ws : List Wallet)
    → UniqueIds ws
    → find? (has_id k) ws ≡ some w
    → fits_int64 (f w.balance) ≡ true
    → all_fit (has_id k) f ws ≡ true
all_fit_of_found k f [] u h fits = refl
all_fit_of_found k f {w} (x ∷ ws) u h fits =
    ground (arith, all_fit_of_none k f ws, all_fit_of_found k f {w = w} ws u.1, ==_iff x.id k)

-- What `transfers` must not hold yet, and what the new row refers to.
pub record Admits (params : TransferRequestParams) (d : Db) (s : Sequences) : Type 0 where
  pub named : str_eq params.reference_id "" ≡ false
  pub new_id : any (has_transfer_id (suc s.transfers)) d.transfers ≡ false
  pub new_reference : any (has_transfer_reference params.reference_id) d.transfers ≡ false
  pub new_key : any (has_transfer_key params.idempotency_key_id) d.transfers ≡ false
  pub known_key : dangling_key params.idempotency_key_id d.idempotency_keys ≡ false
  pub known_user : dangling_user params.created_by_user_id d.users ≡ false

-- Two wallets, of which the first holds the amount and the second has room for it.
pub record Affords (from to : ℕ) (amount : ℤ) (sender recipient : Wallet) (ws : List Wallet)
    : Type 0 where
  pub distinct : (from == to) ≡ false
  pub sent_by : find? (has_id from) ws ≡ some sender
  pub sent_to : find? (has_id to) ws ≡ some recipient
  pub unique : UniqueIds ws
  pub held : IsBalance sender.balance
  pub receives : IsBalance recipient.balance
  pub positive : IsAmount amount
  pub covered : amount ≤ℤ sender.balance
  pub room : recipient.balance +ℤ amount ≤ℤ max_int64

abbrev pub next_transfer : Sequences → Sequences
next_transfer s = record s { transfers = suc s.transfers }

pub insert_transfer-runs :
    (params : TransferRequestParams) (sb sa rb ra : ℤ) (t : ℕ) (d : Db) (s : Sequences)
    → Admits params d s
    → leb_ℤ params.amount (pos 0) ≡ false
    → any (has_id params.from_wallet_id) d.wallets ≡ true
    → any (has_id params.to_wallet_id) d.wallets ≡ true
    → insert_transfer params sb sa rb ra t d s ≡ (
      ok (
        (suc s.transfers, t),
        record d {
          transfers = d.transfers ++ transfer_row (suc s.transfers) t params sb sa rb ra ∷ [];
        },
      ),
      next_transfer s,
    )
unfolding insert_transfer
insert_transfer-runs params sb sa rb ra t d s new positive from to = ground (
  arith, positive, from, to, new.new_id, new.new_reference, new.new_key, new.known_key,
  new.known_user,
)

module _ (id : ℕ) (amount : ℤ) (t : ℕ) (d : Db) (s : Sequences) where
  pub subtract_by_id-runs :
      all_fit (has_id id) (minus amount) d.wallets ≡ true
      → subtract_by_id id amount t d s ≡ (
        ok (count_where (has_id id) d.wallets, record d { wallets = debited id amount d.wallets }),
        s,
      )
  unfolding subtract_by_id
  subtract_by_id-runs fits = ground (arith, fits)

  pub add_by_id-runs :
      all_fit (has_id id) (plus amount) d.wallets ≡ true
      → add_by_id id amount t d s ≡ (
        ok (count_where (has_id id) d.wallets, record d { wallets = credited id amount d.wallets }),
        s,
      )
  unfolding add_by_id
  add_by_id-runs fits = ground (arith, fits)

debit_in_range : (b a : ℤ) → IsBalance b → IsAmount a → a ≤ℤ b → fits_int64 (b -ℤ a) ≡ true
unfolding ◌-ℤ◌
debit_in_range b a h p c = ground arith

credit_in_range :
    (b a : ℤ) → IsBalance b → IsAmount a → b +ℤ a ≤ℤ max_int64 → fits_int64 (b +ℤ a) ≡ true
unfolding ◌+ℤ◌
credit_in_range b a h p c = ground arith

module _ {from to : ℕ} {amount : ℤ} {sender recipient : Wallet} {ws : List Wallet}
    (a : Affords from to amount sender recipient ws) where
  pub debit_fits : all_fit (has_id from) (minus amount) ws ≡ true
  debit_fits =
      all_fit_of_found from (minus amount) ws a.unique a.sent_by
        (debit_in_range sender.balance amount a.held a.positive a.covered)

  pub credit_fits : all_fit (has_id to) (plus amount) (debited from amount ws) ≡ true
  credit_fits =
      all_fit_of_found to (plus amount) (debited from amount ws)
        (update-UniqueIds (with_balance (minus amount)) (λ w. refl) from ws a.unique)
        (recipient_after_debit ws from to amount sender recipient a.distinct a.sent_to)
        (credit_in_range recipient.balance amount a.receives a.positive a.room)

  pub still_there :
      (k : ℕ)
      → any (has_id k) ws ≡ true
      → any (has_id k) (credited to amount (debited from amount ws)) ≡ true
  still_there k h =
      any-update (with_balance (plus amount)) (λ w. refl) k to (debited from amount ws)
      ∙ any-update (with_balance (minus amount)) (λ w. refl) k from ws
      ∙ h
