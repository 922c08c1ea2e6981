-- ===== src/Service/Wallet/Transfer/Afforded.antt =====
-- internal/repository/wallet.go: `TransferWithMetadataTx` returns where the wallets can afford it.
use go_ewallet_backend.Prelude.{ℕ, suc, ◌≡◌, refl, sym, ◌∙◌, ap, subst, false, arith, List, ◌++◌}
use go_ewallet_backend.Prelude.Int.{ℤ, pos, leb_ℤ, ltb_ℤ, ◌≤ℤ◌, ◌+ℤ◌}
use go_ewallet_backend.Prelude.Int64.{add64, max_int64}
use go_ewallet_backend.Prelude.Table.{select_where, find?-holds, any_of_find?}
use go_ewallet_backend.Model.{Db, Sequences, Wallet, TransferResponse, has_id}
use go_ewallet_backend.Runtime.{Env, World, ok, insufficient_balance, recipient_overflow}
use go_ewallet_backend.Runtime.Reaching.{
  Reaches, Inside, Returns, IsReliable, raise_if-past, or_raise-past, gets-past, in_tx-past,
  pure-Reaches,
}
use go_ewallet_backend.Repository.Wallet.Locked.{find?-locked}
use go_ewallet_backend.Repository.Wallet.Made.{response, paid, from_to, either_id}
use go_ewallet_backend.Repository.Wallet.Transfers.{
  TransferRequestParams, transfer_with_metadata_tx, apply_transfer, select_locked,
}
use go_ewallet_backend.Service.Amount.Bounds.{IsBalance, IsAmount, add64-eq}
use go_ewallet_backend.Service.Wallet.Transfer.Affordable.{
  Admits, Affords, next_transfer, insert_transfer-runs, subtract_by_id-runs, add_by_id-runs,
  debit_fits, credit_fits, still_there,
}

-- What a transfer of these parameters returns and leaves.
abbrev pub Paid :
    TransferRequestParams → ℤ → ℤ → ℕ → Db → Sequences → TransferResponse → World → Type 0
Paid params sb rb t d s =
    Returns (response (suc s.transfers) t params sb rb) t (paid (suc s.transfers) t d params sb rb)
      (next_transfer s)

from_to-Admits :
    (params : TransferRequestParams) (sender recipient : Wallet) (ws : List Wallet) {d : Db}
    {s : Sequences}
    → Admits params d s
    → Admits (from_to params sender recipient params.reference_id) (record d { wallets = ws }) s
from_to-Admits params sender recipient ws new = record {
  named = new.named;
  new_id = new.new_id;
  new_reference = new.new_reference;
  new_key = new.new_key;
  known_key = new.known_key;
  known_user = new.known_user;
}

is_covered : (b a : ℤ) → a ≤ℤ b → ltb_ℤ b a ≡ false
is_covered b a h = ground arith

grows : (b a : ℤ) → IsAmount a → ltb_ℤ (b +ℤ a) b ≡ false
unfolding ◌+ℤ◌
grows b a ha = ground arith

has_room : (b a : ℤ) → IsBalance b → IsAmount a → b +ℤ a ≤ℤ max_int64 → ltb_ℤ (add64 b a) b ≡ false
has_room b a hb ha room = rw (add64-eq b a hb ha room) (grows b a ha)

select_locked-runs :
    (a b t : ℕ) (d : Db) (s : Sequences)
    → select_locked a b t d s
      ≡ (ok (select_where (has_id a) d.wallets ++ select_where (has_id b) d.wallets, d), s)
unfolding select_locked
select_locked-runs a b t d s = refl

pub is_positive : (a : ℤ) → IsAmount a → leb_ℤ a (pos 0) ≡ false
is_positive a h = ground arith

module _ (env : Env) (calm : IsReliable env) (params : TransferRequestParams)
    (sender recipient : Wallet) {t : ℕ} {d : Db} {s : Sequences} {w : World}
    (inside : Inside t d s w) (new : Admits params d s) where
  -- The writes, for the rows of the two wallets.
  apply_transfer-Paid :
      Affords sender.id recipient.id params.amount sender recipient d.wallets
      → Reaches (apply_transfer env params sender recipient) w (
          Paid
            (from_to params sender recipient params.reference_id)
            sender.balance
            recipient.balance
            t
            d
            s)
  unfolding apply_transfer
  apply_transfer-Paid a =
      in_tx-past env calm _ _ inside
        (subtract_by_id-runs sender.id params.amount _ _ _ (debit_fits a))
        (λ w1 i1.
          in_tx-past env calm _ _ i1
            (add_by_id-runs recipient.id params.amount _ _ _ (credit_fits a))
            (λ w2 i2. gets-past _ _ (ground (arith, new.named)) (
              in_tx-past env calm _ _ i2
                (insert_transfer-runs (from_to params sender recipient params.reference_id) _ _ _ _
                  _ _ _ (from_to-Admits params sender recipient _ new)
                  (is_positive params.amount a.positive)
                  (still_there a sender.id (any_of_find? (has_id sender.id) d.wallets a.sent_by))
                  (still_there a recipient.id
                    (any_of_find? (has_id recipient.id) d.wallets a.sent_to)))
                (λ w3 i3. pure-Reaches _ (refl, i3)))))

module _ (params : TransferRequestParams) {sender recipient : Wallet} {ws : List Wallet}
    (a : Affords params.from_wallet_id params.to_wallet_id params.amount sender recipient ws) where
  sender_id : sender.id ≡ params.from_wallet_id
  sender_id = ground (arith, find?-holds (has_id params.from_wallet_id) {x = sender} ws a.sent_by)

  recipient_id : recipient.id ≡ params.to_wallet_id
  recipient_id =
      ground (arith, find?-holds (has_id params.to_wallet_id) {x = recipient} ws a.sent_to)

  ids-Affords : Affords sender.id recipient.id params.amount sender recipient ws
  ids-Affords =
      subst (λ f. Affords f recipient.id params.amount sender recipient ws) (sym sender_id)
        (subst (λ k. Affords params.from_wallet_id k params.amount sender recipient ws)
          (sym recipient_id) a)

  same_params : from_to params sender recipient params.reference_id ≡ params
  same_params =
      ap (λ f. record params { from_wallet_id = f; to_wallet_id = recipient.id }) sender_id
      ∙ ap (λ k. record params { to_wallet_id = k }) recipient_id

module _ (env : Env) (calm : IsReliable env) (params : TransferRequestParams)
    (sender recipient : Wallet) {t : ℕ} {d : Db} {s : Sequences} {w : World}
    (inside : Inside t d s w) (new : Admits params d s) where
  pub transfer_with_metadata_tx-Paid :
      Affords params.from_wallet_id params.to_wallet_id params.amount sender recipient d.wallets
      → Reaches
          (transfer_with_metadata_tx env params)
          w
          (Paid params sender.balance recipient.balance t d s)
  unfolding transfer_with_metadata_tx
  transfer_with_metadata_tx-Paid a =
      let (one, two) = either_id params.from_wallet_id params.to_wallet_id in
      raise_if-past _ _ _ a.distinct (
        in_tx-past env calm _ _ inside (select_locked-runs _ _ t d s) (λ w1 i1.
          or_raise-past _ _ _ (find?-locked params.from_wallet_id _ _ d.wallets one ∙ a.sent_by) (
            or_raise-past _ _ _ (find?-locked params.to_wallet_id _ _ d.wallets two ∙ a.sent_to) (
              raise_if-past _ insufficient_balance _
                (is_covered sender.balance params.amount a.covered)
                (raise_if-past _ recipient_overflow _
                  (has_room recipient.balance params.amount a.receives a.positive a.room)
                  (subst
                    (λ p.
                      Reaches (apply_transfer env params sender recipient) w1
                        (Paid p sender.balance recipient.balance t d s))
                    (same_params params a)
                    (apply_transfer-Paid env calm params sender recipient i1 new
                      (ids-Affords params a))))))))
