-- ===== src/Repository/Wallet/Made.antt =====
-- What a transfer that returns has done to the tables of its transaction.
use go_ewallet_backend.Prelude.{
  ℕ, ◌≡◌, sym, ◌∙◌, ap, true, false, ◌||◌, some, List, [], ◌∷◌, ◌++◌, ◌==◌, arith, ltb, String,
  if◌then◌else◌,
}
use go_ewallet_backend.Prelude.Int.{ℤ, ltb_ℤ}
use go_ewallet_backend.Prelude.Int64.{add64, sub64}
use go_ewallet_backend.Prelude.Table.{find?, any, select_where, find?-holds}
use go_ewallet_backend.Model.{Db, Wallet, TransferResponse, has_id, success}
use go_ewallet_backend.Runtime.{Env, World, active, ok}
use go_ewallet_backend.Runtime.Inversion.{
  raise_if-then, or_raise-then, gets-then, in_tx-then, pure-ok,
}
use go_ewallet_backend.Repository.Column.{not_positive}
use go_ewallet_backend.Repository.Wallet.Locked.{find?-locked}
use go_ewallet_backend.Repository.Wallet.Transfers.{
  TransferRequestParams, apply_transfer, reference_or_legacy, transfer_with_metadata_tx,
  transfer_row, has_transfer_key,
}
use go_ewallet_backend.Repository.Wallet.Statements.{
  select_locked-done, debited, credited, subtract_by_id-done, add_by_id-done, insert_transfer-done,
}

abbrev pub response : ℕ → ℕ → TransferRequestParams → ℤ → ℤ → TransferResponse
response id t params sb rb = record {
  id = id;
  from_wallet_id = params.from_wallet_id;
  to_wallet_id = params.to_wallet_id;
  amount = params.amount;
  reference_id = params.reference_id;
  status = success;
  description = params.description;
  sender_balance_before = sb;
  sender_balance_after = sub64 sb params.amount;
  recipient_balance_before = rb;
  recipient_balance_after = add64 rb params.amount;
  created_at = t;
}

-- The parameters of the row: the locked wallets' ids, and the reference that may be made up.
abbrev pub from_to : TransferRequestParams → Wallet → Wallet → String → TransferRequestParams
from_to params sender recipient reference = record params {
  from_wallet_id = sender.id;
  to_wallet_id = recipient.id;
  reference_id = reference;
}

-- The tables after a transfer of `params` between wallets that held `sb` and `rb`.
abbrev pub paid : ℕ → ℕ → Db → TransferRequestParams → ℤ → ℤ → Db
paid id t d params sb rb = record d {
  wallets =
      credited params.to_wallet_id params.amount
        (debited params.from_wallet_id params.amount d.wallets);
  transfers =
      d.transfers
      ++ transfer_row id t params sb (sub64 sb params.amount) rb (add64 rb params.amount) ∷ [];
}

-- The rows that a lookup among the locked ones finds are the table's.
found_in_table :
    (k a b : ℕ) (ws locked : List Wallet) {x : Wallet}
    → locked ≡ select_where (has_id a) ws ++ select_where (has_id b) ws
    → ((k == a) || (k == b)) ≡ true
    → find? (has_id k) locked ≡ some x
    → (find? (has_id k) ws ≡ some x) × (x.id ≡ k)
found_in_table k a b ws locked {x} e among h =
    let found : find? (has_id k) ws ≡ some x =
      sym (find?-locked k a b ws among) ∙ ap (find? (has_id k)) (sym e) ∙ h in
    (found, ground (arith, find?-holds (has_id k) {x = x} ws found))

-- What the writes have done, for the rows of the two wallets.
record Applied (params : TransferRequestParams) (t : ℕ) (d : Db) (sender recipient : Wallet)
    (r : TransferResponse) (w' : World) : Type 0 where
  reference : String
  applied_positive : not_positive params.amount ≡ false
  applied_key : any (has_transfer_key params.idempotency_key_id) d.transfers ≡ false
  applied_returned :
      r
      ≡ response r.id t (from_to params sender recipient reference) sender.balance recipient.balance
  applied_left :
      w'.tx
      ≡ active t (
          paid r.id t d
            (from_to params sender recipient reference)
            sender.balance
            recipient.balance)

module _ (env : Env) (params : TransferRequestParams) (sender recipient : Wallet) (t : ℕ) (d : Db)
    {r : TransferResponse} (w : World) {w' : World} where
  apply_transfer-Applied :
      w.tx ≡ active t d
      → apply_transfer env params sender recipient w ≡ (ok r, w')
      → Applied params t d sender recipient r w'
  unfolding apply_transfer
  apply_transfer-Applied opened h0 =
      let (n1, w1, ran1, h1) = in_tx-then env _ _ t d opened h0 in
      let (n2, w2, ran2, h2) = in_tx-then env _ _ t ran1.done ran1.left h1 in
      let (ids, w3, ran3, h3) = in_tx-then env _ _ t ran2.done ran2.left (gets-then _ _ h2) in
      let (e1, _) = subtract_by_id-done _ _ ran1 in
      let (e2, _) = add_by_id-done _ _ ran2 in
      let (time, e3, positive, key) = insert_transfer-done _ _ _ _ _ ran3 in
      let (er, ew) = pure-ok h3 in
      record {
        reference = reference_or_legacy env params.reference_id w2;
        applied_positive = positive;
        applied_key = cc;
        applied_returned = cc;
        applied_left = cc;
      }

abbrev pub with_reference : TransferRequestParams → String → TransferRequestParams
with_reference params reference = record params { reference_id = reference }

-- A transfer that returned, in a transaction whose tables were `d`; `w'` is the world it leaves.
pub record Made (params : TransferRequestParams) (t : ℕ) (d : Db) (r : TransferResponse)
    (w' : World) : Type 0 where
  pub sender : Wallet
  pub recipient : Wallet
  pub reference : String
  pub distinct : (params.from_wallet_id == params.to_wallet_id) ≡ false
  pub sent_by : find? (has_id params.from_wallet_id) d.wallets ≡ some sender
  pub sent_to : find? (has_id params.to_wallet_id) d.wallets ≡ some recipient
  pub covered : ltb_ℤ sender.balance params.amount ≡ false
  pub no_overflow : ltb_ℤ (add64 recipient.balance params.amount) recipient.balance ≡ false
  pub positive : not_positive params.amount ≡ false
  pub key_unused : any (has_transfer_key params.idempotency_key_id) d.transfers ≡ false
  pub returned :
      r ≡ response r.id t (with_reference params reference) sender.balance recipient.balance
  pub left :
      w'.tx
      ≡ active t (paid r.id t d (with_reference params reference) sender.balance recipient.balance)

-- The two ids in order are the two ids.
pub either_id :
    (a b : ℕ)
    → let first = if ltb b a then b else a in
      let second = if ltb b a then a else b in
      (((a == first) || (a == second)) ≡ true) × (((b == first) || (b == second)) ≡ true)
either_id a b = ground arith

Applied-Made :
    (params : TransferRequestParams) (t : ℕ) (d : Db) (sender recipient : Wallet)
    {r : TransferResponse} {w' : World}
    → (params.from_wallet_id == params.to_wallet_id) ≡ false
    → (find? (has_id params.from_wallet_id) d.wallets ≡ some sender)
      × (sender.id ≡ params.from_wallet_id)
    → (find? (has_id params.to_wallet_id) d.wallets ≡ some recipient)
      × (recipient.id ≡ params.to_wallet_id)
    → ltb_ℤ sender.balance params.amount ≡ false
    → ltb_ℤ (add64 recipient.balance params.amount) recipient.balance ≡ false
    → Applied params t d sender recipient r w'
    → Made params t d r w'
Applied-Made params t d sender recipient distinct (sent_by, e1) (sent_to, e2) covered no_overflow
      a =
    record {
      sender = sender;
      recipient = recipient;
      reference = a.reference;
      distinct = distinct;
      sent_by = sent_by;
      sent_to = sent_to;
      covered = covered;
      no_overflow = no_overflow;
      positive = a.applied_positive;
      key_unused = a.applied_key;
      returned = cc (a.applied_returned, e1, e2);
      left = cc (a.applied_left, e1, e2);
    }

module _ (env : Env) (params : TransferRequestParams) (t : ℕ) (d : Db) {r : TransferResponse}
    (w : World) {w' : World} where
  pub transfer_with_metadata_tx-Made :
      w.tx ≡ active t d → transfer_with_metadata_tx env params w ≡ (ok r, w') → Made params t d r w'
  unfolding transfer_with_metadata_tx
  transfer_with_metadata_tx-Made opened h0 =
      let (distinct, h1) = raise_if-then _ _ _ h0 in
      let (locked, w1, ran1, h2) = in_tx-then env _ _ t d opened h1 in
      let (same, rows) = select_locked-done _ _ ran1 in
      let (sender, found1, h3) = or_raise-then _ _ _ h2 in
      let (recipient, found2, h4) = or_raise-then _ _ _ h3 in
      let (covered, h5) = raise_if-then _ _ _ h4 in
      let (no_overflow, h6) = raise_if-then _ _ _ h5 in
      let (one, two) = either_id params.from_wallet_id params.to_wallet_id in
      Applied-Made params t d sender recipient distinct
        (found_in_table params.from_wallet_id _ _ d.wallets locked rows one found1)
        (found_in_table params.to_wallet_id _ _ d.wallets locked rows two found2) covered
        no_overflow
        (apply_transfer-Applied env params sender recipient t d w1 (ran1.left ∙ ap (active t) same)
          h6)
