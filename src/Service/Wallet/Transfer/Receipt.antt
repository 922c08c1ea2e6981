-- ===== src/Service/Wallet/Transfer/Receipt.antt =====
-- What a transfer that is carried out does to each wallet, and what its response says.
use go_ewallet_backend.Prelude.{
  ℕ, ◌≡◌, refl, sym, ◌∙◌, ap, false, some, List, ◌==◌, arith, String, ◌⊎◌, inl, inr, ◌||◌,
}
use go_ewallet_backend.Prelude.Int.{ℤ, ◌+ℤ◌, ◌-ℤ◌, ◌≤ℤ◌, ltb_ℤ→ge}
use go_ewallet_backend.Prelude.Table.{find?}
use go_ewallet_backend.Model.{Db, Wallet, TransferRequest, TransferResponse, has_user, has_id}
use go_ewallet_backend.Runtime.{Env, World, ok}
use go_ewallet_backend.Repository.Wallet.Balances.{with_balance, plus, minus}
use go_ewallet_backend.Repository.Wallet.Statements.{debited, credited}
use go_ewallet_backend.Service.Amount.Bounds.{IsAmount, add64_guard, sub64-eq}
use go_ewallet_backend.Service.Books.{IsConsistent}
use go_ewallet_backend.Service.Books.Rows.{find?-update, find?-row_id}
use go_ewallet_backend.Service.Books.Transferred.{Allowed-IsAmount, recipient_after_debit}
use go_ewallet_backend.Service.Wallet.Transfer.{transfer_with_idempotency}
use go_ewallet_backend.Service.Wallet.Transfer.Books.{Transferred-wallets, Transferred-Allowed}
use go_ewallet_backend.Service.Wallet.Transfer.Outcome.{Transferred, transfer-cases}

module _ (ws : List Wallet) (from to : ℕ) (a : ℤ) where
  -- A third wallet is left alone.
  find?-third :
      (k : ℕ)
      → (k == from || k == to) ≡ false
      → find? (has_id k) (credited to a (debited from a ws)) ≡ find? (has_id k) ws
  find?-third k other = ground (
    arith,
    find?-update (with_balance (plus a)) (λ w. refl) k to (debited from a ws),
    find?-update (with_balance (minus a)) (λ w. refl) k from ws,
  )

  find?-sender :
      (w : Wallet)
      → (from == to) ≡ false
      → find? (has_id from) ws ≡ some w
      → find? (has_id from) (credited to a (debited from a ws)) ≡ some (with_balance (minus a) w)
  find?-sender w distinct found = ground (
    arith,
    find?-update (with_balance (plus a)) (λ w. refl) from to (debited from a ws),
    find?-update (with_balance (minus a)) (λ w. refl) from from ws,
  )

  find?-recipient :
      (w : Wallet)
      → find? (has_id to) (debited from a ws) ≡ some w
      → find? (has_id to) (credited to a (debited from a ws)) ≡ some (with_balance (plus a) w)
  find?-recipient w found =
      ground (arith, find?-update (with_balance (plus a)) (λ w. refl) to to (debited from a ws))

-- The amount has gone from the user's wallet to the recipient's, exactly, and the response says so.
pub record Receipt (user_id : ℕ) (req : TransferRequest) (d : Db) (r : TransferResponse) (c : Db)
    : Type 0 where
  pub sender : Wallet
  pub recipient : Wallet
  pub sent_by : find? (has_user user_id) d.wallets ≡ some sender
  pub sent_to : find? (has_id req.to_wallet_id) d.wallets ≡ some recipient
  pub distinct : (sender.id == req.to_wallet_id) ≡ false
  pub amount : IsAmount req.amount
  pub covered : req.amount ≤ℤ sender.balance
  pub sender_now :
      find? (has_id sender.id) c.wallets
      ≡ some (record sender { balance = sender.balance -ℤ req.amount })
  pub recipient_now :
      find? (has_id req.to_wallet_id) c.wallets
      ≡ some (record recipient { balance = recipient.balance +ℤ req.amount })
  pub others :
      (k : ℕ)
      → (k == sender.id || k == req.to_wallet_id) ≡ false
      → find? (has_id k) c.wallets ≡ find? (has_id k) d.wallets
  pub says :
      (r.sender_balance_before ≡ sender.balance)
      × (r.sender_balance_after ≡ sender.balance -ℤ req.amount)
      × (r.recipient_balance_before ≡ recipient.balance)
      × (r.recipient_balance_after ≡ recipient.balance +ℤ req.amount)

module _ {user_id : ℕ} {key : String} {req : TransferRequest} {d : Db} {r : TransferResponse}
    {c : Db} (row : Wallet) (sent_by : find? (has_user user_id) d.wallets ≡ some row)
    (x : Transferred user_id row.id key req d r c) (books : IsConsistent d) where
  -- The wallet that was locked is the one that was read before.
  sender_row : x.made.sender ≡ row
  sender_row =
      some_wallet
        (sym x.made.sent_by ∙ find?-row_id (has_user user_id) d.wallets books.unique sent_by)
    where
      some_wallet : {a b : Wallet} → some a ≡ some b → a ≡ b
      some_wallet h = ground arith

  pub Transferred-Receipt : Receipt user_id req d r c
  Transferred-Receipt =
      let sender = x.made.sender in
      let recipient = x.made.recipient in
      let hs = books.in_range row.id sender x.made.sent_by in
      let hr = books.in_range req.to_wallet_id recipient x.made.sent_to in
      let amount = Allowed-IsAmount (Transferred-Allowed x) hs hr in
      let ws = Transferred-wallets x in
      let to_sender =
        find?-sender d.wallets row.id req.to_wallet_id req.amount sender x.made.distinct
          x.made.sent_by in
      record {
        sender = row;
        recipient = recipient;
        sent_by = sent_by;
        sent_to = x.made.sent_to;
        distinct = x.made.distinct;
        amount = amount;
        covered = rw (← sender_row) (ltb_ℤ→ge sender.balance req.amount x.made.covered);
        sender_now =
            ap (find? (has_id row.id)) ws
            ∙ to_sender
            ∙ ap (λ (s : Wallet). some (with_balance (minus req.amount) s)) sender_row;
        recipient_now =
            ap (find? (has_id req.to_wallet_id)) ws
            ∙ find?-recipient d.wallets row.id req.to_wallet_id req.amount recipient (
                recipient_after_debit d.wallets row.id req.to_wallet_id req.amount sender recipient
                  x.made.distinct x.made.sent_to);
        others = λ k other.
            ap (find? (has_id k)) ws
            ∙ find?-third d.wallets row.id req.to_wallet_id req.amount k other;
        says = (
          ap (λ (y : TransferResponse). y.sender_balance_before) x.made.returned
              ∙ ap (λ (s : Wallet). s.balance) sender_row,
          ap (λ (y : TransferResponse). y.sender_balance_after) x.made.returned
              ∙ sub64-eq sender.balance req.amount hs amount
              ∙ ap (λ (s : Wallet). s.balance -ℤ req.amount) sender_row,
          ap (λ (y : TransferResponse). y.recipient_balance_before) x.made.returned,
          ap (λ (y : TransferResponse). y.recipient_balance_after) x.made.returned
              ∙ (add64_guard recipient.balance req.amount hr amount x.made.no_overflow).0,
        );
      }

-- A transfer that returns, where the books were in order, has either changed nothing, or moved the
-- amount, all of it and only it, from the user's wallet to the other, which differs from it, and
-- left every further wallet alone; the amount is positive and was covered, and the response states
-- the balances before and after.
pub transfer-pays :
    (env : Env) (user_id : ℕ) (key : String) (req : TransferRequest) (w : World)
    {r : TransferResponse} {w' : World}
    → IsConsistent w.committed
    → transfer_with_idempotency env user_id key req w ≡ (ok r, w')
    → (w'.committed ≡ w.committed) ⊎ Receipt user_id req w.committed r w'.committed
transfer-pays env user_id key req w books h = elim (transfer-cases env user_id key req w h) [
  | inl same ↦ inl same
  | inr (row, sent_by, x) ↦ inr (Transferred-Receipt row sent_by x books)
]
