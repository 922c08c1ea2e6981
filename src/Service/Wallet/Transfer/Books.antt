-- ===== src/Service/Wallet/Transfer/Books.antt =====
-- internal/service/wallet.go: the books under a transfer.
use go_ewallet_backend.Prelude.{ℕ, ◌≡◌, refl, sym, ◌∙◌, ap, subst, [], ◌∷◌, ◌++◌, String, inl, inr}
use go_ewallet_backend.Model.{Db, TransferRequest, TransferResponse}
use go_ewallet_backend.Runtime.{Env, World, Result, ok, err}
use go_ewallet_backend.Repository.Ledger.{ledger_row}
use go_ewallet_backend.Repository.Wallet.Statements.{debited, credited}
use go_ewallet_backend.Service.Books.{IsConsistent}
use go_ewallet_backend.Service.Books.Rows.{total_balance}
use go_ewallet_backend.Service.Books.Transferred.{Allowed, Agree-transfer, total_balance-transfer}
use go_ewallet_backend.Service.Wallet.Atomicity.{transfer-atomic}
use go_ewallet_backend.Service.Wallet.Transfer.{
  transfer_with_idempotency, debit_entry, credit_entry,
}
use go_ewallet_backend.Service.Wallet.Transfer.Outcome.{Transferred, transfer-cases}

module _ {user_id from_wallet_id : ℕ} {key : String} {req : TransferRequest} {d₀ : Db}
    {r : TransferResponse} {c : Db} (x : Transferred user_id from_wallet_id key req d₀ r c) where
  -- The committed wallets are those before with the amount moved.
  pub Transferred-wallets :
      c.wallets
      ≡ credited req.to_wallet_id req.amount (debited from_wallet_id req.amount d₀.wallets)
  Transferred-wallets = ap (λ (d : Db). d.wallets) x.result

  Transferred-ledger :
      c.ledger_entries
      ≡ (d₀.ledger_entries ++ ledger_row x.debit_id x.time (debit_entry r) ∷ [])
        ++ ledger_row x.credit_id x.time (credit_entry r) ∷ []
  Transferred-ledger = ap (λ (d : Db). d.ledger_entries) x.result

  pub Transferred-orders : c.top_up_orders ≡ d₀.top_up_orders
  Transferred-orders = ap (λ (d : Db). d.top_up_orders) x.result

  pub Transferred-Allowed : Allowed x.made.sender.balance x.made.recipient.balance req.amount
  Transferred-Allowed = record {
    covered = x.made.covered;
    positive = x.made.positive;
    no_overflow = x.made.no_overflow;
  }

  pub Transferred-IsConsistent : IsConsistent d₀ → IsConsistent c
  Transferred-IsConsistent books =
      let from_eq : r.from_wallet_id ≡ from_wallet_id =
        ap (λ (y : TransferResponse). y.from_wallet_id) x.made.returned in
      let to_eq : r.to_wallet_id ≡ req.to_wallet_id =
        ap (λ (y : TransferResponse). y.to_wallet_id) x.made.returned in
      let amount_eq : r.amount ≡ req.amount =
        ap (λ (y : TransferResponse). y.amount) x.made.returned in
      rw (Transferred-wallets, Transferred-ledger)
        (Agree-transfer d₀.wallets from_wallet_id req.to_wallet_id req.amount x.made.sender
          x.made.recipient d₀.ledger_entries (ledger_row x.debit_id x.time (debit_entry r))
          (ledger_row x.credit_id x.time (credit_entry r)) (from_eq, refl, amount_eq)
          (to_eq, refl, amount_eq) books x.made.distinct x.made.sent_by x.made.sent_to
          Transferred-Allowed)

  pub Transferred-total : IsConsistent d₀ → total_balance c.wallets ≡ total_balance d₀.wallets
  Transferred-total books = rw Transferred-wallets (
      total_balance-transfer d₀.wallets from_wallet_id req.to_wallet_id req.amount x.made.sender
        x.made.recipient books x.made.distinct x.made.sent_by x.made.sent_to)

module _ (env : Env) (user_id : ℕ) (key : String) (req : TransferRequest) (w : World) where
  -- To know what a transfer commits it is enough to know what it commits when carried out.
  pub committed-by-transfer :
      (P : Db → Type 0)
      → P w.committed
      → ((from_wallet_id : ℕ) (r : TransferResponse) (c : Db)
          → Transferred user_id from_wallet_id key req w.committed r c
          → P c)
      → (o : Result TransferResponse × World) → transfer_with_idempotency env user_id key req w ≡ o
      → P o.1.committed
  committed-by-transfer P before after (err e, v) h =
      subst P
        (sym (
          ap (λ (y : Result TransferResponse × World). y.1.committed) (sym h)
          ∙ transfer-atomic env w user_id key req
              (ap (λ (y : Result TransferResponse × World). y.0) h)))
        before
  committed-by-transfer P before after (ok r, v) h = elim (transfer-cases env user_id key req w h) [
    | inl same ↦ subst P (sym same) before
    | inr (row, _, x) ↦ after row.id r v.committed x
  ]

  -- Whatever fails, and whether or not the transfer is carried out, it keeps the books: ids unique,
  -- every balance in range and equal to the net of its ledger entries.
  pub transfer-IsConsistent :
      IsConsistent w.committed
      → IsConsistent (transfer_with_idempotency env user_id key req w).1.committed
  transfer-IsConsistent books =
      committed-by-transfer IsConsistent books (λ i r c x. Transferred-IsConsistent x books)
        (transfer_with_idempotency env user_id key req w) refl
