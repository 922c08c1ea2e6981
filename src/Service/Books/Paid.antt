-- ===== src/Service/Books/Paid.antt =====
-- Wallets and ledger after one movement of money, and after the two of a transfer.
use go_ewallet_backend.Prelude.{
  ℕ, ◌≡◌, sym, ◌∙◌, ap, some, List, [], ◌∷◌, ◌++◌, ◌==◌, arith, if◌then◌else◌, ==_iff, Option-cases,
  Bool-cases, inl, inr,
}
use go_ewallet_backend.Prelude.Int.{ℤ, pos, ◌+ℤ◌, +ℤ-zero}
use go_ewallet_backend.Prelude.Table.{find?, update_where, any_of_find?}
use go_ewallet_backend.Model.{Wallet, LedgerRow, has_id}
use go_ewallet_backend.Service.Amount.Bounds.{IsBalance}
use go_ewallet_backend.Service.Books.{Agree}
use go_ewallet_backend.Service.Books.Rows.{find?-update, any-update, update-UniqueIds}
use go_ewallet_backend.Service.Books.Sums.{net-append, movement, movement_for}

-- One row is updated to the balance that one new entry explains.
module _ (ws : List Wallet) (es : List LedgerRow) (f : Wallet → Wallet)
    (keep : (w : Wallet) → (f w).id ≡ w.id) (e : LedgerRow)
    (moves : (w : Wallet) → (f w).balance ≡ w.balance +ℤ movement e.direction e.amount) where
  updated_row :
      (k : ℕ) (w' : Wallet)
      → find? (has_id k) (update_where (has_id e.wallet_id) f ws) ≡ some w'
      → (w : Wallet) × (find? (has_id k) ws ≡ some w) × (w' ≡ (if k == e.wallet_id then f w else w))
  updated_row k w' h = elim (Option-cases (find? (has_id k) ws)) [
    | inl absent ↦ ground (arith, find?-update f keep k e.wallet_id ws)
    | inr (w, found) ↦ (w, found, ground (arith, find?-update f keep k e.wallet_id ws))
  ]

  updated_balance :
      (k : ℕ) (w w' : Wallet)
      → w' ≡ (if k == e.wallet_id then f w else w)
      → w'.balance ≡ w.balance +ℤ movement_for k e
  updated_balance k w w' h = elim (Bool-cases (k == e.wallet_id)) [
    | inl same ↦ ground (arith, moves w)
    | inr other ↦ ground (arith, +ℤ-zero w.balance)
  ]

  -- A movement onto a wallet that is there, and stays in range, keeps wallets and ledger in step.
  pub Agree-move :
      (w₀ : Wallet)
      → Agree ws es
      → find? (has_id e.wallet_id) ws ≡ some w₀
      → IsBalance (f w₀).balance
      → Agree (update_where (has_id e.wallet_id) f ws) (es ++ e ∷ [])
  Agree-move w₀ books found range = record {
    unique = update-UniqueIds f keep e.wallet_id ws books.unique;
    in_range = λ k w' h.
        let (w, was, now) = updated_row k w' h in
        elim (Bool-cases (k == e.wallet_id)) [
          | inl same ↦ ground arith
          | inr other ↦ ground (arith, books.in_range k w was)
        ];
    explained = λ k w' h.
        let (w, was, now) = updated_row k w' h in
        updated_balance k w w' now
        ∙ ap (λ (b : ℤ). b +ℤ movement_for k e) (books.explained k w was)
        ∙ sym (net-append k es e);
    unused = λ k absent. ground (
      arith,
      net-append k es e,
      any-update f keep k e.wallet_id ws,
      books.unused k,
      any_of_find? (has_id e.wallet_id) {x = w₀} ws found,
      ==_iff k e.wallet_id,
      +ℤ-zero (pos 0),
    );
  }
