-- ===== src/Service/Books/Transferred.antt =====
-- Wallets and ledger after the two movements of a transfer.
use go_ewallet_backend.Prelude.{ℕ, ◌≡◌, refl, ap, false, some, List, [], ◌∷◌, ◌++◌, ◌==◌, arith}
use go_ewallet_backend.Prelude.Int.{
  ℤ, pos, pos_part, neg_part, ◌+ℤ◌, ◌-ℤ◌, ltb_ℤ, int_laws, leb_ℤ→gt, ltb_ℤ→ge,
}
use go_ewallet_backend.Prelude.Int64.{add64}
use go_ewallet_backend.Prelude.Table.{find?}
use go_ewallet_backend.Model.{Wallet, LedgerRow, has_id, debit, credit}
use go_ewallet_backend.Repository.Column.{not_positive}
use go_ewallet_backend.Repository.Wallet.Balances.{with_balance, minus, plus}
use go_ewallet_backend.Repository.Wallet.Statements.{debited, credited}
use go_ewallet_backend.Service.Amount.Bounds.{IsBalance, IsAmount, add64_guard}
use go_ewallet_backend.Service.Books.{Agree}
use go_ewallet_backend.Service.Books.Rows.{
  find?-update, total_balance, total_balance-update, update-UniqueIds,
}
use go_ewallet_backend.Service.Books.Paid.{Agree-move}

-- The sums that the guards of a transfer allow.
pub record Allowed (sender recipient amount : ℤ) : Type 0 where
  pub covered : ltb_ℤ sender amount ≡ false
  pub positive : not_positive amount ≡ false
  pub no_overflow : ltb_ℤ (add64 recipient amount) recipient ≡ false

module _ {s r a : ℤ} (ok : Allowed s r a) (hs : IsBalance s) (hr : IsBalance r) where
  pub Allowed-IsAmount : IsAmount a
  Allowed-IsAmount =
      (omega (arith, leb_ℤ→gt a (pos 0) ok.positive), omega (arith, ltb_ℤ→ge s a ok.covered))

  pub Allowed-sender : IsBalance (s -ℤ a)
  Allowed-sender =
      (omega (int_laws, ltb_ℤ→ge s a ok.covered), omega (int_laws, leb_ℤ→gt a (pos 0) ok.positive))

  pub Allowed-recipient : IsBalance (r +ℤ a)
  Allowed-recipient =
      let amount = Allowed-IsAmount in
      (omega int_laws, (add64_guard r a hr amount ok.no_overflow).1)

minus-eq : (b a : ℤ) → b -ℤ a ≡ b +ℤ (pos 0 -ℤ a)
minus-eq b a = omega int_laws

moves_cancel : (x y t s r a : ℤ) → x +ℤ s ≡ t +ℤ (s -ℤ a) → y +ℤ r ≡ x +ℤ (r +ℤ a) → y ≡ t
moves_cancel x y t s r a p q =
    omega (int_laws, ap pos_part p, ap neg_part p, ap pos_part q, ap neg_part q)

module _ (ws : List Wallet) (from to : ℕ) (a : ℤ) (sender recipient : Wallet) where
  -- The recipient's row is untouched by the debit.
  pub recipient_after_debit :
      (from == to) ≡ false
      → find? (has_id to) ws ≡ some recipient
      → find? (has_id to) (debited from a ws) ≡ some recipient
  recipient_after_debit distinct found =
      ground (arith, find?-update (with_balance (minus a)) (λ w. refl) to from ws)

  pub Agree-transfer :
      (es : List LedgerRow) (e₁ e₂ : LedgerRow)
      → (e₁.wallet_id ≡ from) × (e₁.direction ≡ debit) × (e₁.amount ≡ a)
      → (e₂.wallet_id ≡ to) × (e₂.direction ≡ credit) × (e₂.amount ≡ a)
      → Agree ws es
      → (from == to) ≡ false
      → find? (has_id from) ws ≡ some sender
      → find? (has_id to) ws ≡ some recipient
      → Allowed sender.balance recipient.balance a
      → Agree (credited to a (debited from a ws)) ((es ++ e₁ ∷ []) ++ e₂ ∷ [])
  Agree-transfer es e₁ e₂ (w₁, d₁, a₁) (w₂, d₂, a₂) books distinct sent_by sent_to ok =
      let hs = books.in_range from sender sent_by in
      let hr = books.in_range to recipient sent_to in
      let first : Agree (debited from a ws) (es ++ e₁ ∷ []) = rw (← w₁) (
        Agree-move ws es (with_balance (minus a)) (λ w. refl) e₁
          (λ w. rw (d₁, a₁) (minus-eq w.balance a)) sender books (rw w₁ sent_by)
          (Allowed-sender ok hs hr)) in
      rw (← w₂) (
        Agree-move (debited from a ws) (es ++ e₁ ∷ []) (with_balance (plus a)) (λ w. refl) e₂
          (λ w. rw (d₂, a₂) refl) recipient first (rw w₂ (recipient_after_debit distinct sent_to))
          (Allowed-recipient ok hs hr))

  -- No money appears or vanishes.
  pub total_balance-transfer :
      {es : List LedgerRow}
      → Agree ws es
      → (from == to) ≡ false
      → find? (has_id from) ws ≡ some sender
      → find? (has_id to) ws ≡ some recipient
      → total_balance (credited to a (debited from a ws)) ≡ total_balance ws
  total_balance-transfer books distinct sent_by sent_to =
      moves_cancel (total_balance (debited from a ws)) _ (total_balance ws) sender.balance
        recipient.balance a
        (total_balance-update (with_balance (minus a)) from {w = sender} ws books.unique sent_by)
        (total_balance-update (with_balance (plus a)) to {w = recipient} (debited from a ws)
          (update-UniqueIds (with_balance (minus a)) (λ w. refl) from ws books.unique)
          (recipient_after_debit distinct sent_to))
