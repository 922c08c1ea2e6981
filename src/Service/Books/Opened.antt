-- ===== src/Service/Books/Opened.antt =====
-- Wallets and ledger after a wallet has been added.
use go_ewallet_backend.Prelude.{
  ℕ, ◌≡◌, refl, sym, ◌∙◌, ap, false, some, List, [], ◌∷◌, ◌++◌, arith, ==_iff, Option-cases, inl,
  inr, ◌⊎◌,
}
use go_ewallet_backend.Prelude.Int.{ℤ, pos, ◌+ℤ◌, +ℤ-zero}
use go_ewallet_backend.Prelude.Table.{find?, any, find?-append, any-append}
use go_ewallet_backend.Model.{Wallet, LedgerRow, has_id}
use go_ewallet_backend.Service.Books.{Agree}
use go_ewallet_backend.Service.Books.Rows.{UniqueIds, total_balance}

append-UniqueIds :
    (ws : List Wallet) (w : Wallet)
    → any (has_id w.id) ws ≡ false
    → UniqueIds ws
    → UniqueIds (ws ++ w ∷ [])
append-UniqueIds [] w h u = (refl, tt)
append-UniqueIds (x ∷ ws) w h u =
    ground (arith, append-UniqueIds ws w, any-append (has_id x.id) ws w, ==_iff x.id w.id)

pub total_balance-append :
    (ws : List Wallet) (w : Wallet)
    → w.balance ≡ pos 0
    → total_balance (ws ++ w ∷ []) ≡ total_balance ws
total_balance-append [] w h = rw h (+ℤ-zero (pos 0))
total_balance-append (x ∷ ws) w h = ap (λ (s : ℤ). x.balance +ℤ s) (total_balance-append ws w h)

module _ (ws : List Wallet) (es : List LedgerRow) (w₀ : Wallet)
    (free : any (has_id w₀.id) ws ≡ false) (empty : w₀.balance ≡ pos 0) where
  -- A row that is found is an old one, or the new one.
  old_or_new :
      (k : ℕ) (w : Wallet)
      → find? (has_id k) (ws ++ w₀ ∷ []) ≡ some w
      → (find? (has_id k) ws ≡ some w) ⊎ ((w ≡ w₀) × (w₀.id ≡ k) × (any (has_id k) ws ≡ false))
  old_or_new k w h = elim (Option-cases (find? (has_id k) ws)) [
    | inl absent ↦ inr (
      ground (arith, find?-append (has_id k) ws w₀),
      ground (arith, find?-append (has_id k) ws w₀),
      ground (arith, find?-append (has_id k) ws w₀, ==_iff w₀.id k),
    )
    | inr (x, found) ↦ inl (ground (arith, find?-append (has_id k) ws w₀))
  ]

  pub Agree-open : Agree ws es → Agree (ws ++ w₀ ∷ []) es
  Agree-open books = record {
    unique = append-UniqueIds ws w₀ free books.unique;
    in_range = λ k w h. elim (old_or_new k w h) [
      | inl old ↦ books.in_range k w old
      | inr (same, _, _) ↦ ground arith
    ];
    explained = λ k w h. elim (old_or_new k w h) [
      | inl old ↦ books.explained k w old
      | inr (same, _, absent) ↦
          ap (λ (x : Wallet). x.balance) same ∙ empty ∙ sym (books.unused k absent)
    ];
    unused = λ k absent. books.unused k (ground (arith, any-append (has_id k) ws w₀));
  }
