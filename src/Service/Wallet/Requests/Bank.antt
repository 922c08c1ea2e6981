-- ===== src/Service/Wallet/Requests/Bank.antt =====
-- What the wallet service promises, without tables, transactions, ledger and keys: accounts with an
-- owner and a balance, and the ways in which a request may change them.
use go_ewallet_backend.Prelude.{
  ℕ, String, ◌≡◌, refl, ◌∙◌, ap, true, false, ◌||◌, Option, some, List, [], ◌∷◌, ◌==◌, arith,
  if◌then◌else◌, inl, inr, Bool-cases,
}
use go_ewallet_backend.Prelude.Int.{ℤ, pos, ◌+ℤ◌, ◌-ℤ◌, ◌≤ℤ◌}
use go_ewallet_backend.Prelude.Int64.{max_int64}
use go_ewallet_backend.Prelude.Table.{find?, update_where}
use go_ewallet_backend.Model.{Db, Wallet, TransferRequest, ConfirmTopUpRequest, has_id}
use go_ewallet_backend.Runtime.{Env}
use go_ewallet_backend.Service.Books.Rows.{find?-update}
use go_ewallet_backend.Service.Wallet.Requests.{Request}
use mathlib.Core.Option

-- Who owns the account with this number, and what it holds.
abbrev pub Accounts : Type 0
Accounts = ℕ → Option (ℕ × ℤ)

abbrev pub put : ℕ → ℕ → ℤ → Accounts → Accounts
put k owner balance b j = if j == k then some (owner, balance) else b j

abbrev pub account : Wallet → ℕ × ℤ
account w = (w.user_id, w.balance)

abbrev pub accounts_of : Db → Accounts
accounts_of d k = Option.map account (find? (has_id k) d.wallets)

pub data Step : Request → Accounts → Accounts → Type 0 where
  idle : {r : Request} {b c : Accounts} → ((k : ℕ) → c k ≡ b k) → Step r b c
  -- The user pays out of an account of their own, and what it holds covers the amount.
  moves :
      {user_id : ℕ} {key : String} {req : TransferRequest} {b c : Accounts} (from owner : ℕ)
      (x y : ℤ)
      → (from == req.to_wallet_id) ≡ false
      → pos 1 ≤ℤ req.amount
      → req.amount ≤ℤ x
      → b from ≡ some (user_id, x)
      → b req.to_wallet_id ≡ some (owner, y)
      → ((k : ℕ)
          → c k
            ≡ put req.to_wallet_id owner (y +ℤ req.amount) (put from user_id (x -ℤ req.amount) b) k)
      → Step (Request.send user_id key req) b c
  -- Money comes in, to an account of the user.
  pays_in :
      {user_id : ℕ} {reference key : String} {req : ConfirmTopUpRequest} {b c : Accounts} (k : ℕ)
      (x a : ℤ)
      → pos 1 ≤ℤ a
      → x +ℤ a ≤ℤ max_int64
      → b k ≡ some (user_id, x)
      → ((j : ℕ) → c j ≡ put k user_id (x +ℤ a) b j)
      → Step (Request.confirm_order user_id reference key req) b c

pub data Steps : List (Env × Request) → Accounts → Accounts → Type 0 where
  done : {b : Accounts} → Steps [] b b
  next :
      {env : Env} {r : Request} {rs : List (Env × Request)} {b m c : Accounts}
      → Step r b m
      → Steps rs m c
      → Steps ((env, r) ∷ rs) b c

pub same_account : (k j : ℕ) → (k == j) ≡ true → k ≡ j
same_account k j h = ground arith

-- Two accounts that have changed, and no other.
pub put_both :
    (b c : Accounts) (from to u o : ℕ) (x y : ℤ)
    → c from ≡ some (u, x)
    → c to ≡ some (o, y)
    → ((k : ℕ) → (k == from || k == to) ≡ false → c k ≡ b k)
    → (k : ℕ) → c k ≡ put to o y (put from u x b) k
put_both b c from to u o x y e1 e2 rest k = elim (Bool-cases (k == to)) [
  | inl h ↦ rw h (ap c (same_account k to h) ∙ e2)
  | inr h ↦ elim (Bool-cases (k == from)) [
    | inl g ↦ rw (h, g) (ap c (same_account k from g) ∙ e1)
    | inr g ↦ rw (h, g) (rest k (rw (h, g) refl))
  ]
]

-- One account that has changed, by the update of its row.
pub put_one :
    (ws : List Wallet) (f : Wallet → Wallet) (k : ℕ) {w : Wallet}
    → ((x : Wallet) → (f x).id ≡ x.id)
    → find? (has_id k) ws ≡ some w
    → (j : ℕ)
    → Option.map account (find? (has_id j) (update_where (has_id k) f ws))
      ≡ put k (f w).user_id (f w).balance (λ i. Option.map account (find? (has_id i) ws)) j
put_one ws f k {w} keep found j = elim (Bool-cases (j == k)) [
  | inl h ↦
      ap (Option.map account) (find?-update f keep j k ws)
      ∙ rw h (
          ap (λ i. Option.map account (Option.map f (find? (has_id i) ws))) (same_account j k h)
          ∙ ap (λ o. Option.map account (Option.map f o)) found)
  | inr h ↦ ap (Option.map account) (find?-update f keep j k ws) ∙ rw h refl
]
