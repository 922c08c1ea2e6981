-- ===== src/Service/Books/Sums.antt =====
-- What the ledger says of each wallet.
use go_ewallet_backend.Prelude.{ℕ, ◌≡◌, List, [], ◌∷◌, ◌++◌, ◌==◌, if◌then◌else◌}
use go_ewallet_backend.Prelude.Int.{ℤ, pos, ◌+ℤ◌, ◌-ℤ◌, int_laws}
use go_ewallet_backend.Model.{Direction, LedgerRow, debit, credit}

-- What an entry adds to its wallet.
abbrev pub movement : Direction → ℤ → ℤ
movement debit amount = pos 0 -ℤ amount
movement credit amount = amount

abbrev pub movement_for : ℕ → LedgerRow → ℤ
movement_for k e = if e.wallet_id == k then movement e.direction e.amount else pos 0

-- The credits of a wallet less its debits.
abbrev pub net : ℕ → List LedgerRow → ℤ
net k [] = pos 0
net k (e ∷ es) = movement_for k e +ℤ net k es

pub net-append :
    (k : ℕ) (es : List LedgerRow) (e : LedgerRow)
    → net k (es ++ e ∷ []) ≡ net k es +ℤ movement_for k e
net-append k [] e = omega int_laws
net-append k (x ∷ es) e = rw (net-append k es e) (omega int_laws)
