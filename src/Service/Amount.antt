-- ===== src/Service/Amount.antt =====
-- internal/service/wallet.go: `validateAndApplyTopUp` and `validateAndApplyTransfer`. The balances
-- that come back beside an error are the ones that went in, and are not part of the result.
pub mod Bounds
pub mod Exact
use go_ewallet_backend.Prelude.{Bool, true, false, if◌then◌else◌}
use go_ewallet_backend.Prelude.Int.{ℤ, pos, ltb_ℤ, leb_ℤ}
use go_ewallet_backend.Prelude.Int64.{add64, sub64}
use go_ewallet_backend.Runtime.{
  Result, ok, err, amount_not_positive, balance_overflow, insufficient_balance, recipient_overflow,
}

unfoldable pub validate_and_apply_top_up : ℤ → ℤ → Result ℤ
validate_and_apply_top_up current_balance amount =
    if leb_ℤ amount (pos 0)
    then err amount_not_positive
    else if ltb_ℤ (add64 current_balance amount) current_balance
    then err balance_overflow
    else ok (add64 current_balance amount)

unfoldable pub validate_and_apply_transfer : ℤ → ℤ → ℤ → Result (ℤ × ℤ)
validate_and_apply_transfer sender_balance recipient_balance amount =
    if leb_ℤ amount (pos 0)
    then err amount_not_positive
    else if ltb_ℤ (sub64 sender_balance amount) (pos 0)
    then err insufficient_balance
    else if ltb_ℤ (add64 recipient_balance amount) recipient_balance
    then err recipient_overflow
    else ok (sub64 sender_balance amount, add64 recipient_balance amount)
