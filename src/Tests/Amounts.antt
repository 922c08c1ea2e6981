-- ===== src/Tests/Amounts.antt =====
-- The validation of amounts at the ends of the int64 range.
use go_ewallet_backend.Prelude.{◌≡◌, refl, arith}
use go_ewallet_backend.Prelude.Int.{pos, ◌+ℤ◌, ◌-ℤ◌}
use go_ewallet_backend.Prelude.Int64.{max_int64, add64, sub64, wrap}
use go_ewallet_backend.Runtime.{err, balance_overflow, insufficient_balance}
use go_ewallet_backend.Service.Amount.{validate_and_apply_top_up, validate_and_apply_transfer}
use go_ewallet_backend.Service.Amount.Exact.{
  exact_top_up, exact_transfer, validate_and_apply_top_up-exact, validate_and_apply_transfer-exact,
}

full_wallet : validate_and_apply_top_up max_int64 (pos 1) ≡ err balance_overflow
unfolding validate_and_apply_top_up add64 wrap ◌+ℤ◌
full_wallet = refl

too_poor : validate_and_apply_transfer (pos 10) (pos 0) max_int64 ≡ err insufficient_balance
unfolding validate_and_apply_transfer sub64 wrap ◌-ℤ◌
too_poor = refl

validate_and_apply_top_up-exact_example :
    validate_and_apply_top_up max_int64 (pos 1) ≡ exact_top_up max_int64 (pos 1)
validate_and_apply_top_up-exact_example =
    validate_and_apply_top_up-exact max_int64 (pos 1) (ground arith, ground arith)
      (ground arith, ground arith)

validate_and_apply_transfer-exact_example :
    validate_and_apply_transfer (pos 50000) max_int64 (pos 20000)
    ≡ exact_transfer (pos 50000) max_int64 (pos 20000)
validate_and_apply_transfer-exact_example =
    validate_and_apply_transfer-exact (pos 50000) max_int64 (pos 20000) (ground arith, ground arith)
      (ground arith, ground arith) (ground arith, ground arith)
