-- ===== src/Service/Amount/Exact.antt =====
-- The int64 validation against what it means over the integers.
use go_ewallet_backend.Prelude.{◌≡◌, refl, false, if◌then◌else◌, arith, inl, inr, Bool-cases}
use go_ewallet_backend.Prelude.Int.{
  ℤ, pos, ◌+ℤ◌, ◌-ℤ◌, ltb_ℤ, leb_ℤ, leb_ℤ→gt, ltb_ℤ→ge, +ℤ_parts, -ℤ_parts,
}
use go_ewallet_backend.Prelude.Int64.{IsInt64, add64, sub64, max_int64}
use go_ewallet_backend.Runtime.{
  Result, ok, err, amount_not_positive, balance_overflow, insufficient_balance, recipient_overflow,
}
use go_ewallet_backend.Service.Amount.{validate_and_apply_top_up, validate_and_apply_transfer}
use go_ewallet_backend.Service.Amount.Bounds.{IsBalance, IsAmount, add64-eq, add64_wraps, sub64-eq}

-- A top up over unbounded integers.
abbrev pub exact_top_up : ℤ → ℤ → Result ℤ
exact_top_up balance amount =
    if leb_ℤ amount (pos 0)
    then err amount_not_positive
    else if ltb_ℤ max_int64 (balance +ℤ amount)
    then err balance_overflow
    else ok (balance +ℤ amount)

-- A transfer over unbounded integers.
abbrev pub exact_transfer : ℤ → ℤ → ℤ → Result (ℤ × ℤ)
exact_transfer sender recipient amount =
    if leb_ℤ amount (pos 0)
    then err amount_not_positive
    else if ltb_ℤ sender amount
    then err insufficient_balance
    else if ltb_ℤ max_int64 (recipient +ℤ amount)
    then err recipient_overflow
    else ok (sender -ℤ amount, recipient +ℤ amount)

-- The wrap-around guard is the overflow test.
add64_guard-eq :
    (b a : ℤ) → IsBalance b → IsAmount a → ltb_ℤ (add64 b a) b ≡ ltb_ℤ max_int64 (b +ℤ a)
add64_guard-eq b a hb ha = elim (Bool-cases (ltb_ℤ max_int64 (b +ℤ a))) [
  | inl over ↦ rw over (add64_wraps b a hb ha over)
  | inr fits ↦
      let le = ltb_ℤ→ge max_int64 (b +ℤ a) fits in
      rw (fits, add64-eq b a hb ha le) (ground (arith, +ℤ_parts b a))
]

IsAmount-in_range : (a : ℤ) → IsInt64 a → leb_ℤ a (pos 0) ≡ false → IsAmount a
IsAmount-in_range a h positive = (omega (arith, leb_ℤ→gt a (pos 0) positive), h.1)

-- On a balance in range and any int64 amount, the validation of a top up accepts, refuses and
-- computes exactly as over the integers: wrapping around is always caught.
pub validate_and_apply_top_up-exact :
    (balance amount : ℤ)
    → IsBalance balance
    → IsInt64 amount
    → validate_and_apply_top_up balance amount ≡ exact_top_up balance amount
unfolding validate_and_apply_top_up
validate_and_apply_top_up-exact b a hb ha = elim (Bool-cases (leb_ℤ a (pos 0))) [
  | inl refused ↦ rw refused refl
  | inr positive ↦
      let amount = IsAmount-in_range a ha positive in
      elim (Bool-cases (ltb_ℤ max_int64 (b +ℤ a))) [
        | inl over ↦ rw (positive, add64_guard-eq b a hb amount, over) refl
        | inr fits ↦
            rw
              (
                positive,
                add64_guard-eq b a hb amount,
                fits,
                add64-eq b a hb amount (ltb_ℤ→ge max_int64 (b +ℤ a) fits),
              )
              refl
      ]
]

-- The sign of the difference is the test for the funds.
sub64_guard-eq : (b a : ℤ) → IsBalance b → IsAmount a → ltb_ℤ (sub64 b a) (pos 0) ≡ ltb_ℤ b a
sub64_guard-eq b a hb ha = rw (sub64-eq b a hb ha) (ground (arith, -ℤ_parts b a))

-- On balances in range and any int64 amount, the validation of a transfer accepts, refuses and
-- computes both balances exactly as over the integers.
pub validate_and_apply_transfer-exact :
    (sender recipient amount : ℤ)
    → IsBalance sender
    → IsBalance recipient
    → IsInt64 amount
    → validate_and_apply_transfer sender recipient amount ≡ exact_transfer sender recipient amount
unfolding validate_and_apply_transfer
validate_and_apply_transfer-exact s r a hs hr ha = elim (Bool-cases (leb_ℤ a (pos 0))) [
  | inl refused ↦ rw refused refl
  | inr positive ↦
      let amount = IsAmount-in_range a ha positive in
      rw
        (
          positive,
          sub64_guard-eq s a hs amount,
          sub64-eq s a hs amount,
          add64_guard-eq r a hr amount,
        )
        (elim (Bool-cases (ltb_ℤ max_int64 (r +ℤ a))) [
          | inl over ↦ rw over refl
          | inr fits ↦ rw (fits, add64-eq r a hr amount (ltb_ℤ→ge max_int64 (r +ℤ a) fits)) refl
        ])
]
