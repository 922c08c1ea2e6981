-- ===== src/Service/Amount/Bounds.antt =====
-- The guards of the int64 arithmetic: where they pass, nothing has wrapped around.
use go_ewallet_backend.Prelude.{◌≡◌, true, false, arith, inl, inr, Bool-cases}
use go_ewallet_backend.Prelude.Int.{ℤ, pos, ◌+ℤ◌, ◌-ℤ◌, ◌≤ℤ◌, ltb_ℤ, int_laws, ltb_ℤ→ge}
use go_ewallet_backend.Prelude.Int64.{add64, sub64, wrap, max_int64, wrap-eq}

-- A balance that the service keeps.
abbrev pub IsBalance : ℤ → Type 0
IsBalance b = (pos 0 ≤ℤ b) × (b ≤ℤ max_int64)

-- An amount that the guards let pass.
abbrev pub IsAmount : ℤ → Type 0
IsAmount a = (pos 1 ≤ℤ a) × (a ≤ℤ max_int64)

-- A sum of a balance and an amount that fits is computed exactly.
pub add64-eq : (b a : ℤ) → IsBalance b → IsAmount a → b +ℤ a ≤ℤ max_int64 → add64 b a ≡ b +ℤ a
unfolding add64
add64-eq b a hb ha fits = wrap-eq (b +ℤ a) (omega int_laws, fits)

-- A sum that does not fit wraps around to less than the balance.
pub add64_wraps :
    (b a : ℤ)
    → IsBalance b
    → IsAmount a
    → ltb_ℤ max_int64 (b +ℤ a) ≡ true
    → ltb_ℤ (add64 b a) b ≡ true
unfolding add64 wrap ◌+ℤ◌
add64_wraps b a hb ha over = ground arith

-- The guard `newBalance < currentBalance` fails exactly where the sum fits.
pub add64_guard :
    (b a : ℤ)
    → IsBalance b
    → IsAmount a
    → ltb_ℤ (add64 b a) b ≡ false
    → (add64 b a ≡ b +ℤ a) × (b +ℤ a ≤ℤ max_int64)
add64_guard b a hb ha guard = elim (Bool-cases (ltb_ℤ max_int64 (b +ℤ a))) [
  | inl over ↦ cc (add64_wraps b a hb ha over)
  | inr fits ↦ let le = ltb_ℤ→ge max_int64 (b +ℤ a) fits in (add64-eq b a hb ha le, le)
]

pub sub64-eq : (b a : ℤ) → IsBalance b → IsAmount a → sub64 b a ≡ b -ℤ a
unfolding sub64
sub64-eq b a hb ha = wrap-eq (b -ℤ a) (omega int_laws, omega int_laws)
