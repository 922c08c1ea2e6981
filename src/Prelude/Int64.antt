-- ===== src/Prelude/Int64.antt =====
-- Go's int64: sums and differences wrap around modulo 2^64.
use go_ewallet_backend.Prelude.Int.{
  ℤ, pos, negsuc, pos_part, neg_part, sub_ℕ, ◌+ℤ◌, ◌-ℤ◌, ◌*ℤ◌, ◌≤ℤ◌, leb_ℤ,
}
use Prim.Native.Nat.{ℕ, suc, ◌+◌, ◌-◌, ◌%◌, ◌≤◌, ◌<◌}
use mathlib.Core.Path.{◌≡◌}
use mathlib.Core.Bool.{Bool, ◌&&◌}
use native.Mathlib.Omega.{arith}

-- 2^63 and 2^64.
abbrev pub half_range : ℕ
half_range = 9223372036854775808

abbrev pub full_range : ℕ
full_range = 18446744073709551616

abbrev pub max_int64 : ℤ
max_int64 = pos 9223372036854775807

abbrev pub min_int64 : ℤ
min_int64 = negsuc 9223372036854775807

abbrev pub IsInt64 : ℤ → Type 0
IsInt64 z = (min_int64 ≤ℤ z) × (z ≤ℤ max_int64)

abbrev pub fits_int64 : ℤ → Bool
fits_int64 z = leb_ℤ min_int64 z && leb_ℤ z max_int64

-- The representative of `z` modulo 2^64 that lies in the range of an int64.
unfoldable pub wrap : ℤ → ℤ
wrap z =
    sub_ℕ ((pos_part z + half_range + (full_range - neg_part z % full_range)) % full_range)
      half_range

-- `a + b`, `a - b` and `a * b` on int64.
unfoldable pub add64 : ℤ → ℤ → ℤ
add64 a b = wrap (a +ℤ b)

unfoldable pub sub64 : ℤ → ℤ → ℤ
sub64 a b = wrap (a -ℤ b)

unfoldable pub mul64 : ℤ → ℤ → ℤ
mul64 a b = wrap (a *ℤ b)

pub wrap-IsInt64 : (z : ℤ) → IsInt64 (wrap z)
unfolding wrap
wrap-IsInt64 z = ground arith

-- Wrapping changes nothing in range.
pub wrap-eq : (z : ℤ) → IsInt64 z → wrap z ≡ z
unfolding wrap
wrap-eq z h = ground arith

-- Past the upper end it drops by 2^64.
pub wrap_above :
    (z : ℤ)
    → suc (pos_part max_int64) + neg_part z ≤ pos_part z
    → pos_part z < half_range + half_range
    → wrap z ≡ z -ℤ pos full_range
unfolding wrap ◌-ℤ◌
wrap_above z h k = ground arith
