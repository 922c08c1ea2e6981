-- ===== src/Handler/Numbers.antt =====
-- `strconv.Atoi`, and `strconv.ParseInt` in base 10: a sign, digits, and the range of an int64.
use go_ewallet_backend.Prelude.{
  ℕ, ◌+◌, ◌-◌, ◌*◌, String, Bool, ◌&&◌, Option, none, some, ◌==◌, leb, if◌then◌else◌,
}
use go_ewallet_backend.Prelude.Int.{ℤ, pos, ◌-ℤ◌}
use go_ewallet_backend.Prelude.Int64.{fits_int64}
use Prim.Native.Char.{Char, code}
use Prim.Native.String.{[], ◌∷◌}

abbrev pub is_digit : Char → Bool
is_digit c = leb b'0' (code c) && leb (code c) b'9'

unfoldable pub digits : ℕ → String → Option ℕ
digits n [] = some n
digits n (c ∷ s) =
    let rest = digits (n * 10 + (code c - b'0')) s in if is_digit c then rest else none

-- At least one digit.
unfoldable pub unsigned : String → Option ℕ
unfolding digits
unsigned [] = none
unsigned (c ∷ s) = digits 0 (c ∷ s)

abbrev pub in_range : Option ℤ → Option ℤ
in_range none = none
in_range (some z) = if fits_int64 z then some z else none

abbrev pub positive : Option ℕ → Option ℤ
positive none = none
positive (some n) = some (pos n)

abbrev pub negated : Option ℕ → Option ℤ
negated none = none
negated (some n) = some (pos 0 -ℤ pos n)

unfoldable pub atoi : String → Option ℤ
unfolding unsigned ◌-ℤ◌
atoi [] = none
atoi (c ∷ s) =
    if code c == b'-'
    then in_range (negated (unsigned s))
    else if code c == b'+'
    then in_range (positive (unsigned s))
    else in_range (positive (unsigned (c ∷ s)))
