-- ===== src/Repository/Column.antt =====
-- What the SQL texts and the constraints of migrations/ say of single columns.
use go_ewallet_backend.Prelude.{
  ℕ, ◌+◌, String, Bool, true, false, Option, none, some, List, ◌==◌, str_eq, if◌then◌else◌, not,
}
use go_ewallet_backend.Prelude.Int.{ℤ, pos, leb_ℤ, pos_part, neg_part}
use go_ewallet_backend.Prelude.Table.{any}
use go_ewallet_backend.Runtime.{Result, ok, err}
use go_ewallet_backend.Model.{Db, User, IdempotencyKey, has_key_id}

-- `NULLIF(s, '')`
abbrev pub null_if_empty : String → Option String
null_if_empty s = if str_eq s "" then none else some s

-- A nullable text column read into a Go string.
abbrev pub string_or_empty : Option String → String
string_or_empty none = ""
string_or_empty (some s) = s

-- `CHECK (amount > 0)` fails.
abbrev pub not_positive : ℤ → Bool
not_positive amount = leb_ℤ amount (pos 0)

-- A nullable column holds this value. Two nulls are not equal in a UNIQUE constraint.
abbrev pub holds_id : Option ℕ → Option ℕ → Bool
holds_id (some a) (some b) = a == b
holds_id _ _ = false

abbrev pub holds_text : Option String → Option String → Bool
holds_text (some a) (some b) = str_eq a b
holds_text _ _ = false

abbrev pub is_user : ℕ → User → Bool
is_user u r = r.id == u

-- A nullable foreign key names no row.
abbrev pub dangling_user : Option ℕ → List User → Bool
dangling_user none us = false
dangling_user (some u) us = not (any (is_user u) us)

abbrev pub dangling_key : Option ℕ → List IdempotencyKey → Bool
dangling_key none ks = false
dangling_key (some k) ks = not (any (has_key_id k) ks)

abbrev pub eq_ℤ : ℤ → ℤ → Bool
eq_ℤ a b = pos_part a + neg_part b == pos_part b + neg_part a

abbrev pub is_null : {A : Type 0} → Option A → Bool
is_null none = true
is_null (some _) = false

-- An INSERT … RETURNING gives back a value of the new row.
abbrev pub returning : {A : Type 0} → A → Result Db → Result (A × Db)
returning a (ok d) = ok (a, d)
returning a (err e) = err e
