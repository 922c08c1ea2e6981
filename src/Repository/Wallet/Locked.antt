-- ===== src/Repository/Wallet/Locked.antt =====
-- The rows that `TransferWithMetadataTx` locks: each of the two ids finds its row among them.
use go_ewallet_backend.Prelude.{
  ℕ, Bool, true, ◌||◌, ◌≡◌, refl, Option, none, some, List, [], ◌∷◌, ◌++◌, ◌==◌, arith,
  if◌then◌else◌,
}
use go_ewallet_backend.Prelude.Table.{find?, select_where}
use go_ewallet_backend.Model.{Wallet, has_id}

find?-select_where :
    (k a : ℕ) (ws : List Wallet)
    → find? (has_id k) (select_where (has_id a) ws) ≡ (if k == a then find? (has_id k) ws else none)
find?-select_where k a [] = ground arith
find?-select_where k a (w ∷ ws) = ground (arith, find?-select_where k a ws)

module _ {A : Type 0} (p : A → Bool) where
  first_of_two : Option A → Option A → Option A
  first_of_two (some x) _ = some x
  first_of_two none o = o

  find?-append_list : (xs ys : List A) → find? p (xs ++ ys) ≡ first_of_two (find? p xs) (find? p ys)
  unfolding first_of_two
  find?-append_list [] ys = refl
  find?-append_list (x ∷ xs) ys = ground (arith, find?-append_list xs ys)

-- Looking an id up among the locked rows is looking it up in the table.
pub find?-locked :
    (k a b : ℕ) (ws : List Wallet)
    → ((k == a) || (k == b)) ≡ true
    → find? (has_id k) (select_where (has_id a) ws ++ select_where (has_id b) ws)
      ≡ find? (has_id k) ws
unfolding first_of_two
find?-locked k a b ws h = ground (
  arith,
  find?-append_list (has_id k) (select_where (has_id a) ws) (select_where (has_id b) ws),
  find?-select_where k a ws,
  find?-select_where k b ws,
)
