-- ===== src/Prelude/Table.antt =====
-- A database table as the list of its rows.
use go_ewallet_backend.Prelude.Tests.{if◌then◌else◌}
use Prim.Native.Nat.{ℕ, suc}
use mathlib.Core.Path.{◌≡◌, refl}
use mathlib.Core.Bool.{Bool, true, false, ◌||◌}
use mathlib.Core.Option.{Option, none, some}
use mathlib.Core.List.{List, [], ◌∷◌, ◌++◌}
use native.Mathlib.Omega.{arith}

module _ {ℓ} {A : Type ℓ} where
  -- The first row that meets the condition.
  abbrev pub find? : (A → Bool) → List A → Option A
  find? p [] = none
  find? p (x ∷ xs) = if p x then some x else find? p xs

  -- Does some row meet the condition?
  abbrev pub any : (A → Bool) → List A → Bool
  any p [] = false
  any p (x ∷ xs) = if p x then true else any p xs

  -- `SELECT … WHERE p`.
  abbrev pub select_where : (A → Bool) → List A → List A
  select_where p [] = []
  select_where p (x ∷ xs) = let rest = select_where p xs in if p x then x ∷ rest else rest

  -- `UPDATE … SET f WHERE p`.
  abbrev pub update_where : (A → Bool) → (A → A) → List A → List A
  update_where p f [] = []
  update_where p f (x ∷ xs) = (if p x then f x else x) ∷ update_where p f xs

  -- The number of rows that an update affects.
  abbrev pub count_where : (A → Bool) → List A → ℕ
  count_where p [] = 0
  count_where p (x ∷ xs) = if p x then suc (count_where p xs) else count_where p xs

  pub update_where-none :
      (p : A → Bool) (f : A → A) (xs : List A) → any p xs ≡ false → update_where p f xs ≡ xs
  update_where-none p f [] h = refl
  update_where-none p f (x ∷ xs) h = ground (arith, update_where-none p f xs)

  pub find?-none : (p : A → Bool) (xs : List A) → any p xs ≡ false → find? p xs ≡ none
  find?-none p [] h = refl
  find?-none p (x ∷ xs) h = ground (arith, find?-none p xs)

  pub any_of_find? : (p : A → Bool) {x : A} (xs : List A) → find? p xs ≡ some x → any p xs ≡ true
  any_of_find? p [] h = ground arith
  any_of_find? p {x = y} (x ∷ xs) h = ground (arith, any_of_find? p {x = y} xs)

  -- The row that is found meets the condition.
  pub find?-holds : (p : A → Bool) {x : A} (xs : List A) → find? p xs ≡ some x → p x ≡ true
  find?-holds p [] h = ground arith
  find?-holds p {x = y} (x ∷ xs) h = ground (arith, find?-holds p {x = y} xs)

  pub find?-append :
      (p : A → Bool) (xs : List A) (y : A)
      → find? p (xs ++ y ∷ [])
        ≡ elim (find? p xs) [ some x ↦ some x | none ↦ if p y then some y else none ]
  find?-append p [] y = refl
  find?-append p (x ∷ xs) y = ground (arith, find?-append p xs y)

  pub any-append : (p : A → Bool) (xs : List A) (y : A) → any p (xs ++ y ∷ []) ≡ (any p xs || p y)
  any-append p [] y = ground arith
  any-append p (x ∷ xs) y = ground (arith, any-append p xs y)

  pub any_of_last : (p : A → Bool) (xs : List A) (y : A) → p y ≡ true → any p (xs ++ y ∷ []) ≡ true
  any_of_last p xs y h = ground (arith, any-append p xs y)

  -- An update that leaves the condition alone leaves what meets it alone.
  pub any-update_where :
      (p q : A → Bool) (f : A → A) (xs : List A)
      → ((x : A) → p (f x) ≡ p x)
      → any p (update_where q f xs) ≡ any p xs
  any-update_where p q f [] keep = refl
  any-update_where p q f (x ∷ xs) keep = ground (arith, keep x, any-update_where p q f xs keep)
