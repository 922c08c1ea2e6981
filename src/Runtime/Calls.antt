-- ===== src/Runtime/Calls.antt =====
-- A call: it returns a value or an error, and the world as it leaves it.
use go_ewallet_backend.Prelude.{Bool, true, false, Option, none, some}
use go_ewallet_backend.Runtime.Errors.{Error, Result, ok, err}
use go_ewallet_backend.Runtime.Surroundings.{World}

abbrev pub Exec : Type 0 → Type 0
Exec A = World → Result A × World

module _ {A : Type 0} where
  abbrev pub pure : A → Exec A
  pure a w = (ok a, w)

  abbrev pub raise : Error → Exec A
  raise e w = (err e, w)

  abbrev pub or_raise : Option A → Error → Exec A
  or_raise (some a) e = pure a
  or_raise none e = raise e

  abbrev pub lift : Result A → Exec A
  lift r w = (r, w)

  abbrev pub gets : (World → A) → Exec A
  gets f w = (ok (f w), w)

abbrev pub raise_if : Bool → Error → Exec (Unit {0})
raise_if true e = raise e
raise_if false e = pure tt

module _ {A B : Type 0} where
  abbrev pub after : Result A × World → (A → Exec B) → Result B × World
  after (ok a, w) f = f a w
  after (err e, w) f = (err e, w)

  infixl 5 ◌>>=◌ ◌>>◌
  unfoldable pub ◌>>=◌ : Exec A → (A → Exec B) → Exec B
  ◌>>=◌ m f w = after (m w) f

  abbrev pub ◌>>◌ : Exec A → Exec B → Exec B
  m >> k = m >>= λ _. k

module _ {A : Type 0} where
  abbrev pub handle : Result A × World → (Error → Exec A) → Result A × World
  handle (ok a, w) f = (ok a, w)
  handle (err e, w) f = f e w

  -- `if err != nil { … }` where the branch goes on.
  unfoldable pub recover : Exec A → (Error → Exec A) → Exec A
  recover m f w = handle (m w) f
