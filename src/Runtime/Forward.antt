-- ===== src/Runtime/Forward.antt =====
-- What a call does when nothing fails: one lemma for each way to build a call.
use go_ewallet_backend.Prelude.{◌≡◌, ap}
use go_ewallet_backend.Runtime.Errors.{Error, ok}
use go_ewallet_backend.Runtime.Surroundings.{World}
use go_ewallet_backend.Runtime.Calls.{Exec, ◌>>=◌, recover, handle, after}

module _ {A B : Type 0} where
  pub bind-runs :
      (m : Exec A) (f : A → Exec B) {w v : World} {a : A} → m w ≡ (ok a, v) → (m >>= f) w ≡ f a v
  unfolding ◌>>=◌
  bind-runs m f e = ap (λ r. after r f) e

module _ {A : Type 0} where
  pub recover-runs :
      (m : Exec A) (g : Error → Exec A) {w v : World} {a : A}
      → m w ≡ (ok a, v)
      → recover m g w ≡ (ok a, v)
  unfolding recover
  recover-runs m g e = ap (λ r. handle r g) e
