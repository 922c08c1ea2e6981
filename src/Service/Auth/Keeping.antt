-- ===== src/Service/Auth/Keeping.antt =====
-- Calls that keep a condition on the committed tables.
use go_ewallet_backend.Prelude.{Bool, true, false, sym, subst, if◌then◌else◌}
use go_ewallet_backend.Model.{Db}
use go_ewallet_backend.Runtime.{Error, Result, ok, err, World, Exec, ◌>>=◌, recover, after, handle}
use go_ewallet_backend.Runtime.Atomicity.{Quiet}

pub record Keeps {A : Type 0} (P : Db → Type 0) (m : Exec A) : Type 0 where
  pub at : (w : World) → P w.committed → P (m w).1.committed

module _ {A : Type 0} (P : Db → Type 0) where
  pub Keeps-Quiet : (m : Exec A) → Quiet m → Keeps P m
  Keeps-Quiet m q = record { at = λ w h. subst P (sym (q.at w)) h }

  pub Keeps-if : (b : Bool) {m n : Exec A} → Keeps P m → Keeps P n → Keeps P (if b then m else n)
  Keeps-if true km kn = km
  Keeps-if false km kn = kn

  handle-keeps :
      (r : Result A × World) (f : Error → Exec A)
      → P r.1.committed
      → ((e : Error) → Keeps P (f e))
      → P (handle r f).1.committed
  handle-keeps (ok a, v) f h kf = h
  handle-keeps (err e, v) f h kf = (kf e).at v h

  pub Keeps-recover :
      (m : Exec A) (f : Error → Exec A)
      → Keeps P m
      → ((e : Error) → Keeps P (f e))
      → Keeps P (recover m f)
  unfolding recover
  Keeps-recover m f km kf = record { at = λ w h. handle-keeps (m w) f (km.at w h) kf }

module _ {A B : Type 0} (P : Db → Type 0) where
  after-keeps :
      (r : Result A × World) (f : A → Exec B)
      → P r.1.committed
      → ((a : A) → Keeps P (f a))
      → P (after r f).1.committed
  after-keeps (ok a, v) f h kf = (kf a).at v h
  after-keeps (err e, v) f h kf = h

  pub Keeps-bind :
      (m : Exec A) (f : A → Exec B) → Keeps P m → ((a : A) → Keeps P (f a)) → Keeps P (m >>= f)
  unfolding ◌>>=◌
  Keeps-bind m f km kf = record { at = λ w h. after-keeps (m w) f (km.at w h) kf }
