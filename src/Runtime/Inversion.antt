-- ===== src/Runtime/Inversion.antt =====
-- What a call that returns has done: one lemma for each way to build a call.
use go_ewallet_backend.Prelude.{
  ℕ, ◌⊎◌, ◌≡◌, refl, subst, Bool, true, false, arith, Bool-cases, inl, inr, Option, none, some,
}
use go_ewallet_backend.Model.{Db, Sequences}
use go_ewallet_backend.Runtime.Errors.{Error, Result, ok, err}
use go_ewallet_backend.Runtime.Surroundings.{World, Env, Transaction, closed, active, aborted}
use go_ewallet_backend.Runtime.Calls.{
  Exec, ◌>>=◌, recover, raise_if, after, or_raise, lift, gets, handle, pure,
}
use go_ewallet_backend.Runtime.Statement.{
  Stmt, run_in, roll_back, commit_as, in_tx, begin_tx, commit, with_rollback, settle,
}

module _ {A B : Type 0} where
  after-ok :
      (r : Result A × World) (f : A → Exec B) {b : B} {w' : World}
      → after r f ≡ (ok b, w')
      → (a : A) × (v : World) × (r ≡ (ok a, v)) × (f a v ≡ (ok b, w'))
  after-ok (ok a, v) f h = (a, v, refl, h)
  after-ok (err e, v) f h = cc

  pub bind-ok :
      (m : Exec A) (f : A → Exec B) {w : World} {b : B} {w' : World}
      → (m >>= f) w ≡ (ok b, w')
      → (a : A) × (v : World) × (m w ≡ (ok a, v)) × (f a v ≡ (ok b, w'))
  unfolding ◌>>=◌
  bind-ok m f {w = w} h = after-ok (m w) f h

pub raise_if-ok :
    (b : Bool) (e : Error) {w w' : World} {u : Unit {0}}
    → raise_if b e w ≡ (ok u, w')
    → (b ≡ false) × (w ≡ w')
raise_if-ok true e h = cc
raise_if-ok false e h = (refl, cc)

-- A statement that has run in a transaction turns the tables `before` into `after`.
pub record Ran {A : Type 0} (f : Stmt A) (t : ℕ) (before : Db) (w : World) (a : A) (w' : World)
    : Type 0 where
  pub done : Db
  pub ran : f t before w.seq ≡ (ok (a, done), w'.seq)
  pub left : w'.tx ≡ active t done
  pub kept : w'.committed ≡ w.committed

module _ (env : Env) {A : Type 0} (f : Stmt A) (t : ℕ) (d : Db) (w : World) {a : A}
    {w' : World} where
  settle-ok :
      (r : Result (A × Db) × Sequences)
      → settle env t d w r ≡ (ok a, w')
      → (d' : Db) × (r ≡ (ok (a, d'), w'.seq))
        × (w'.tx ≡ active t d')
        × (w'.committed ≡ w.committed)
  settle-ok (ok (b, d'), s) h = (d', ground arith, ground arith, ground arith)
  settle-ok (err e, s) h = cc

  run_active-ok : run_in env f (active t d) w ≡ (ok a, w') → Ran f t d w a w'
  unfolding run_in
  run_active-ok h = elim (Bool-cases (env.fault w.clock)) [
    | inl lost ↦ cc (rw lost at h)
    | inr fine ↦
        let (d', ran, left, kept) = settle-ok (f t d w.seq) (rw fine at h) in
        record { done = d'; ran = ran; left = left; kept = kept }
  ]

  -- A statement that returns, in an open transaction.
  pub in_tx-ok : w.tx ≡ active t d → in_tx env f w ≡ (ok a, w') → Ran f t d w a w'
  unfolding in_tx
  in_tx-ok opened h = run_active-ok (subst (λ x. run_in env f x w ≡ (ok a, w')) opened h)

module _ (env : Env) (w : World) {w' : World} {u : Unit {0}} where
  pub begin_tx-ok :
      begin_tx env w ≡ (ok u, w')
      → (w'.tx ≡ active (env.now w.clock) w.committed)
        × (w'.committed ≡ w.committed)
        × (w'.seq ≡ w.seq)
  unfolding begin_tx
  begin_tx-ok h = ground arith

  commit_as-ok :
      (tx : Transaction)
      → commit_as env tx w ≡ (ok u, w')
      → (t : ℕ) × (d : Db) × (tx ≡ active t d) × (w'.committed ≡ d) × (w'.seq ≡ w.seq)
  unfolding commit_as
  commit_as-ok closed h = cc
  commit_as-ok aborted h = cc
  commit_as-ok (active t d) h = (t, d, refl, ground arith, ground arith)

  -- A commit that returns has published the transaction's tables.
  pub commit-ok :
      (t : ℕ) (d : Db) → w.tx ≡ active t d → commit env w ≡ (ok u, w') → w'.committed ≡ d
  unfolding commit
  commit-ok t d opened h = let (t₀, d₀, e, published, _) = commit_as-ok w.tx h in cc

roll_back-ok :
    {A : Type 0} (r : Result A × World) {w' : World} {a : A}
    → roll_back r ≡ (ok a, w')
    → (v : World) × (r ≡ (ok a, v)) × (w'.committed ≡ v.committed) × (w'.seq ≡ v.seq)
roll_back-ok (r, v) h = (v, ground arith, ground arith, ground arith)

-- Rolling back what has ended leaves the result and the committed tables.
pub with_rollback-ok :
    {A : Type 0} (m : Exec A) {w w' : World} {a : A}
    → with_rollback m w ≡ (ok a, w')
    → (v : World) × (m w ≡ (ok a, v)) × (w'.committed ≡ v.committed) × (w'.seq ≡ v.seq)
unfolding with_rollback
with_rollback-ok m {w = w} h = roll_back-ok (m w) h

-- The same, of a call and what follows it in a block: what passed the first step, and the rest.
module _ {A : Type 0} {w w' : World} {b : A} where
  pub raise_if-then :
      (c : Bool) (e : Error) (f : Unit {0} → Exec A)
      → (raise_if c e >>= f) w ≡ (ok b, w')
      → (c ≡ false) × (f tt w ≡ (ok b, w'))
  unfolding ◌>>=◌
  raise_if-then true e f h = cc
  raise_if-then false e f h = (refl, h)

module _ {A B : Type 0} {w w' : World} {b : B} where
  pub or_raise-then :
      (o : Option A) (e : Error) (f : A → Exec B)
      → (or_raise o e >>= f) w ≡ (ok b, w')
      → (a : A) × (o ≡ some a) × (f a w ≡ (ok b, w'))
  unfolding ◌>>=◌
  or_raise-then none e f h = cc
  or_raise-then (some a) e f h = (a, refl, h)

  pub lift-then :
      (r : Result A) (f : A → Exec B)
      → (lift r >>= f) w ≡ (ok b, w')
      → (a : A) × (r ≡ ok a) × (f a w ≡ (ok b, w'))
  unfolding ◌>>=◌
  lift-then (ok a) f h = (a, refl, h)
  lift-then (err e) f h = cc

  pub gets-then :
      (g : World → A) (f : A → Exec B) → (gets g >>= f) w ≡ (ok b, w') → f (g w) w ≡ (ok b, w')
  unfolding ◌>>=◌
  gets-then g f h = h

  pub in_tx-then :
      (env : Env) (s : Stmt A) (f : A → Exec B) (t : ℕ) (d : Db)
      → w.tx ≡ active t d
      → (in_tx env s >>= f) w ≡ (ok b, w')
      → (a : A) × (v : World) × Ran s t d w a v × (f a v ≡ (ok b, w'))
  in_tx-then env s f t d opened h =
      let (a, v, ran, rest) = bind-ok (in_tx env s) f h in
      (a, v, in_tx-ok env s t d w opened ran, rest)

module _ {A : Type 0} where
  handle-ok :
      (r : Result A × World) (g : Error → Exec A) {a : A} {w' : World}
      → ((e : Error) (v : World) → g e v ≡ (ok a, w') → ⊥)
      → handle r g ≡ (ok a, w')
      → r ≡ (ok a, w')
  handle-ok (ok a, v) g never h = h
  handle-ok (err e, v) g never h = absurd (never e v h)

  -- Where the handler always fails, the call itself has returned.
  pub recover-ok :
      (m : Exec A) (g : Error → Exec A) {a : A} {w w' : World}
      → ((e : Error) (v : World) → g e v ≡ (ok a, w') → ⊥)
      → recover m g w ≡ (ok a, w')
      → m w ≡ (ok a, w')
  unfolding recover
  recover-ok m g {w = w} never h = handle-ok (m w) g never h

  handle-cases :
      (r : Result A × World) (g : Error → Exec A) {a : A} {w' : World}
      → handle r g ≡ (ok a, w')
      → (r ≡ (ok a, w')) ⊎ ((e : Error) × (v : World) × (r ≡ (err e, v)) × (g e v ≡ (ok a, w')))
  handle-cases (ok a, v) g h = inl h
  handle-cases (err e, v) g h = inr (e, v, refl, h)

  -- The call has returned, or it has failed and the handler has returned.
  pub recover-cases :
      (m : Exec A) (g : Error → Exec A) {a : A} {w w' : World}
      → recover m g w ≡ (ok a, w')
      → (m w ≡ (ok a, w')) ⊎ ((e : Error) × (v : World) × (m w ≡ (err e, v)) × (g e v ≡ (ok a, w')))
  unfolding recover
  recover-cases m g {w = w} h = handle-cases (m w) g h

pub pure-ok : {A : Type 0} {a b : A} {w w' : World} → pure a w ≡ (ok b, w') → (b ≡ a) × (w' ≡ w)
pure-ok h = (cc, cc)
