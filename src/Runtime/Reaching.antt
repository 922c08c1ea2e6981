-- ===== src/Runtime/Reaching.antt =====
-- That a call returns, and what it then has done: one lemma for each way to build a call.
use go_ewallet_backend.Prelude.{
  ℕ, suc, ◌≡◌, refl, sym, subst, ◌∙◌, ap, arith, Bool, false, Option, some,
}
use go_ewallet_backend.Model.{Db, Sequences}
use go_ewallet_backend.Runtime.Errors.{Error, ok}
use go_ewallet_backend.Runtime.Surroundings.{World, Env, closed, active}
use go_ewallet_backend.Runtime.Calls.{
  Exec, ◌>>=◌, recover, raise_if, or_raise, gets, pure, after, handle,
}
use go_ewallet_backend.Runtime.Statement.{
  Stmt, in_tx, run_in, on_db, begin_tx, commit, commit_as, with_rollback, roll_back,
}

-- The call returns, with a value and in a world that meet the condition.
pub record Reaches {A : Type 0} (m : Exec A) (w : World) (Q : A → World → Type 0) : Type 0 where
  pub value : A
  pub reached : World
  pub runs : m w ≡ (ok value, reached)
  pub outcome : Q value reached

-- Inside a transaction, with these tables and sequences.
pub record Inside (t : ℕ) (d : Db) (s : Sequences) (w : World) : Type 0 where
  pub opened : w.tx ≡ active t d
  pub drawn : w.seq ≡ s

abbrev pub Returns : {A : Type 0} → A → ℕ → Db → Sequences → A → World → Type 0
Returns a t d s b v = (b ≡ a) × Inside t d s v

-- The database fails no request.
abbrev pub IsReliable : Env → Type 0
IsReliable env = (n : ℕ) → env.fault n ≡ false

pub Reaches-weaken :
    {A : Type 0} {m : Exec A} {w : World} {P Q : A → World → Type 0}
    → Reaches m w P
    → ((a : A) (v : World) → P a v → Q a v)
    → Reaches m w Q
Reaches-weaken x next = record {
  value = x.value;
  reached = x.reached;
  runs = x.runs;
  outcome = next x.value x.reached x.outcome;
}

module _ {A B : Type 0} where
  pub bind-Reaches :
      (m : Exec A) (f : A → Exec B) {w : World} {P : A → World → Type 0} {Q : B → World → Type 0}
      → Reaches m w P
      → ((a : A) (v : World) → P a v → Reaches (f a) v Q)
      → Reaches (m >>= f) w Q
  unfolding ◌>>=◌
  bind-Reaches m f x next =
      let y = next x.value x.reached x.outcome in
      record {
        value = y.value;
        reached = y.reached;
        runs = ap (λ r. after r f) x.runs ∙ y.runs;
        outcome = y.outcome;
      }

  -- The same for a call whose value is known.
  pub value-Reaches :
      (m : Exec A) (f : A → Exec B) {w : World} {a : A} {P : World → Type 0}
      {Q : B → World → Type 0}
      → Reaches m w (λ b v. (b ≡ a) × P v)
      → ((v : World) → P v → Reaches (f a) v Q)
      → Reaches (m >>= f) w Q
  value-Reaches m f {Q} x next =
      bind-Reaches m f x (λ b v (e, p). subst (λ c. Reaches (f c) v Q) (sym e) (next v p))

module _ {A : Type 0} {Q : A → World → Type 0} where
  pub recover-Reaches :
      (m : Exec A) (g : Error → Exec A) {w : World} → Reaches m w Q → Reaches (recover m g) w Q
  unfolding recover
  recover-Reaches m g x = record {
    value = x.value;
    reached = x.reached;
    runs = ap (λ r. handle r g) x.runs;
    outcome = x.outcome;
  }

  pub pure-Reaches : (a : A) {w : World} → Q a w → Reaches (pure a) w Q
  pure-Reaches a {w} q = record { value = a; reached = w; runs = refl; outcome = q }

  pub with_rollback-Reaches :
      (m : Exec A) {w : World} {P : A → World → Type 0}
      → Reaches m w P
      → ((a : A) (v : World) → P a v → Q a (record v { tx = closed }))
      → Reaches (with_rollback m) w Q
  unfolding with_rollback
  with_rollback-Reaches m x next = record {
    value = x.value;
    reached = record x.reached { tx = closed };
    runs = ap roll_back x.runs;
    outcome = next x.value x.reached x.outcome;
  }

-- The steps that leave the world alone: the rest of the call runs on.
module _ {A B : Type 0} {w : World} {Q : B → World → Type 0} where
  pub lookup-past :
      (m : Exec A) (k : A → Exec B) {a : A}
      → m w ≡ (ok a, w)
      → Reaches (k a) w Q
      → Reaches (m >>= k) w Q
  lookup-past m k {a} h x =
      bind-Reaches m k {P = λ b v. (b ≡ a) × (v ≡ w)}
        (record { value = a; reached = w; runs = h; outcome = (refl, refl) })
        (λ b v (e1, e2). rw (e1, e2) x)

  pub or_raise-past :
      (o : Option A) (e : Error) (k : A → Exec B) {a : A}
      → o ≡ some a
      → Reaches (k a) w Q
      → Reaches (or_raise o e >>= k) w Q
  or_raise-past o e k h x = lookup-past (or_raise o e) k (ap (λ p. or_raise p e w) h) x

  pub gets-past :
      (f : World → A) (k : A → Exec B) {a : A}
      → f w ≡ a
      → Reaches (k a) w Q
      → Reaches (gets f >>= k) w Q
  gets-past f k h x = lookup-past (gets f) k (ap (λ a. (ok a, w)) h) x

pub raise_if-past :
    {B : Type 0} {w : World} {Q : B → World → Type 0} (b : Bool) (e : Error) (k : Unit {0} → Exec B)
    → b ≡ false
    → Reaches (k tt) w Q
    → Reaches (raise_if b e >>= k) w Q
raise_if-past {w} b e k h x = lookup-past (raise_if b e) k (ap (λ p. raise_if p e w) h) x

module _ (env : Env) (calm : IsReliable env) where
  pub in_tx-Reaches :
      {A : Type 0} (f : Stmt A) {t : ℕ} {d d' : Db} {s s' : Sequences} {a : A} {w : World}
      → Inside t d s w
      → f t d s ≡ (ok (a, d'), s')
      → Reaches (in_tx env f) w (Returns a t d' s')
  unfolding in_tx run_in
  in_tx-Reaches f {t} {d} {d'} {s} {s'} {a} {w} i h = record {
    value = a;
    reached = record w { tx = active t d'; seq = s'; clock = suc w.clock };
    runs = ground (arith, i.opened, i.drawn, calm w.clock, h);
    outcome = (refl, record { opened = refl; drawn = refl });
  }

  pub in_tx-past :
      {A B : Type 0} (f : Stmt A) (k : A → Exec B) {Q : B → World → Type 0} {t : ℕ} {d d' : Db}
      {s s' : Sequences} {a : A} {w : World}
      → Inside t d s w
      → f t d s ≡ (ok (a, d'), s')
      → ((v : World) → Inside t d' s' v → Reaches (k a) v Q)
      → Reaches (in_tx env f >>= k) w Q
  in_tx-past f k i h next = value-Reaches _ k (in_tx-Reaches f i h) next

  pub on_db-Reaches :
      {A : Type 0} (f : Stmt A) {d' : Db} {s' : Sequences} {a : A} {w : World}
      → f (env.now w.clock) w.committed w.seq ≡ (ok (a, d'), s')
      → Reaches (on_db env f) w (λ b v. (b ≡ a) × (v.committed ≡ d') × (v.seq ≡ s'))
  unfolding on_db
  on_db-Reaches f {d'} {s'} {a} {w} h = record {
    value = a;
    reached = record w { committed = d'; seq = s'; clock = suc w.clock };
    runs = ground (arith, calm w.clock, h);
    outcome = (refl, refl, refl);
  }

  pub begin_tx-Reaches :
      (w : World)
      → Reaches
          (begin_tx env)
          w
          (λ _ v. (v.committed ≡ w.committed) × Inside (env.now w.clock) w.committed w.seq v)
  unfolding begin_tx
  begin_tx-Reaches w = record {
    value = tt;
    reached = record w { tx = active (env.now w.clock) w.committed; clock = suc w.clock };
    runs = ground (arith, calm w.clock);
    outcome = (refl, record { opened = refl; drawn = refl });
  }

  pub commit-Reaches :
      {t : ℕ} {d : Db} {s : Sequences} {w : World}
      → Inside t d s w
      → Reaches (commit env) w (λ _ v. v.committed ≡ d)
  unfolding commit commit_as
  commit-Reaches {t} {d} {s} {w} i = record {
    value = tt;
    reached = record w { committed = d; tx = closed; clock = suc w.clock };
    runs = ground (arith, i.opened, calm w.clock);
    outcome = refl;
  }
