-- ===== src/Tests/RedisStore.antt =====
-- A small Redis server: each key with its entry, and a proof that it behaves as documented.
use go_ewallet_backend.Prelude.{
  ℕ, suc, ◌+◌, ◌-◌, ◌≤◌, ◌<◌, ◌≡◌, ◌≢◌, refl, String, true, Option, none, some, str_eq, eq_iff, ltb,
  if◌then◌else◌, arith, Bool-cases, inl, inr,
}
use go_ewallet_backend.Prelude.Int.{ℤ, pos, negsuc}
use go_ewallet_backend.Runtime.Redis.{Redis, Documented, Entry, counted, deadline_of, is_there}

abbrev Store : Type 0
Store = String → Option Entry

abbrev alive : ℕ → Option Entry → Option Entry
alive t none = none
alive t (some e) = elim e.deadline [ none ↦ some e | some d ↦ if ltb t d then some e else none ]

abbrev find : ℕ → String → Store → Option Entry
find t k s = alive t (s k)

abbrev put : String → Option Entry → Store → Store
put k e s j = if str_eq k j then e else s j

abbrev with_deadline : Option ℕ → Option Entry → Option Entry
with_deadline d none = none
with_deadline d (some e) = some (record e { deadline = d })

abbrev time_left : ℕ → Option Entry → ℤ
time_left t none = negsuc 1
time_left t (some e) = elim e.deadline [ none ↦ negsuc 0 | some d ↦ pos (d - t) ]

abbrev pub store : Redis
store = record {
  State = Store;
  incr = λ t k s.
      let n = suc (counted (find t k s)) in
      (n, put k (some (record { value = n; deadline = deadline_of (find t k s) })) s);
  expire = λ t k seconds s. put k (with_deadline (some (t + seconds)) (find t k s)) s;
  ttl = λ t k s. time_left t (find t k s);
  set = λ t k seconds s. put k (some (record { value = 1; deadline = some (t + seconds) })) s;
  exists = λ t k s. is_there (find t k s);
}

abbrev pub empty_store : Store
empty_store k = none

str_eq_refl : (k : String) → str_eq k k ≡ true
str_eq_refl k = (eq_iff k k).1 refl

put-same : (t : ℕ) (k : String) (e : Option Entry) (s : Store) → find t k (put k e s) ≡ alive t e
put-same t k e s = rw (str_eq_refl k) refl

put-other :
    (t : ℕ) (k j : String) (e : Option Entry) (s : Store)
    → k ≢ j
    → find t j (put k e s) ≡ find t j s
put-other t k j e s ne = elim (Bool-cases (str_eq k j)) [
  | inl h ↦ absurd (ne ((eq_iff k j).0 h))
  | inr h ↦ rw h refl
]

-- The counter of an entry that is alive is alive.
alive-renew :
    (t n : ℕ) (o : Option Entry)
    → alive t (some (record { value = n; deadline = deadline_of (alive t o) }))
      ≡ some (record { value = n; deadline = deadline_of (alive t o) })
alive-renew t n none = refl
alive-renew t n (some e) = ground arith

alive-some : (t : ℕ) (o : Option Entry) (e : Entry) → alive t o ≡ some e → o ≡ some e
alive-some t none e h = cc
alive-some t (some x) e h = ground arith

alive-later :
    (t t' v d : ℕ) (o : Option Entry)
    → alive t o ≡ some (record { value = v; deadline = some d })
    → t' < d
    → alive t' o ≡ some (record { value = v; deadline = some d })
alive-later t t' v d o h lt = rw (alive-some t o _ h) (ground arith)

alive-absent : (t t' : ℕ) (o : Option Entry) → alive t o ≡ none → t ≤ t' → alive t' o ≡ none
alive-absent t t' none h le = refl
alive-absent t t' (some e) h le = ground arith

alive-set :
    (t seconds : ℕ) (e : Entry)
    → 0 < seconds
    → alive t (some (record e { deadline = some (t + seconds) }))
      ≡ some (record e { deadline = some (t + seconds) })
alive-set t seconds e h = ground arith

unfoldable pub store-Documented : Documented store
unfolding str_eq_refl alive-some put-same put-other alive-renew alive-set alive-later alive-absent
store-Documented = record {
  look = find;
  incr-count = λ t k s. refl;
  look-incr = λ t k s.
      rw
        (put-same t k
          (some
            (record { value = suc (counted (find t k s)); deadline = deadline_of (find t k s) }))
          s)
        (alive-renew t (suc (counted (find t k s))) (s k));
  look-expire = λ t k seconds s e lasts h.
      rw (put-same t k (with_deadline (some (t + seconds)) (find t k s)) s, h)
        (alive-set t seconds e lasts);
  look-set = λ t k seconds s lasts.
      rw (put-same t k (some (record { value = 1; deadline = some (t + seconds) })) s)
        (alive-set t seconds (record { value = 1; deadline = none }) lasts);
  exists-look = λ t k s. refl;
  incr-other = λ t t' k k' s ne. put-other t' k k' _ s ne;
  expire-other = λ t t' k k' seconds s ne. put-other t' k k' _ s ne;
  set-other = λ t t' k k' seconds s ne. put-other t' k k' _ s ne;
  look-later = λ t t' k s v d h le lt. alive-later t t' v d (s k) h lt;
  look-absent = λ t t' k s h le. alive-absent t t' (s k) h le;
}
