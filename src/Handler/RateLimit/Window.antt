-- ===== src/Handler/RateLimit/Window.antt =====
-- The requests of one window, of one client among others.
use go_ewallet_backend.Prelude.{
  ℕ, zero, suc, ◌+◌, ◌≤◌, ◌<◌, ◌≡◌, refl, ap, ◌∙◌, String, true, false, ◌&&◌, Option, none, some,
  List, [], ◌∷◌, ◌==◌, leb, if◌then◌else◌, arith, Bool-cases, inl, inr, ◌≢◌,
}
use go_ewallet_backend.Prelude.Int.{ℤ, pos, negsuc}
use go_ewallet_backend.Runtime.{Env}
use go_ewallet_backend.Runtime.Redis.{Redis, Documented, Entry, Contact}
use go_ewallet_backend.Handler.RateLimit.Keys.{
  same_client, Distinguishes, limit_key-client, same_client-key,
}
use go_ewallet_backend.Handler.RateLimit.{
  Identity, Limiter, Verdict, limit_key, window_seconds, rate_limit_script, rate_limiter, judge,
  is_next,
}

-- Times do not go back, and lie before the end of the window.
abbrev pub InWindow : ℕ → ℕ → List (Identity × ℕ) → Type 0
InWindow t end [] = Unit
InWindow t end ((who, t') ∷ rest) = (t ≤ t') × (t' < end) × InWindow t' end rest

abbrev pub capped : ℕ → ℕ → ℕ
capped limit n = if leb n limit then n else limit

module _ (env : Env) (redis : Redis) (limiter : Limiter) where
  abbrev pub arrivals : Identity → List (Identity × ℕ) → ℕ
  arrivals client [] = 0
  arrivals client ((who, t) ∷ rest) =
      let n = arrivals client rest in if same_client who client then suc n else n

  -- How many requests of the client the limiter lets through.
  abbrev pub passes : Identity → List (Identity × ℕ) → redis.State → ℕ
  passes client [] s = 0
  passes client ((who, t) ∷ rest) s =
      let (verdict, s') = rate_limiter env redis limiter who Contact.reached t s in
      let n = passes client rest s' in
      if same_client who client && is_next verdict then suc n else n

-- The counter after so many requests of the client.
abbrev held : ℕ → ℕ → Option Entry
held zero d = none
held (suc n) d = some (record { value = suc n; deadline = some d })

-- The first request of a window sets the deadline.
abbrev renewed : ℕ → ℕ → ℕ → ℕ
renewed zero new old = new
renewed (suc n) new old = old

module _ (redis : Redis) (doc : Documented redis) where
  open doc use {
    look, incr-count, look-incr, look-expire, look-later, look-absent, incr-other, expire-other,
  }

  look-held :
      (n d t t' end : ℕ) (key : String) (s : redis.State)
      → look t key s ≡ held n d
      → end ≤ d
      → t ≤ t'
      → t' < end
      → look t' key s ≡ held n d
  look-held zero d t t' end key s h e le lt = look-absent t t' key s h le
  look-held (suc n) d t t' end key s h e le lt = look-later t t' key s (suc n) d h le (omega arith)

  module _ (t : ℕ) (key : String) (seconds : ℕ) (s : redis.State) (lasts : 0 < seconds) where
    -- The script's count, and the counter that it leaves.
    script-own :
        (n d : ℕ)
        → look t key s ≡ held n d
        → ((rate_limit_script redis t key seconds s).0.0 ≡ suc n)
          × (look t key (rate_limit_script redis t key seconds s).1
              ≡ held (suc n) (renewed n (t + seconds) d))
    unfolding rate_limit_script
    script-own zero d h =
        let first : (redis.incr t key s).0 ≡ 1 = rw (incr-count t key s, h) refl in
        let there : look t key (redis.incr t key s).1
            ≡ some (record { value = 1; deadline = none }) =
          rw (look-incr t key s, h) refl in
        rw first (refl, look-expire t key seconds _ _ lasts there)
    script-own (suc n) d h =
        let more : (redis.incr t key s).0 ≡ suc (suc n) = rw (incr-count t key s, h) refl in
        let there : look t key (redis.incr t key s).1 ≡ held (suc (suc n)) d =
          rw (look-incr t key s, h) refl in
        let late : (suc (suc n) == 1) ≡ false = ground arith in rw (more, late) (refl, there)

    script-other :
        (t' : ℕ) (other : String)
        → key ≢ other
        → look t' other (rate_limit_script redis t key seconds s).1 ≡ look t' other s
    unfolding rate_limit_script
    script-other t' other ne = elim (Bool-cases ((redis.incr t key s).0 == 1)) [
      | inl e ↦ rw e (expire-other t t' key other seconds _ ne ∙ incr-other t t' key other s ne)
      | inr e ↦ rw e (incr-other t t' key other s ne)
    ]

window-positive : (window : ℤ) → 0 < window_seconds window
window-positive (pos n) = ground arith
window-positive (negsuc n) = omega arith

judge-passes :
    (limiter : Limiter) (t count : ℕ) (ttl : ℤ)
    → is_next (judge limiter t (some (count, ttl))) ≡ leb count limiter.limit
unfolding judge
judge-passes limiter t count ttl = ground arith

module _ (env : Env) (distinct : Distinguishes env) (redis : Redis) (doc : Documented redis)
    (limiter : Limiter) (client : Identity) where
  open doc use {look}

  abbrev key : String
  key = limit_key env limiter client

  abbrev seconds : ℕ
  seconds = window_seconds limiter.window

  module _ (who : Identity) (n d t : ℕ) (s : redis.State) (h : look t key s ≡ held n d) where
    abbrev outcome : Verdict × redis.State
    outcome = rate_limiter env redis limiter who Contact.reached t s

    limiter-own :
        same_client who client ≡ true
        → (is_next outcome.0 ≡ leb (suc n) limiter.limit)
          × (look t key outcome.1 ≡ held (suc n) (renewed n (t + seconds) d))
    unfolding rate_limiter
    limiter-own e =
        let same : limit_key env limiter who ≡ key = same_client-key env limiter who client e in
        let (count, there) =
          script-own redis doc t key seconds s (window-positive limiter.window) n d h in
        rw same (judge-passes limiter t _ _ ∙ ap (λ c. leb c limiter.limit) count, there)

    limiter-other : same_client who client ≡ false → look t key outcome.1 ≡ held n d
    unfolding rate_limiter
    limiter-other e =
        script-other redis doc t (limit_key env limiter who) seconds s
          (window-positive limiter.window) t key (λ same. absurd (differ same))
        ∙ h
      where
        differ : limit_key env limiter who ≡ key → ⊥
        differ same = cc (e, limit_key-client env distinct limiter who client same)

  in_time : (n d t end : ℕ) → end ≤ d → end ≤ t + seconds → end ≤ renewed n (t + seconds) d
  in_time zero d t end hd hs = hs
  in_time (suc n) d t end hd hs = hd

  -- From a counter at `n` on.
  passes-from :
      (n d t end : ℕ) (requests : List (Identity × ℕ)) (s : redis.State)
      → look t key s ≡ held n d
      → end ≤ d
      → end ≤ t + seconds
      → InWindow t end requests
      → passes env redis limiter client requests s + capped limiter.limit n
        ≡ capped limiter.limit (n + arrivals env redis limiter client requests)
  passes-from n d t end [] s h hd hs inside = ground arith
  passes-from n d t end ((who, t') ∷ rest) s h hd hs (le, lt, inside) =
      let here = look-held redis doc n d t t' end key s h hd le lt in
      elim (Bool-cases (same_client who client)) [
        | inl e ↦
            let (v, there) = limiter-own who n d t' s here e in
            ground (
              arith,
              e,
              v,
              passes-from (suc n) (renewed n (t' + seconds) d) t' end rest _ there
                  (in_time n d t' end hd (omega arith)) (omega arith) inside,
            )
        | inr e ↦ ground (
          arith,
          e,
          passes-from n d t' end rest _ (limiter-other who n d t' s here e) hd (omega arith) inside,
        )
      ]

-- Where the ids of different users are written differently, on a Redis server that behaves as
-- documented and that every request reaches: where a client has no counter, the limiter lets exactly
-- the smaller of its limit and the number of the client's requests through, out of requests of any
-- users and addresses whose times do not go back and lie within a window's length of the start.
pub rate_limiter-bound :
    (env : Env) (redis : Redis) (doc : Documented redis) (limiter : Limiter) (client : Identity)
    (distinct : Distinguishes env) (t : ℕ) (requests : List (Identity × ℕ)) (s : redis.State)
    → doc.look t (limit_key env limiter client) s ≡ none
    → InWindow t (t + window_seconds limiter.window) requests
    → passes env redis limiter client requests s
      ≡ capped limiter.limit (arrivals env redis limiter client requests)
rate_limiter-bound env redis doc limiter client distinct t requests s fresh inside =
    let end = t + window_seconds limiter.window in
    let whole =
      passes-from env distinct redis doc limiter client 0 end t end requests s fresh (omega arith)
        (omega arith) inside in
    ground (arith, whole)
