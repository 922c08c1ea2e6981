-- ===== src/Runtime/Redis.antt =====
-- The Redis server, which keeps the token blacklist and the counters of the rate limiter: what the
-- commands that the code sends are documented to do.
use go_ewallet_backend.Prelude.{
  ℕ, suc, ◌+◌, ◌≤◌, ◌<◌, ◌≡◌, ◌≢◌, String, Bool, true, false, Option, none, some,
}
use go_ewallet_backend.Prelude.Int.{ℤ}

-- A number, and the second at which it expires.
pub record Entry : Type 0 where
  pub value : ℕ
  pub deadline : Option ℕ

-- Each command is given the time, in seconds.
pub record Redis : Type 1 where
  pub State : Type 0
  pub incr : ℕ → String → State → ℕ × State
  pub expire : ℕ → String → ℕ → State → State
  pub ttl : ℕ → String → State → ℤ
  -- `SET key 1 EX seconds`
  pub set : ℕ → String → ℕ → State → State
  pub exists : ℕ → String → State → Bool

abbrev pub counted : Option Entry → ℕ
counted none = 0
counted (some e) = e.value

abbrev pub deadline_of : Option Entry → Option ℕ
deadline_of none = none
deadline_of (some e) = e.deadline

abbrev pub is_there : Option Entry → Bool
is_there none = false
is_there (some _) = true

-- `look` says what a key holds at a time.
pub record Documented (r : Redis) : Type 0 where
  pub look : ℕ → String → r.State → Option Entry
  pub incr-count :
      (t : ℕ) (k : String) (s : r.State) → (r.incr t k s).0 ≡ suc (counted (look t k s))
  pub look-incr :
      (t : ℕ) (k : String) (s : r.State)
      → look t k (r.incr t k s).1
        ≡ some (record { value = suc (counted (look t k s)); deadline = deadline_of (look t k s) })
  pub look-expire :
      (t : ℕ) (k : String) (seconds : ℕ) (s : r.State) (e : Entry)
      → 0 < seconds
      → look t k s ≡ some e
      → look t k (r.expire t k seconds s) ≡ some (record e { deadline = some (t + seconds) })
  pub look-set :
      (t : ℕ) (k : String) (seconds : ℕ) (s : r.State)
      → 0 < seconds
      → look t k (r.set t k seconds s) ≡ some (record { value = 1; deadline = some (t + seconds) })
  pub exists-look : (t : ℕ) (k : String) (s : r.State) → r.exists t k s ≡ is_there (look t k s)
  -- A command leaves every other key alone.
  pub incr-other :
      (t t' : ℕ) (k k' : String) (s : r.State) → k ≢ k' → look t' k' (r.incr t k s).1 ≡ look t' k' s
  pub expire-other :
      (t t' : ℕ) (k k' : String) (seconds : ℕ) (s : r.State)
      → k ≢ k'
      → look t' k' (r.expire t k seconds s) ≡ look t' k' s
  pub set-other :
      (t t' : ℕ) (k k' : String) (seconds : ℕ) (s : r.State)
      → k ≢ k'
      → look t' k' (r.set t k seconds s) ≡ look t' k' s
  -- Until its deadline an entry stays.
  pub look-later :
      (t t' : ℕ) (k : String) (s : r.State) (v d : ℕ)
      → look t k s ≡ some (record { value = v; deadline = some d })
      → t ≤ t'
      → t' < d
      → look t' k s ≡ some (record { value = v; deadline = some d })
  pub look-absent :
      (t t' : ℕ) (k : String) (s : r.State) → look t k s ≡ none → t ≤ t' → look t' k s ≡ none

-- How a command fares on its way: its answer may be lost, or it may not arrive.
pub data Contact : Type 0 where
  reached answer_lost unreached : Contact

-- The effect of a command, and its answer; `none` is an error.
abbrev pub contacted : {S A : Type 0} → Contact → S → A × S → Option A × S
contacted Contact.reached s (a, s') = (some a, s')
contacted Contact.answer_lost s (a, s') = (none, s')
contacted Contact.unreached s (a, s') = (none, s)
