-- ===== src/Handler/RateLimit/Keys.antt =====
-- The keys of the counters tell the clients apart.
use go_ewallet_backend.Prelude.{
  ℕ, String, ◌≡◌, sym, ◌∙◌, ap, Bool, true, false, ◌==◌, str_eq, eq_iff, arith,
}
use go_ewallet_backend.Runtime.{Env}
use go_ewallet_backend.Handler.RateLimit.{Identity, user, ip, Limiter, identifier, limit_key}
use text.Mathlib.TextLemmas.{append_cancel_left}
use Prim.Native.Char.{code}
use Prim.Native.String.append.{cons}
use Prim.Native.String.{[], ◌∷◌, ◌++◌ as concat}

-- Is it the same user, or the same address?
abbrev pub same_client : Identity → Identity → Bool
same_client (user a) (user b) = a == b
same_client (ip a) (ip b) = str_eq a b
same_client _ _ = false

-- `%v` writes different ids differently.
abbrev pub Distinguishes : Env → Type 0
Distinguishes env = (a b : ℕ) → env.format_float a ≡ env.format_float b → a ≡ b

starts_with_u : String → Bool
starts_with_u [] = false
starts_with_u (c ∷ s) = code c == 117

user_not_ip : (s t : String) → concat "user:" s ≡ concat "ip:" t → ⊥
unfolding starts_with_u
user_not_ip s t h = cc (ap starts_with_u (sym (cons "u" "ser:" s) ∙ h ∙ cons "i" "p:" t))

module _ (env : Env) (distinct : Distinguishes env) where
  identifier-client :
      (a b : Identity) → identifier env a ≡ identifier env b → same_client a b ≡ true
  identifier-client (user a) (user b) h =
      same_id a b (distinct a b (append_cancel_left "user:" _ _ h))
    where
      same_id : (a b : ℕ) → a ≡ b → (a == b) ≡ true
      same_id a b h = ground arith
  identifier-client (ip a) (ip b) h = (eq_iff a b).1 (append_cancel_left "ip:" _ _ h)
  identifier-client (user a) (ip b) h = absurd (user_not_ip _ _ h)
  identifier-client (ip a) (user b) h = absurd (user_not_ip _ _ (sym h))

  -- Two clients of a limiter share a counter only if they are the same.
  pub limit_key-client :
      (limiter : Limiter) (a b : Identity)
      → limit_key env limiter a ≡ limit_key env limiter b
      → same_client a b ≡ true
  limit_key-client limiter a b h = identifier-client a b (
      append_cancel_left ":" _ _
        (append_cancel_left limiter.action _ _ (append_cancel_left "rate_limit:" _ _ h)))

pub same_client-key :
    (env : Env) (limiter : Limiter) (a b : Identity)
    → same_client a b ≡ true
    → limit_key env limiter a ≡ limit_key env limiter b
same_client-key env limiter (user a) (user b) h =
    ap (λ n. limit_key env limiter (user n)) (same_number a b h)
  where
    same_number : (a b : ℕ) → (a == b) ≡ true → a ≡ b
    same_number a b h = ground arith
same_client-key env limiter (ip a) (ip b) h =
    ap (λ s. limit_key env limiter (ip s)) ((eq_iff a b).0 h)
same_client-key env limiter (user a) (ip b) h = cc h
same_client-key env limiter (ip a) (user b) h = cc h
