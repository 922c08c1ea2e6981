-- ===== src/Handler/Middleware/Blacklist.antt =====
-- A token after its logout.
use go_ewallet_backend.Prelude.{
  ℕ, ◌+◌, ◌≤◌, ◌<◌, ◌≡◌, refl, ap, ◌∙◌, String, Bool, true, false, Option, none, some, str_eq,
  arith, Bool-cases, inl, inr, eq_iff,
}
use go_ewallet_backend.Runtime.{Env, World}
use go_ewallet_backend.Runtime.Redis.{Redis, Documented, Entry, Contact}
use go_ewallet_backend.Service.Sessions.{
  cut_prefix, trim_prefix, blacklist_key, blacklist_token, is_token_blacklisted, drop_access_token,
  logout,
}
use go_ewallet_backend.Handler.Middleware.{
  Method, Claims, Access, next, unauthorized, key_function, admit, jwt_middleware,
}

-- The header lets its bearer in.
abbrev pub IsAdmitted : Access → Type 0
IsAdmitted access = (id : ℕ) × (email : String) × (access ≡ next id email)

module _ (parse : (Method → Bool) → ℕ → String → Option Claims) (redis : Redis) where
  admit-checked :
      (contact : Contact) (now : ℕ) (token : String) (s : redis.State) (found : Option Claims)
      (id : ℕ) (email : String)
      → admit parse redis contact now token s found ≡ next id email
      → (claims : Claims) × (found ≡ some claims)
        × (claims.id ≡ id)
        × (claims.email ≡ email)
        × (is_token_blacklisted redis contact now token s ≡ false)
  admit-checked contact now token s none id email h = cc
  admit-checked contact now token s (some claims) id email h =
      elim (Bool-cases (is_token_blacklisted redis contact now token s)) [
        | inl e ↦ cc (rw e at h)
        | inr e ↦ let h' = rw e at h in (claims, refl, cc, cc, e)
      ]

  prefix-checked :
      (contact : Contact) (now : ℕ) (s : redis.State) (cut : Option String) (id : ℕ)
      (email : String)
      → elim cut [
        | none ↦ unauthorized "Invalid authorization format"
        | some token ↦ admit parse redis contact now token s (parse key_function now token)
      ]
        ≡ next id email
      → (token : String) × (claims : Claims) × (cut ≡ some token)
        × (parse key_function now token ≡ some claims)
        × (claims.id ≡ id)
        × (claims.email ≡ email)
        × (is_token_blacklisted redis contact now token s ≡ false)
  prefix-checked contact now s none id email h = cc
  prefix-checked contact now s (some token) id email h =
      let (claims, e, i, m, b) =
        admit-checked contact now token s (parse key_function now token) id email h in
      (token, claims, refl, e, i, m, b)

  -- A request that the middleware lets through carries, behind "Bearer ", a token that parses with
  -- HMAC as its method to the user id and email that are handed on, and that is not on the
  -- blacklist as far as Redis answers.
  pub jwt_middleware-checked :
      (contact : Contact) (now : ℕ) (header : String) (s : redis.State) (id : ℕ) (email : String)
      → jwt_middleware parse redis contact now header s ≡ next id email
      → (token : String) × (claims : Claims) × (cut_prefix "Bearer " header ≡ some token)
        × (parse key_function now token ≡ some claims)
        × (claims.id ≡ id)
        × (claims.email ≡ email)
        × (is_token_blacklisted redis contact now token s ≡ false)
  unfolding jwt_middleware
  jwt_middleware-checked contact now header s id email h = elim (Bool-cases (str_eq header "")) [
    | inl e ↦ cc (rw e at h)
    | inr e ↦ prefix-checked contact now s (cut_prefix "Bearer " header) id email (rw e at h)
  ]

not_empty :
    (header token : String) → cut_prefix "Bearer " header ≡ some token → str_eq header "" ≡ false
unfolding cut_prefix
not_empty header token h = elim (Bool-cases (str_eq header "")) [
  | inl e ↦ let same : header ≡ "" = (eq_iff _ _).0 e in cc (rw same at h)
  | inr e ↦ e
]

trimmed : (p s : String) {rest : String} → cut_prefix p s ≡ some rest → trim_prefix p s ≡ rest
trimmed p s h = ap (λ o. elim o [ none ↦ s | some rest ↦ rest ]) h

module _ (redis : Redis) (doc : Documented redis) where
  -- The token's entry after a logout that has reached Redis.
  logout-entry :
      (env : Env) (t : ℕ) (header raw token : String) (s : redis.State) (w : World)
      → cut_prefix "Bearer " header ≡ some token
      → doc.look t (blacklist_key token) (logout env redis Contact.reached t header raw s w).1
        ≡ some (record { value = 1; deadline = some (t + 900) })
  unfolding logout drop_access_token blacklist_token
  logout-entry env t header raw token s w cut =
      rw (not_empty header token cut, trimmed "Bearer " header cut)
        (doc.look-set t (blacklist_key token) 900 s (omega arith))

  listed :
      (t : ℕ) (token : String) (s : redis.State) (e : Entry)
      → doc.look t (blacklist_key token) s ≡ some e
      → is_token_blacklisted redis Contact.reached t token s ≡ true
  unfolding is_token_blacklisted
  listed t token s e h = rw (doc.exists-look t (blacklist_key token) s, h) refl

-- After a logout that has reached a Redis server that behaves as documented, the middleware never
-- lets the token in again as long as Redis can be reached and the token's entry is left alone: not
-- before its entry expires, for it is on the blacklist, and not after, for the token itself has
-- then expired, if it was made before the logout with the duration of access tokens and `jwt.Parse`
-- refuses expired tokens.
pub logout-final :
    (env : Env) (parse : (Method → Bool) → ℕ → String → Option Claims) (redis : Redis)
    (doc : Documented redis) (t t' : ℕ) (header raw token : String) (s s' : redis.State) (w : World)
    → cut_prefix "Bearer " header ≡ some token
    → ((now : ℕ) (claims : Claims)
        → parse key_function now token ≡ some claims
        → (now < claims.exp) × (claims.exp ≤ t + 900))
    → ((u : ℕ)
        → doc.look u (blacklist_key token) s'
          ≡ doc.look u (blacklist_key token) (logout env redis Contact.reached t header raw s w).1)
    → t ≤ t'
    → ¬ IsAdmitted (jwt_middleware parse redis Contact.reached t' header s')
logout-final env parse redis doc t t' header raw token s s' w cut lives same le (id, email, h) =
    let (token', claims, cut', parsed, _, _, free) =
      jwt_middleware-checked parse redis Contact.reached t' header s' id email h in
    let e : token' ≡ token = cc in
    let (before, bound) = lives t' claims (rw e at parsed) in
    let there =
      doc.look-later t t' (blacklist_key token) s' 1 (t + 900)
        (same t ∙ logout-entry redis doc env t header raw token s w cut) le (omega arith) in
    let black = listed redis doc t' token s' _ there in cc (rw e at free)
