-- ===== src/Service/Auth/Exchange.antt =====
-- The steps of a refresh that return.
use go_ewallet_backend.Prelude.{
  ℕ, suc, ◌+◌, String, ◌≡◌, refl, sym, ◌∙◌, ap, false, Option, none, some, [], ◌∷◌, ◌++◌, arith,
  Bool-cases, inl, inr,
}
use go_ewallet_backend.Prelude.Table.{find?, any, update_where}
use go_ewallet_backend.Model.{Db, Sequences, RefreshToken, AuthResponse}
use go_ewallet_backend.Runtime.{
  Env, World, Error, refresh_token_not_found, Result, ok, err, Stmt, on_db, settle_alone, or_raise,
}
use go_ewallet_backend.Runtime.Inversion.{bind-ok, gets-then, recover-ok, pure-ok}
use go_ewallet_backend.Repository.RefreshTokens
use go_ewallet_backend.Repository.RefreshTokens.{
  has_hash, revoked, select_by_hash, get_by_hash, revoke_hash, revoke_by_hash, insert_token,
}
use go_ewallet_backend.Repository.Users
use go_ewallet_backend.Repository.Users.{select_user}
use go_ewallet_backend.Service.Auth.{
  Crypto, Device, issue_tokens, refresh_token_duration, generate_token, generate_random_token,
  new_token,
}

module _ (env : Env) {A : Type 0} (f : Stmt A) (w : World) {a : A} {w' : World} where
  settle_alone-ok :
      (r : Result (A × Db) × Sequences)
      → settle_alone env w r ≡ (ok a, w')
      → r ≡ (ok (a, w'.committed), w'.seq)
  settle_alone-ok (ok (b, d), s) h = ground arith
  settle_alone-ok (err e, s) h = cc

  -- A statement of its own that returns has committed its tables.
  on_db-ok :
      on_db env f w ≡ (ok a, w')
      → f (env.now w.clock) w.committed w.seq ≡ (ok (a, w'.committed), w'.seq)
  unfolding on_db
  on_db-ok h = elim (Bool-cases (env.fault w.clock)) [
    | inl lost ↦ cc (rw lost at h)
    | inr fine ↦ settle_alone-ok (f (env.now w.clock) w.committed w.seq) (rw fine at h)
  ]

or_raise-ok :
    {A : Type 0} (o : Option A) (e : Error) (w : World) {a : A} {w' : World}
    → or_raise o e w ≡ (ok a, w')
    → (o ≡ some a) × (w' ≡ w)
or_raise-ok none e w h = cc
or_raise-ok (some b) e w h = (ground arith, ground arith)

module _ (env : Env) (w : World) {w' : World} where
  pub get_by_hash-ok :
      (hash : String) {stored : RefreshToken}
      → get_by_hash env hash w ≡ (ok stored, w')
      → (find? (has_hash hash) w.committed.refresh_tokens ≡ some stored)
        × (w'.committed ≡ w.committed)
        × (w'.clock ≡ suc w.clock)
  unfolding get_by_hash select_by_hash on_db
  get_by_hash-ok hash h0 =
      let (row, w1, s1, h1) = bind-ok _ _ h0 in
      let ran = on_db-ok env (select_by_hash hash) w s1 in
      let (is_row, e) = or_raise-ok row refresh_token_not_found w1 h1 in
      (ground (arith, ran, is_row), ground (arith, ran, e), ground (arith, s1, e))

  pub revoke_by_hash-ok :
      (hash : String) {u : Unit {0}}
      → revoke_by_hash env hash w ≡ (ok u, w')
      → (w'.committed ≡ record w.committed {
        refresh_tokens = update_where (has_hash hash) revoked w.committed.refresh_tokens;
      })
        × (w'.clock ≡ suc w.clock)
  unfolding revoke_by_hash revoke_hash on_db
  revoke_by_hash-ok hash h0 =
      let (n, w1, s1, h1) = bind-ok _ _ h0 in
      let ran = on_db-ok env (revoke_hash hash) w s1 in
      let (_, e) = pure-ok h1 in (ground (arith, ran, e), ground (arith, s1, e))

  pub get_user-ok :
      (id : ℕ) {user : String × String}
      → Users.get_by_id env id w ≡ (ok user, w')
      → (w'.committed ≡ w.committed) × (w'.clock ≡ suc w.clock)
  unfolding Users.get_by_id select_user on_db
  get_user-ok id h0 =
      let (row, w1, s1, h1) = bind-ok _ _ h0 in
      let ran = on_db-ok env (select_user id) w s1 in
      let (_, e) = pure-ok h1 in (ground (arith, ran, e), ground (arith, s1, e))

  -- The new token has been appended; no token had its hash.
  create_token-ok :
      (token : RefreshToken) {id : ℕ}
      → RefreshTokens.create env token w ≡ (ok id, w')
      → (w'.committed ≡ record w.committed {
        refresh_tokens = w.committed.refresh_tokens ++ record token { id = id } ∷ [];
      })
        × (any (has_hash token.token_hash) w.committed.refresh_tokens ≡ false)
  unfolding RefreshTokens.create insert_token
  create_token-ok token h0 =
      let ran = on_db-ok env (insert_token token) w h0 in (ground (arith, ran), ground (arith, ran))

module _ (env : Env) (w : World) {w' : World} where
  pub issue_tokens-ok :
      (crypto : Crypto) (wrap : Error → Error) (user_id : ℕ) (email : String) (device : Device)
      {r : AuthResponse}
      → issue_tokens env crypto wrap user_id email device w ≡ (ok r, w')
      → (token : RefreshToken) × (token.user_id ≡ user_id)
        × (token.token_hash ≡ env.sha256_hex r.refresh_token)
        × (token.is_revoked ≡ false)
        × (token.expires_at ≡ env.now w.clock + refresh_token_duration)
        × (w'.committed
            ≡ record w.committed { refresh_tokens = w.committed.refresh_tokens ++ token ∷ [] })
  unfolding issue_tokens generate_token generate_random_token
  issue_tokens-ok crypto wrap user_id email device {r} h0 =
      let (access, w1, s1, h1) = bind-ok _ _ h0 in
      let (_, e1) = or_raise-ok _ _ w (gets-then _ _ s1) in
      let (raw, w2, s2, h2) = bind-ok _ _ h1 in
      let (_, e2) = or_raise-ok _ _ w1 (gets-then _ _ s2) in
      let (id, w3, s3, h3) = bind-ok _ _ (gets-then _ _ h2) in
      let (returned, e3) = pure-ok h3 in
      let given = new_token user_id (env.sha256_hex raw) device (env.now w2.clock) in
      let (done, _) = create_token-ok env w2 given (recover-ok _ _ (λ e v f. cc f) s3) in
      (
        record given { id = id },
        refl,
        ap (λ (x : AuthResponse). env.sha256_hex x.refresh_token) (sym returned),
        refl,
        ap (λ (v : World). env.now v.clock + refresh_token_duration) (e2 ∙ e1),
        issued w2 w3 (record given { id = id }) (e2 ∙ e1) e3 done,
      )
    where
      issued :
          (w2 w3 : World) (token : RefreshToken)
          → w2 ≡ w
          → w' ≡ w3
          → w3.committed
            ≡ record w2.committed { refresh_tokens = w2.committed.refresh_tokens ++ token ∷ [] }
          → w'.committed
            ≡ record w.committed { refresh_tokens = w.committed.refresh_tokens ++ token ∷ [] }
      issued w2 w3 token e e3 done =
          ap (λ (v : World). v.committed) e3
          ∙ done
          ∙ ap
              (λ (v : World). record v.committed {
                refresh_tokens = v.committed.refresh_tokens ++ token ∷ [];
              })
              e
