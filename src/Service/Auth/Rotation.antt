-- ===== src/Service/Auth/Rotation.antt =====
-- internal/service/auth.go: the rotation of refresh tokens.
use go_ewallet_backend.Prelude.{
  ℕ, suc, ◌+◌, ◌≤◌, ltb, String, ◌≡◌, ◌∙◌, ap, false, some, [], ◌∷◌, ◌++◌, arith, Bool-cases, inl,
  inr,
}
use go_ewallet_backend.Prelude.Table.{find?, update_where}
use go_ewallet_backend.Model.{Db, RefreshToken, AuthResponse}
use go_ewallet_backend.Runtime.{Env, World, ok, save_new_refresh_token}
use go_ewallet_backend.Runtime.Inversion.{bind-ok, raise_if-then, gets-then, recover-ok}
use go_ewallet_backend.Repository.RefreshTokens.{has_hash, revoked}
use go_ewallet_backend.Service.Auth.{Crypto, Device, refresh, rotate, refuse_reuse, effective}
use go_ewallet_backend.Service.Auth.Exchange.{
  get_by_hash-ok, revoke_by_hash-ok, get_user-ok, issue_tokens-ok,
}

-- A live token has been exchanged: its row is revoked, and a fresh one of the same user is added,
-- which expires 30 days later. The first request reads the token, the second revokes it, the third
-- reads the user.
pub record Rotated (env : Env) (raw : String) (w : World) (r : AuthResponse) (c : Db) : Type 0 where
  pub stored : RefreshToken
  pub token : RefreshToken
  pub found : find? (has_hash (env.sha256_hex raw)) w.committed.refresh_tokens ≡ some stored
  pub live : stored.is_revoked ≡ false
  pub unexpired : env.now (suc w.clock) ≤ stored.expires_at
  pub same_user : token.user_id ≡ stored.user_id
  pub hash_of : token.token_hash ≡ env.sha256_hex r.refresh_token
  pub usable : token.is_revoked ≡ false
  pub lasts : token.expires_at ≡ env.now (suc (suc (suc w.clock))) + 2592000000000000
  pub result : c ≡ record w.committed {
    refresh_tokens =
        update_where (has_hash (env.sha256_hex raw)) revoked w.committed.refresh_tokens
        ++ token ∷ [];
  }

module _ (env : Env) (crypto : Crypto) (raw : String) (device : Device) (w : World)
    {r : AuthResponse} {w' : World} where
  rotate-Rotated :
      (stored : RefreshToken) (v : World)
      → find? (has_hash (env.sha256_hex raw)) w.committed.refresh_tokens ≡ some stored
      → stored.is_revoked ≡ false
      → v.committed ≡ w.committed
      → v.clock ≡ suc w.clock
      → rotate env crypto (env.sha256_hex raw) stored device v ≡ (ok r, w')
      → Rotated env raw w r w'.committed
  unfolding rotate
  rotate-Rotated stored v found live kept c1 h0 =
      let (fresh, h1) = raise_if-then _ _ _ (gets-then _ _ h0) in
      let (_, w1, s1, h2) = bind-ok _ _ h1 in
      let (done, c2) =
        revoke_by_hash-ok env v (env.sha256_hex raw) (recover-ok _ _ (λ e x f. cc f) s1) in
      let (user, w2, s2, h3) = bind-ok _ _ h2 in
      let (kept2, c3) = get_user-ok env w1 stored.user_id (recover-ok _ _ (λ e x f. cc f) s2) in
      let (_, h4) = raise_if-then _ _ _ h3 in
      let (token, same_user, hash_of, usable, lasts, issued) =
        issue_tokens-ok env w2 crypto save_new_refresh_token stored.user_id user.0
          (effective device stored) h4 in
      record {
        stored = stored;
        token = token;
        found = found;
        live = live;
        unexpired = not_past _ _ (rw c1 at fresh);
        same_user = same_user;
        hash_of = hash_of;
        usable = usable;
        lasts = lasts ∙ ap (λ n. env.now n + 2592000000000000) (c3 ∙ ap suc (c2 ∙ ap suc c1));
        result = chain w1 w2 token done kept2 issued;
      }
    where
      not_past : (e n : ℕ) → ltb e n ≡ false → n ≤ e
      not_past e n h = ground arith

      chain :
          (w1 w2 : World) (token : RefreshToken)
          → w1.committed ≡ record v.committed {
            refresh_tokens =
                update_where (has_hash (env.sha256_hex raw)) revoked v.committed.refresh_tokens;
          }
          → w2.committed ≡ w1.committed
          → w'.committed
            ≡ record w2.committed { refresh_tokens = w2.committed.refresh_tokens ++ token ∷ [] }
          → w'.committed ≡ record w.committed {
            refresh_tokens =
                update_where (has_hash (env.sha256_hex raw)) revoked w.committed.refresh_tokens
                ++ token ∷ [];
          }
      chain w1 w2 token done k2 issued =
          issued
          ∙ ap (λ (d : Db). record d { refresh_tokens = d.refresh_tokens ++ token ∷ [] })
              (k2
                ∙ done
                ∙ ap
                    (λ (d : Db). record d {
                      refresh_tokens =
                          update_where (has_hash (env.sha256_hex raw)) revoked d.refresh_tokens;
                    })
                    kept)

  pub refresh-Rotated :
      refresh env crypto raw device w ≡ (ok r, w') → Rotated env raw w r w'.committed
  unfolding refresh refuse_reuse
  refresh-Rotated h0 =
      let (stored, v, s1, h1) = bind-ok _ _ h0 in
      let (found, kept, c1) =
        get_by_hash-ok env w (env.sha256_hex raw) (recover-ok _ _ (λ e x f. cc f) s1) in
      elim (Bool-cases stored.is_revoked) [
        | inl gone ↦ absurd (refused stored.user_id v (rw gone at h1))
        | inr live ↦ rotate-Rotated stored v found live kept c1 (rw live at h1)
      ]
    where
      refused : (user_id : ℕ) (v : World) → refuse_reuse env user_id v ≡ (ok r, w') → ⊥
      refused user_id v h = let (_, _, _, raised) = bind-ok _ _ h in cc raised
