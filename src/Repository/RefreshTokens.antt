-- ===== src/Repository/RefreshTokens.antt =====
-- internal/repository/refresh_token.go
use go_ewallet_backend.Prelude.{
  ℕ, suc, String, Bool, true, ◌&&◌, ◌||◌, not, Option, [], ◌∷◌, ◌++◌, ◌==◌, str_eq, if◌then◌else◌,
}
use go_ewallet_backend.Prelude.Int.{ℤ, pos}
use go_ewallet_backend.Prelude.Table.{find?, any, update_where, count_where}
use go_ewallet_backend.Model.{Db, RefreshToken}
use go_ewallet_backend.Runtime.{
  DbError, Error, Result, ok, err, refresh_token_not_found, Env, Exec, pure, raise_if, or_raise,
  ◌>>=◌, Stmt, query, update, on_db,
}
use go_ewallet_backend.Repository.Column.{is_user, eq_ℤ, returning}

abbrev pub has_hash : String → RefreshToken → Bool
has_hash hash r = str_eq r.token_hash hash

abbrev pub has_token_id : ℕ → RefreshToken → Bool
has_token_id id r = r.id == id

-- What `Create` is given: the row without its id.
abbrev pub add_token : RefreshToken → Db → Result Db
add_token row d =
    if any (has_token_id row.id) d.refresh_tokens || any (has_hash row.token_hash) d.refresh_tokens
    then err (Error.db DbError.unique_violation)
    else if not (any (is_user row.user_id) d.users)
    then err (Error.db DbError.foreign_key_violation)
    else ok (record d { refresh_tokens = d.refresh_tokens ++ row ∷ [] })

unfoldable pub insert_token : RefreshToken → Stmt ℕ
insert_token token t d s =
    let id = suc s.refresh_tokens in
    (returning id (add_token (record token { id = id }) d), record s { refresh_tokens = id })

unfoldable pub create : Env → RefreshToken → Exec ℕ
create env token = on_db env (insert_token token)

unfoldable pub select_by_hash : String → Stmt (Option RefreshToken)
select_by_hash hash = query (λ t d. find? (has_hash hash) d.refresh_tokens)

unfoldable pub get_by_hash : Env → String → Exec RefreshToken
get_by_hash env hash = do
  row ← on_db env (select_by_hash hash)
  or_raise row refresh_token_not_found

abbrev pub revoked : RefreshToken → RefreshToken
revoked r = record r { is_revoked = true }

abbrev pub revoke_where : (RefreshToken → Bool) → Stmt ℕ
revoke_where p = update λ t d. ok (
  count_where p d.refresh_tokens,
  record d { refresh_tokens = update_where p revoked d.refresh_tokens },
)

unfoldable pub revoke_hash : String → Stmt ℕ
revoke_hash hash = revoke_where (has_hash hash)

unfoldable pub revoke_by_hash : Env → String → Exec (Unit {0})
revoke_by_hash env hash = do n ← on_db env (revoke_hash hash); pure tt

-- `WHERE user_id = $1 AND is_revoked = FALSE`
abbrev pub live_token_of : ℕ → RefreshToken → Bool
live_token_of user_id r = r.user_id == user_id && not r.is_revoked

unfoldable pub revoke_user : ℕ → Stmt ℕ
revoke_user user_id = revoke_where (live_token_of user_id)

unfoldable pub revoke_all_by_user_id : Env → ℕ → Exec (Unit {0})
revoke_all_by_user_id env user_id = do n ← on_db env (revoke_user user_id); pure tt

-- `WHERE id = $1 AND user_id = $2`
unfoldable pub revoke_session : ℕ → ℤ → Stmt ℕ
revoke_session user_id session_id =
    revoke_where (λ r. eq_ℤ (pos r.id) session_id && r.user_id == user_id)

unfoldable pub revoke_session_by_id : Env → ℕ → ℤ → Exec (Unit {0})
revoke_session_by_id env user_id session_id = do
  n ← on_db env (revoke_session user_id session_id)
  raise_if (n == 0) refresh_token_not_found
