-- ===== src/Repository/Users.antt =====
-- internal/repository/user.go
use go_ewallet_backend.Prelude.{
  ℕ, suc, String, Bool, ◌||◌, Option, none, some, [], ◌∷◌, ◌++◌, str_eq, if◌then◌else◌,
}
use go_ewallet_backend.Prelude.Table.{find?, any}
use go_ewallet_backend.Model.{Db, User}
use go_ewallet_backend.Runtime.{
  DbError, Error, Result, ok, err, email_already_registered, is_unique_violation, Env, Exec, pure,
  raise, recover, ◌>>=◌, Stmt, query, in_tx, on_db,
}
use go_ewallet_backend.Repository.Column.{is_user, returning}

abbrev pub has_email : String → User → Bool
has_email email u = str_eq u.email email

abbrev pub add_user : User → Db → Result Db
add_user row d =
    if any (is_user row.id) d.users || any (has_email row.email) d.users
    then err (Error.db DbError.unique_violation)
    else ok (record d { users = d.users ++ row ∷ [] })

-- `INSERT INTO users (email, password) VALUES ($1, $2) RETURNING id`
unfoldable pub insert_user : String → String → Stmt ℕ
insert_user email password_hash t d s =
    let id = suc s.users in
    (
      returning id (add_user (record { id = id; email = email; password = password_hash }) d),
      record s { users = id },
    )

unfoldable pub create_tx : Env → String → String → Exec ℕ
create_tx env email password_hash =
    recover (in_tx env (insert_user email password_hash))
      (λ e. raise (if is_unique_violation e then email_already_registered else e))

abbrev id_and_password : Option User → ℕ × String
id_and_password none = (0, "")
id_and_password (some u) = (u.id, u.password)

unfoldable pub select_by_email : String → Stmt (Option User)
select_by_email email = query (λ t d. find? (has_email email) d.users)

-- No row gives the id 0.
unfoldable pub get_by_email : Env → String → Exec (ℕ × String)
get_by_email env email = do row ← on_db env (select_by_email email); pure (id_and_password row)

abbrev email_and_password : Option User → String × String
email_and_password none = ("", "")
email_and_password (some u) = (u.email, u.password)

unfoldable pub select_user : ℕ → Stmt (Option User)
select_user id = query (λ t d. find? (is_user id) d.users)

-- No row gives an empty email.
unfoldable pub get_by_id : Env → ℕ → Exec (String × String)
get_by_id env id = do row ← on_db env (select_user id); pure (email_and_password row)
