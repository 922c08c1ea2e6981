-- ===== src/Service/Reservation/Completion.antt =====
-- The idempotency keys after a transaction that reserved a new key and completed it.
use go_ewallet_backend.Prelude.{
  ℕ, String, ◌≡◌, refl, ◌∙◌, ap, Bool, true, false, ◌||◌, List, [], ◌∷◌, ◌++◌, arith, eq_iff,
}
use go_ewallet_backend.Prelude.Table.{any, update_where, any-append, any-update_where}
use go_ewallet_backend.Model.{
  Db, Scope, IdempotencyKey, IdempotencyStatus, processing, completed, has_key, has_key_id,
  scope_eq,
}
use go_ewallet_backend.Repository.Idempotency.{key_row, completed_with}

-- The user has used the key in this scope.
abbrev pub IsUsed : ℕ → Scope → String → Db → Type 0
IsUsed user_id scope key d = any (has_key user_id scope key) d.idempotency_keys ≡ true

abbrev pub is_open : IdempotencyStatus → Bool
is_open completed = false
is_open processing = true
is_open IdempotencyStatus.failed = true

abbrev pub open_key : IdempotencyKey → Bool
open_key k = is_open k.status

-- Every record is completed.
abbrev pub IsSettled : Db → Type 0
IsSettled d = any open_key d.idempotency_keys ≡ false

pub record Completion (user_id : ℕ) (scope : Scope) (key : String) (d₀ c : Db) : Type 0 where
  pub row : IdempotencyKey
  pub time : ℕ
  pub hash : String
  pub resource_type : String
  pub resource_id : ℕ
  pub shape : row ≡ key_row row.id time user_id scope key hash
  pub keys :
      c.idempotency_keys
      ≡ update_where
          (has_key_id row.id)
          (completed_with time resource_type resource_id)
          (d₀.idempotency_keys ++ row ∷ [])

scope_eq_refl : (s : Scope) → scope_eq s s ≡ true
scope_eq_refl Scope.wallet_transfer = refl
scope_eq_refl Scope.wallet_topup_create = refl
scope_eq_refl Scope.wallet_topup_confirm = refl

-- The record holds the key that it was made for.
has_key-key_row :
    (id t user_id : ℕ) (scope : Scope) (key hash : String)
    → has_key user_id scope key (key_row id t user_id scope key hash) ≡ true
has_key-key_row id t user_id scope key hash = ground (arith, scope_eq_refl scope, eq_iff key key)

-- Once the record with the last id is completed, no record is open.
none_open :
    (t : ℕ) (resource_type : String) (resource_id : ℕ) (ks : List IdempotencyKey)
    (row : IdempotencyKey)
    → any open_key ks ≡ false
    → any open_key (
        update_where
          (has_key_id row.id)
          (completed_with t resource_type resource_id)
          (ks ++ row ∷ []))
      ≡ false
none_open t resource_type resource_id [] row h = ground arith
none_open t resource_type resource_id (k ∷ ks) row h =
    ground (arith, none_open t resource_type resource_id ks row)

module _ {user_id : ℕ} {scope : Scope} {key : String} {d₀ c : Db}
    (x : Completion user_id scope key d₀ c) where
  Completion-any :
      (u : ℕ) (s : Scope) (k : String)
      → any (has_key u s k) c.idempotency_keys
        ≡ (any (has_key u s k) d₀.idempotency_keys || has_key u s k x.row)
  Completion-any u s k =
      ap (any (has_key u s k)) x.keys
      ∙ any-update_where (has_key u s k) (has_key_id x.row.id)
          (completed_with x.time x.resource_type x.resource_id) (d₀.idempotency_keys ++ x.row ∷ [])
          (λ r. refl)
      ∙ any-append (has_key u s k) d₀.idempotency_keys x.row

  pub Completion-IsUsed : IsUsed user_id scope key c
  Completion-IsUsed = ground (
    arith,
    Completion-any user_id scope key,
    ap (has_key user_id scope key) x.shape,
    has_key-key_row x.row.id x.time user_id scope key x.hash,
  )

  pub Completion-keeps : (u : ℕ) (s : Scope) (k : String) → IsUsed u s k d₀ → IsUsed u s k c
  Completion-keeps u s k used = ground (arith, Completion-any u s k)

  pub Completion-IsSettled : IsSettled d₀ → IsSettled c
  Completion-IsSettled settled =
      ap (any open_key) x.keys
      ∙ none_open x.time x.resource_type x.resource_id d₀.idempotency_keys x.row settled
