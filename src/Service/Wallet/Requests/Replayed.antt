-- ===== src/Service/Wallet/Requests/Replayed.antt =====
-- A request that is sent again.
use go_ewallet_backend.Prelude.{ℕ, String, List, [], ◌∷◌, ◌≡◌, sym, subst, inl, inr, ◌⊎◌}
use go_ewallet_backend.Model.{Scope}
use go_ewallet_backend.Runtime.{Env, World}
use go_ewallet_backend.Service.Reservation.Completion.{
  IsUsed, IsSettled, Completion-IsUsed, Completion-keeps, Completion-IsSettled,
}
use go_ewallet_backend.Service.Wallet.Requests.{
  Request, serve, serve_all, user_of, scope_of, key_of,
}
use go_ewallet_backend.Service.Wallet.Requests.Keys.{serve-Effect}

-- A request under a key that its user has used in this scope changes no committed row.
pub serve-used :
    (env : Env) (r : Request) (w : World)
    → IsUsed (user_of r) (scope_of r) (key_of r) w.committed
    → (serve env r w).committed ≡ w.committed
serve-used env r w used = elim (serve-Effect env r w) [
  | inl same ↦ same
  | inr (_, free) ↦ cc (used, free)
]

serve-keeps :
    (env : Env) (r : Request) (w : World) (u : ℕ) (s : Scope) (k : String)
    → IsUsed u s k w.committed
    → IsUsed u s k (serve env r w).committed
serve-keeps env r w u s k used = elim (serve-Effect env r w) [
  | inl same ↦ subst (IsUsed u s k) (sym same) used
  | inr (done, _) ↦ Completion-keeps done u s k used
]

-- A key stays used.
pub serve_all-keeps :
    (rs : List (Env × Request)) (w : World) (u : ℕ) (s : Scope) (k : String)
    → IsUsed u s k w.committed
    → IsUsed u s k (serve_all rs w).committed
serve_all-keeps [] w u s k used = used
serve_all-keeps ((env, r) ∷ rs) w u s k used =
    serve_all-keeps rs (serve env r w) u s k (serve-keeps env r w u s k used)

-- At most once: of a request sent twice, whatever requests come in between, the first has changed
-- nothing or the second changes nothing.
pub serve-at_most_once :
    (env env' : Env) (r : Request) (between : List (Env × Request)) (w : World)
    → ((serve env r w).committed ≡ w.committed)
      ⊎ (let v = serve_all between (serve env r w) in (serve env' r v).committed ≡ v.committed)
serve-at_most_once env env' r between w = elim (serve-Effect env r w) [
  | inl same ↦ inl same
  | inr (done, _) ↦ inr (
      serve-used env' r (serve_all between (serve env r w)) (
        serve_all-keeps between (serve env r w) (user_of r) (scope_of r) (key_of r)
          (Completion-IsUsed done)))
]

-- No idempotency record is ever committed as processing or failed: if all are completed at the
-- start, all are after any sequence of requests, with any faults in between.
pub serve_all-IsSettled :
    (rs : List (Env × Request)) (w : World)
    → IsSettled w.committed
    → IsSettled (serve_all rs w).committed
serve_all-IsSettled [] w settled = settled
serve_all-IsSettled ((env, r) ∷ rs) w settled =
    serve_all-IsSettled rs (serve env r w) (elim (serve-Effect env r w) [
      | inl same ↦ subst IsSettled (sym same) settled
      | inr (done, _) ↦ Completion-IsSettled done settled
    ])
