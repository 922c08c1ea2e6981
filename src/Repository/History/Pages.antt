-- ===== src/Repository/History/Pages.antt =====
-- The offset of a page, and what a paged query returns.
use go_ewallet_backend.Prelude.{ℕ, suc, ◌*◌, ◌≤◌, ◌≡◌, false, List, arith}
use go_ewallet_backend.Prelude.Int.{ℤ, pos, pos_part, ltb_ℤ, ◌-ℤ◌, ◌*ℤ◌}
use go_ewallet_backend.Prelude.Int64.{sub64, mul64, wrap-eq, IsInt64, max_int64}
use go_ewallet_backend.Prelude.Paging.{take, drop}
use go_ewallet_backend.Model.{Db}
use go_ewallet_backend.Runtime.{Env, World, ok, on_db, tick}
use go_ewallet_backend.Repository.History.{offset_of, select_page}
use native.Mathlib.Nat.{mul-suc}

-- The last row of the page before fits an int64.
abbrev pub Fits : ℕ → ℕ → Type 0
Fits k limit = k * limit ≤ pos_part max_int64

pos-IsInt64 : (n : ℕ) → n ≤ pos_part max_int64 → IsInt64 (pos n)
pos-IsInt64 n h = ground arith

minus_one : (k : ℕ) → pos (suc k) -ℤ pos 1 ≡ pos k
unfolding ◌-ℤ◌
minus_one k = ground arith

times : (k n : ℕ) → pos k *ℤ pos n ≡ pos (k * n)
unfolding ◌*ℤ◌
times k n = ground arith

le_times : (k n : ℕ) → k ≤ k * suc n
le_times k n = omega (arith, mul-suc k n)

-- The offset of the page `k + 1` does not wrap around.
pub offset_of-exact :
    (k n : ℕ) → Fits k (suc n) → offset_of (pos (suc k)) (pos (suc n)) ≡ pos (k * suc n)
unfolding offset_of sub64 mul64
offset_of-exact k n h =
    rw (minus_one k, wrap-eq (pos k) (pos-IsInt64 k (omega (arith, le_times k n))), times k (suc n))
      (wrap-eq (pos (k * suc n)) (pos-IsInt64 (k * suc n) h))

module _ {A : Type 0} (env : Env) (limit offset : ℤ) (rows : Db → List A) (w : World) where
  -- The rows that a page shows.
  abbrev pub shown : List A
  shown = take (pos_part limit) (drop (pos_part offset) (rows w.committed))

  pub select_page-ok :
      {xs : List A} {w' : World}
      → on_db env (select_page limit offset rows) w ≡ (ok xs, w')
      → (xs ≡ shown) × (w'.committed ≡ w.committed)
  unfolding on_db select_page
  select_page-ok h = (ground arith, ground arith)

  pub select_page-runs :
      env.fault w.clock ≡ false
      → ltb_ℤ limit (pos 0) ≡ false
      → ltb_ℤ offset (pos 0) ≡ false
      → on_db env (select_page limit offset rows) w ≡ (ok shown, tick w)
  unfolding on_db select_page
  select_page-runs fine p q = ground arith
