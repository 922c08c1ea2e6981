-- ===== src/Service/History/Walk.antt =====
-- A client that asks for the ledger page after page.
use go_ewallet_backend.Prelude.{
  ℕ, zero, suc, ◌+◌, ◌*◌, ◌≤◌, ◌≡◌, refl, subst, ap, ◌∙◌, ◌<◌, ◌⊎◌, inl, inr, true, false, List, [],
  ◌++◌, map, arith, ltb, Bool-cases,
}
use go_ewallet_backend.Prelude.Int.{pos}
use go_ewallet_backend.Prelude.Ordered.{
  IsOrdered, sort_by, sort_by-perm, sort_by-IsOrdered, length-sort_by,
}
use go_ewallet_backend.Prelude.Descending.{InOrder, IsOrdered-InOrder, ordered_unique}
use go_ewallet_backend.Prelude.Selection.{
  IsSelection, select_where-IsSelection, Perm-IsSelection, picked-Mem,
}
use go_ewallet_backend.Service.History.Listed.{Owns, is_wallet_of-Owns, Owns-is_wallet_of}
use go_ewallet_backend.Prelude.Paging.{length, take, drop, take-add, drop-add, take-all}
use go_ewallet_backend.Model.{Db, LedgerRow, LedgerEntryHistory}
use go_ewallet_backend.Runtime.{Env, World, ok, Exec, pure, ◌>>=◌, tick}
use go_ewallet_backend.Runtime.Forward.{bind-runs}
use go_ewallet_backend.Repository.History.{
  Planner, ledger_history, newer_entry, entries_of, ledger_history_row,
}
use go_ewallet_backend.Repository.History.Pages.{Fits, offset_of-exact, select_page-runs}
use go_ewallet_backend.Service.History.{get_ledger_entries}
use mathlib.Core.List.{Mem, map-append}
use mathlib.Core.List.Perm
use native.Mathlib.Nat.{suc-mul, zero-mul, add-mul}

-- `count` pages of `n + 1` entries each, the first of them page `k + 1`.
pub walk : Env → Planner → ℕ → ℕ → ℕ → ℕ → Exec (List LedgerEntryHistory)
walk env planner user_id n k zero = pure []
walk env planner user_id n k (suc count) = do
  xs ← get_ledger_entries env planner user_id (pos (suc k)) (pos (suc n))
  ys ← walk env planner user_id n (suc k) count
  pure (xs ++ ys)

-- So many requests later.
later : ℕ → World → World
later zero w = w
later (suc count) w = later count (tick w)

later-committed : (count : ℕ) (w : World) → (later count w).committed ≡ w.committed
unfolding later
later-committed zero w = refl
later-committed (suc count) w = later-committed count (tick w)

abbrev newest : ℕ → Db → List LedgerRow
newest user_id d = sort_by newer_entry (entries_of user_id d)

-- By time and, at one time, by id.
abbrev pub Follows : LedgerRow → LedgerRow → Type 0
Follows a b = (b.created_at < a.created_at) ⊎ ((b.created_at ≡ a.created_at) × (b.id ≤ a.id))

newer_entry-Follows : (a b : LedgerRow) → newer_entry a b ≡ true → Follows a b
newer_entry-Follows a b h = elim (Bool-cases (ltb b.created_at a.created_at)) [
  | inl e ↦ inl (ground (arith, e))
  | inr e ↦ inr (ground (arith, e, h), ground (arith, e, h))
]

-- `PRIMARY KEY (id)`
abbrev pub IsKeyed : List LedgerRow → Type 0
IsKeyed rows = (x y : LedgerRow) → Mem x rows → Mem y rows → x.id ≡ y.id → x ≡ y

entries_of-IsSelection :
    (user_id : ℕ) (d : Db)
    → IsSelection (λ r. Owns d user_id r.wallet_id) (entries_of user_id d) d.ledger_entries
entries_of-IsSelection user_id d =
    select_where-IsSelection _ (λ r. is_wallet_of-Owns d user_id r.wallet_id)
      (λ r. Owns-is_wallet_of d user_id r.wallet_id) d.ledger_entries

newest-IsOrdered : (rows : List LedgerRow) → IsOrdered newer_entry (sort_by newer_entry rows)
newest-IsOrdered rows =
    sort_by-IsOrdered newer_entry (λ a b h. ground arith) (λ a b c h h'. ground arith) rows

-- The order in which the database comes upon the entries does not show.
same_order :
    (planner : Planner) (i user_id : ℕ) (d : Db)
    → IsKeyed d.ledger_entries
    → sort_by newer_entry (planner.arrange i (entries_of user_id d)) ≡ newest user_id d
same_order planner i user_id d keyed =
    let rows = entries_of user_id d in
    let met = planner.arrange i rows in
    let permuted = Perm.trans (sort_by-perm newer_entry met) (planner.arrange-perm i rows) in
    let from_table : (x : LedgerRow) → Mem x (sort_by newer_entry met) → Mem x d.ledger_entries =
      λ x m. picked-Mem (entries_of-IsSelection user_id d) ((Perm.mem_iff permuted).0 m) in
    ordered_unique newer_entry (λ x. ground arith) (sort_by newer_entry met) (newest user_id d)
      (λ x y m m' h h'. keyed x y (from_table x m) (from_table y m') (ground (arith, h, h')))
      (newest-IsOrdered met) (newest-IsOrdered rows)
      (Perm.trans permuted (Perm.symm (sort_by-perm newer_entry rows)))

-- A page, and what the pages behind it show, are one stretch.
joined :
    (s k count : ℕ) (rows : List LedgerRow)
    → map ledger_history_row (take s (drop (k * s) rows))
        ++ map ledger_history_row (take (count * s) (drop (suc k * s) rows))
      ≡ map ledger_history_row (take (suc count * s) (drop (k * s) rows))
joined s k count rows =
    rw (suc-mul k s, ← drop-add (k * s) s rows, ← map-append)
      (ap (map ledger_history_row) (
        take-add s (count * s) (drop (k * s) rows)
        ∙ ap (λ m. take m (drop (k * s) rows)) (omega (arith, suc-mul count s))))

module _ (env : Env) (planner : Planner) (calm : (i : ℕ) → env.fault i ≡ false)
    (user_id n : ℕ) where
  page_runs :
      (k : ℕ) (w : World)
      → IsKeyed w.committed.ledger_entries
      → Fits k (suc n)
      → get_ledger_entries env planner user_id (pos (suc k)) (pos (suc n)) w ≡ (
        ok (map ledger_history_row (take (suc n) (drop (k * suc n) (newest user_id w.committed)))),
        tick w,
      )
  unfolding get_ledger_entries ledger_history ◌>>=◌
  page_runs k w keyed fits =
      rw
        (
          offset_of-exact k n fits,
          select_page-runs env (pos (suc n)) (pos (k * suc n))
              (λ d. sort_by newer_entry (planner.arrange w.clock (entries_of user_id d))) w
              (calm w.clock) (ground arith) (ground arith),
          same_order planner w.clock user_id w.committed keyed,
        )
        refl

  walk_runs :
      (count k : ℕ) (w : World)
      → IsKeyed w.committed.ledger_entries
      → Fits (k + count) (suc n)
      → walk env planner user_id n k count w ≡ (
        ok (
            map ledger_history_row
              (take (count * suc n) (drop (k * suc n) (newest user_id w.committed)))),
        later count w,
      )
  unfolding walk later
  walk_runs zero k w keyed fits = rw zero-mul refl
  walk_runs (suc count) k w keyed fits =
      bind-runs _ _ (page_runs k w keyed (omega (arith, add-mul k (suc count) (suc n))))
      ∙ bind-runs _ _
          (walk_runs count (suc k) (tick w) keyed (subst (λ m. Fits m (suc n)) (omega arith) fits))
      ∙ ap (λ xs. (ok xs, later count (tick w)))
          (joined (suc n) k count (newest user_id w.committed))

-- Where no request fails, ids tell the ledger's entries apart and the user's entries fit `count`
-- pages of `n + 1` whose rows number less than 2^63, the client's walk over these pages returns
-- just the entries of the wallets of the user, each once, the newer before the older and those of
-- one time by descending id, in whatever order the database comes upon them, and no table changes.
pub get_ledger_entries-walk :
    (env : Env) (planner : Planner) (user_id n count : ℕ) (w : World)
    → ((i : ℕ) → env.fault i ≡ false)
    → IsKeyed w.committed.ledger_entries
    → Fits count (suc n)
    → length (entries_of user_id w.committed) ≤ count * suc n
    → (whole : List LedgerRow) × IsSelection
        (λ (r : LedgerRow). Owns w.committed user_id r.wallet_id)
        whole
        w.committed.ledger_entries
      × InOrder Follows whole
      × (w' : World) × (walk env planner user_id n 0 count w
          ≡ (ok (map ledger_history_row whole), w'))
      × (w'.committed ≡ w.committed)
get_ledger_entries-walk env planner user_id n count w calm keyed fits few = (
  newest user_id w.committed,
  Perm-IsSelection (sort_by-perm newer_entry (entries_of user_id w.committed))
      (entries_of-IsSelection user_id w.committed),
  IsOrdered-InOrder newer_entry Follows newer_entry-Follows (newest user_id w.committed)
      (newest-IsOrdered (entries_of user_id w.committed)),
  later count w,
  walk_runs env planner calm user_id n count 0 w keyed
        (subst (λ m. Fits m (suc n)) (omega arith) fits)
      ∙ ap (λ xs. (ok (map ledger_history_row xs), later count w))
          (rw zero-mul (
            take-all (count * suc n) (newest user_id w.committed)
              (rw (length-sort_by newer_entry (entries_of user_id w.committed)) few))),
  later-committed count w,
)
