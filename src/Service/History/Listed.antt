-- ===== src/Service/History/Listed.antt =====
-- What a page of the transfer history and of the top ups shows.
use go_ewallet_backend.Prelude.{
  ℕ, suc, ◌*◌, ◌≤◌, ◌≡◌, ◌∙◌, sym, ◌⊎◌, inl, inr, refl, ap, subst, List, [], ◌∷◌, map, some, arith,
  Bool, true, false, ◌&&◌, ◌||◌, ◌==◌, Bool-cases,
}
use go_ewallet_backend.Prelude.Int.{pos, pos_part}
use go_ewallet_backend.Prelude.Ordered.{sort_by, sort_by-perm, sort_by-IsOrdered}
use go_ewallet_backend.Prelude.Descending.{InOrder, IsOrdered-InOrder}
use go_ewallet_backend.Prelude.Selection.{
  IsSelection, select_where-IsSelection, Perm-IsSelection, union-perm, any-member, member-any,
}
use go_ewallet_backend.Prelude.Paging.{take, drop}
use go_ewallet_backend.Prelude.Table.{find?, any}
use go_ewallet_backend.Model.{
  Db, Wallet, WalletResponse, has_user, TransferRow, TransferHistory, TopUpRow, TopUpOrder,
}
use go_ewallet_backend.Runtime.{Env, World, ok, gets, pure, ◌>>=◌, on_db}
use go_ewallet_backend.Runtime.Inversion.{bind-ok, gets-then, pure-ok}
use go_ewallet_backend.Repository.History.{
  Planner, offset_of, select_page, transfer_history, newer_transfer, transfers_of, is_wallet_of,
  transfer_history_row, top_up_history, newer_order, orders_of, sent_by, received_by,
}
use go_ewallet_backend.Repository.History.Pages.{Fits, offset_of-exact, select_page-ok}
use go_ewallet_backend.Repository.TopUp.{scan_top_up_order}
use go_ewallet_backend.Service.History.{get_history_transfer, get_top_up_orders}
use go_ewallet_backend.Service.Wallet.Lookup.{get_wallet_by_user_id-ok}
use mathlib.Core.List.{Mem}
use mathlib.Core.List.Perm

-- Some wallet of the user has this id.
abbrev pub Owns : Db → ℕ → ℕ → Type 0
Owns d user_id wallet_id =
    (x : Wallet) × Mem x d.wallets × (x.id ≡ wallet_id) × (x.user_id ≡ user_id)

pub is_wallet_of-Owns :
    (d : Db) (user_id wallet_id : ℕ)
    → is_wallet_of user_id d.wallets wallet_id ≡ true
    → Owns d user_id wallet_id
is_wallet_of-Owns d user_id wallet_id h =
    let (x, m, e) = any-member _ d.wallets h in (x, m, ground (arith, e), ground (arith, e))

pub Owns-is_wallet_of :
    (d : Db) (user_id wallet_id : ℕ)
    → Owns d user_id wallet_id
    → is_wallet_of user_id d.wallets wallet_id ≡ true
Owns-is_wallet_of d user_id wallet_id (x, m, e, e') =
    member-any _ x d.wallets m (ground (arith, e, e'))

-- The wallet has sent the money or received it.
abbrev pub TakesPart : ℕ → TransferRow → Type 0
TakesPart wallet_id r = (r.from_wallet_id ≡ wallet_id) ⊎ (r.to_wallet_id ≡ wallet_id)

abbrev pub pays_itself : TransferRow → Bool
pays_itself r = r.from_wallet_id == r.to_wallet_id

one_side :
    (wallet_id : ℕ) (rows : List TransferRow)
    → any pays_itself rows ≡ false
    → any (λ r. sent_by wallet_id r && received_by wallet_id r) rows ≡ false
one_side wallet_id [] h = refl
one_side wallet_id (r ∷ rows) h = ground (arith, h, one_side wallet_id rows)

takes_part :
    (wallet_id : ℕ) (r : TransferRow)
    → (sent_by wallet_id r || received_by wallet_id r) ≡ true
    → TakesPart wallet_id r
takes_part wallet_id r h = elim (Bool-cases (sent_by wallet_id r)) [
  | inl e ↦ inl (ground (arith, e))
  | inr e ↦ inr (ground (arith, e, h))
]

part_taken :
    (wallet_id : ℕ) (r : TransferRow)
    → TakesPart wallet_id r
    → (sent_by wallet_id r || received_by wallet_id r) ≡ true
part_taken wallet_id r (inl e) = ground (arith, e)
part_taken wallet_id r (inr e) = ground (arith, e)

transfers_of-IsSelection :
    (wallet_id : ℕ) (d : Db)
    → any pays_itself d.transfers ≡ false
    → IsSelection (TakesPart wallet_id) (transfers_of wallet_id d) d.transfers
transfers_of-IsSelection wallet_id d h =
    Perm-IsSelection
      (union-perm (sent_by wallet_id) (received_by wallet_id) d.transfers
        (one_side wallet_id d.transfers h))
      (select_where-IsSelection _ (takes_part wallet_id) (part_taken wallet_id) d.transfers)

-- `xs` is the page `k + 1`, of `n` rows, of the rows of a table that meet the condition `P`, in the
-- order `R`.
pub record IsPage {A B : Type 0} (P : A → Type 0) (R : A → A → Type 0) (show : A → B)
    (table : List A) (k n : ℕ) (xs : List B) : Type 0 where
  pub whole : List A
  pub complete : IsSelection P whole table
  pub ordered : InOrder R whole
  pub shows : xs ≡ map show (take n (drop (k * n) whole))

module _ {A B : Type 0} (le : A → A → Bool) (R : A → A → Type 0) (show : A → B) (planner : Planner)
    (env : Env) (rows : Db → List A) (meaning : (x y : A) → le x y ≡ true → R x y)
    (total : (x y : A) → le x y ≡ false → le y x ≡ true)
    (trans : (x y z : A) → le x y ≡ true → le y z ≡ true → le x z ≡ true) where
  -- Sorting whatever order the database comes upon makes pages.
  paged_query-IsPage :
      {P : A → Type 0} {table : List A} (k n : ℕ) (w : World) {xs : List B} {w' : World}
      → IsSelection P (rows w.committed) table
      → Fits k (suc n)
      → (gets (λ (v : World). v.clock) >>= λ c.
            on_db env (
              select_page
                (pos (suc n))
                (offset_of (pos (suc k)) (pos (suc n)))
                (λ d. sort_by le (planner.arrange c (rows d))))
            >>= λ found. pure (map show found))
          w
        ≡ (ok xs, w')
      → IsPage P R show table k (suc n) xs × (w'.committed ≡ w.committed)
  paged_query-IsPage k n w chosen fits h0 =
      let h1 = gets-then _ _ h0 in
      let (found, w1, s1, h2) = bind-ok _ _ h1 in
      let (e, kept) = select_page-ok env _ _ _ w s1 in
      let (e', same) = pure-ok h2 in
      let met = planner.arrange w.clock (rows w.committed) in
      (
        record {
          whole = sort_by le met;
          complete =
              Perm-IsSelection
                (Perm.trans (sort_by-perm le met) (planner.arrange-perm w.clock (rows w.committed)))
                chosen;
          ordered =
              IsOrdered-InOrder le R meaning (sort_by le met)
                (sort_by-IsOrdered le total trans met);
          shows =
              e'
              ∙ ap (map show) (
                  e
                  ∙ ap (λ o. take (suc n) (drop (pos_part o) (sort_by le met)))
                      (offset_of-exact k n fits));
        },
        ap (λ (v : World). v.committed) same ∙ kept,
      )

-- A page of the transfer history that is returned lists the rows of that page of a list that holds
-- every transfer which the user's wallet sent or received, and no other, with none before a newer
-- one, where no transfer goes from a wallet to itself and the rows of the pages before number less
-- than 2^63; reading it changes no table.
pub get_history_transfer-IsPage :
    (env : Env) (planner : Planner) (user_id k n : ℕ) (w : World) (xs : List TransferHistory)
    (w' : World)
    → any pays_itself w.committed.transfers ≡ false
    → Fits k (suc n)
    → get_history_transfer env planner user_id (pos (suc k)) (pos (suc n)) w ≡ (ok xs, w')
    → (wallet : Wallet) × (find? (has_user user_id) w.committed.wallets ≡ some wallet)
      × IsPage
          (TakesPart wallet.id)
          (λ a b. b.created_at ≤ a.created_at)
          transfer_history_row
          w.committed.transfers
          k
          (suc n)
          xs
      × (w'.committed ≡ w.committed)
unfolding get_history_transfer transfer_history
get_history_transfer-IsPage env planner user_id k n w xs w' apart fits h0 =
    let (x, w1, s1, h1) = bind-ok _ _ h0 in
    let (row, found, e, kept) = get_wallet_by_user_id-ok env user_id w s1 in
    let same : row.id ≡ x.id = sym (ap (λ (r : WalletResponse). r.id) e) in
    let (page, kept') =
      paged_query-IsPage newer_transfer (λ a b. b.created_at ≤ a.created_at) transfer_history_row
        planner env (transfers_of x.id) (λ a b h. ground arith) (λ a b h. ground arith)
        (λ a b c h h'. ground arith) k n w1
        (subst (λ d. IsSelection (TakesPart row.id) (transfers_of x.id d) w.committed.transfers)
          (sym kept)
          (subst
            (λ i. IsSelection (TakesPart row.id) (transfers_of i w.committed) w.committed.transfers)
            same (transfers_of-IsSelection row.id w.committed apart)))
        fits h1 in
    (row, found, page, kept' ∙ kept)

-- A page of the top ups that is returned lists the rows of that page of a list that holds every
-- order of a wallet of the user, and no other, with none before a newer one, where the rows of the
-- pages before number less than 2^63; reading it changes no table.
pub get_top_up_orders-IsPage :
    (env : Env) (planner : Planner) (user_id k n : ℕ) (w : World) (xs : List TopUpOrder)
    (w' : World)
    → Fits k (suc n)
    → get_top_up_orders env planner user_id (pos (suc k)) (pos (suc n)) w ≡ (ok xs, w')
    → IsPage
        (λ (r : TopUpRow). Owns w.committed user_id r.wallet_id)
        (λ a b. b.created_at ≤ a.created_at)
        scan_top_up_order
        w.committed.top_up_orders
        k
        (suc n)
        xs
      × (w'.committed ≡ w.committed)
unfolding get_top_up_orders top_up_history
get_top_up_orders-IsPage env planner user_id k n w xs w' fits h =
    paged_query-IsPage newer_order (λ a b. b.created_at ≤ a.created_at) scan_top_up_order planner
      env (orders_of user_id) (λ a b h. ground arith) (λ a b h. ground arith)
      (λ a b c h h'. ground arith) k n w
      (select_where-IsSelection _ (λ r. is_wallet_of-Owns w.committed user_id r.wallet_id)
        (λ r. Owns-is_wallet_of w.committed user_id r.wallet_id) w.committed.top_up_orders)
      fits h
