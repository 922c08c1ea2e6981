-- ===== src/Tests/Histories.antt =====
-- Pages of the ledger, of the top ups and of the transfers on small tables.
use go_ewallet_backend.Prelude.Table
use go_ewallet_backend.Prelude.Ordered.{all}
use go_ewallet_backend.Prelude.Descending.{InOrder, member-all}
use go_ewallet_backend.Prelude.Selection.{IsSelection}
use go_ewallet_backend.Prelude.{
  Option, ℕ, ◌≤◌, ◌≡◌, refl, sym, ap, ◌∙◌, ◌==◌, not, true, List, [], ◌∷◌, map,
}
use go_ewallet_backend.Prelude.Int.{pos, ◌-ℤ◌, ◌*ℤ◌}
use go_ewallet_backend.Prelude.Int64.{sub64, mul64, wrap}
use go_ewallet_backend.Model.{
  Db, Wallet, LedgerRow, TransferRow, TopUpRow, success, debit, has_user,
}
use go_ewallet_backend.Runtime.{World, ok, on_db, ◌>>=◌, DbError, Error, err}
use go_ewallet_backend.Repository.Wallet.Balances.{get_wallet_by_user_id, select_by_user}
use go_ewallet_backend.Repository.TopUp.{scan_top_up_order}
use go_ewallet_backend.Repository.History.{
  Planner, transfer_history, top_up_history, ledger_history, select_page, offset_of,
  ledger_history_row, transfer_history_row,
}
use go_ewallet_backend.Service.History.{get_history_transfer, get_top_up_orders, get_ledger_entries}
use go_ewallet_backend.Service.History.Listed.{
  Owns, TakesPart, IsPage, get_history_transfer-IsPage, get_top_up_orders-IsPage,
}
use go_ewallet_backend.Service.History.Walk.{Follows, IsKeyed, walk, get_ledger_entries-walk}
use go_ewallet_backend.Tests.Fixture.{start, calm, first_entry, first_order, two_wallets}
use mathlib.Core.List.{reverse, reverse_perm, Mem, eq-or-mem_of_mem-cons, not-mem-nil}
use mathlib.Core.Logic.Or
use mathlib.Core.List.Perm
use native.Mathlib.Omega.{arith}
use text.Mathlib.TextEquality.{IsScalar-prop}

abbrev pub in_table_order : Planner
in_table_order = record { arrange = λ n xs. xs; arrange-perm = λ n xs. Perm.refl xs }

abbrev backwards : Planner
backwards = record { arrange = λ n xs. reverse xs; arrange-perm = λ n xs. reverse_perm xs }

abbrev payment : ℕ → ℕ → TransferRow
payment id at = record {
  id = id;
  from_wallet_id = 1;
  to_wallet_id = 2;
  amount = pos 100;
  reference_id = "TRF";
  status = success;
  description = Option.none;
  idempotency_key_id = Option.none;
  sender_balance_before = Option.none;
  sender_balance_after = Option.none;
  recipient_balance_before = Option.none;
  recipient_balance_after = Option.none;
  created_by_user_id = Option.none;
  created_at = at;
}

abbrev spending : ℕ → ℕ → LedgerRow
spending id at = record first_entry { id = id; direction = debit; created_at = at }

abbrev busy : Db
busy = record two_wallets {
  transfers = payment 1 5 ∷ payment 2 9 ∷ payment 3 5 ∷ [];
  ledger_entries = first_entry ∷ spending 2 9 ∷ spending 3 5 ∷ spending 4 9 ∷ [];
}

abbrev busy_start : World
busy_start = record start { committed = busy }

-- Payments of one time come as the database comes upon them.
transfers_in_order :
    (get_history_transfer calm in_table_order 11 (pos 1) (pos 2) busy_start).0
    ≡ ok (map transfer_history_row (payment 2 9 ∷ payment 1 5 ∷ []))
unfolding get_history_transfer transfer_history get_wallet_by_user_id select_by_user select_page
    offset_of on_db ◌>>=◌ sub64 mul64 wrap ◌-ℤ◌ ◌*ℤ◌
transfers_in_order = refl

transfers_backwards :
    (get_history_transfer calm backwards 11 (pos 1) (pos 2) busy_start).0
    ≡ ok (map transfer_history_row (payment 2 9 ∷ payment 3 5 ∷ []))
unfolding get_history_transfer transfer_history get_wallet_by_user_id select_by_user select_page
    offset_of on_db ◌>>=◌ sub64 mul64 wrap ◌-ℤ◌ ◌*ℤ◌
transfers_backwards = refl

LedgerRow_set : IsSet LedgerRow
LedgerRow_set = hlevel (IsScalar-prop)

IsKeyed-cons :
    (x : LedgerRow) (rows : List LedgerRow)
    → all (λ r. not (r.id == x.id)) rows ≡ true
    → IsKeyed rows
    → IsKeyed (x ∷ rows)
IsKeyed-cons x rows fresh keyed a b ma mb e =
    let other : (r : LedgerRow) → Mem r rows → not (r.id == x.id) ≡ true =
      λ r m. member-all (λ z. not (z.id == x.id)) r rows fresh m in
    Or.elim (LedgerRow_set a b) (eq-or-mem_of_mem-cons ma)
      (λ ea.
        Or.elim (LedgerRow_set a b) (eq-or-mem_of_mem-cons mb) (λ eb. ea ∙ sym eb)
          (λ kb.
            let e' : b.id ≡ x.id = sym e ∙ ap (λ (r : LedgerRow). r.id) ea in
            ground (arith, e', other b kb)))
      (λ ka.
        Or.elim (LedgerRow_set a b) (eq-or-mem_of_mem-cons mb)
          (λ eb.
            let e' : a.id ≡ x.id = e ∙ ap (λ (r : LedgerRow). r.id) eb in
            ground (arith, e', other a ka))
          (λ kb. keyed a b ka kb e))

-- No two entries of the table have one id.
busy-IsKeyed : IsKeyed busy.ledger_entries
busy-IsKeyed = IsKeyed-cons _ _ refl (
    IsKeyed-cons _ _ refl
      (IsKeyed-cons _ _ refl (IsKeyed-cons _ _ refl (λ x y m. absurd (not-mem-nil m)))))

ledger_in_order :
    (get_ledger_entries calm in_table_order 11 (pos 2) (pos 3) busy_start).0
    ≡ ok (map ledger_history_row (first_entry ∷ []))
unfolding get_ledger_entries ledger_history select_page offset_of on_db ◌>>=◌ sub64 mul64 wrap ◌-ℤ◌
    ◌*ℤ◌
ledger_in_order = refl

-- The page 2^62 + 1 of four rows shows the first page: the offset wraps around to 0.
offset_wraps :
    (get_ledger_entries calm in_table_order 11 (pos 4611686018427387905) (pos 4) busy_start).0
    ≡ (get_ledger_entries calm in_table_order 11 (pos 1) (pos 4) busy_start).0
unfolding get_ledger_entries ledger_history select_page offset_of on_db ◌>>=◌ sub64 mul64 wrap ◌-ℤ◌
    ◌*ℤ◌
offset_wraps = refl

-- The page 2^61 + 1 asks for a negative offset.
offset_negative :
    (get_ledger_entries calm in_table_order 11 (pos 2305843009213693953) (pos 4) busy_start).0
    ≡ err (Error.db DbError.invalid_row_count)
unfolding get_ledger_entries ledger_history select_page offset_of on_db ◌>>=◌ sub64 mul64 wrap ◌-ℤ◌
    ◌*ℤ◌
offset_negative = refl

get_history_transfer-IsPage_example :
    (wallet : Wallet) × (Table.find? (has_user 11) busy.wallets ≡ Option.some wallet)
    × IsPage
        (TakesPart wallet.id)
        (λ a b. b.created_at ≤ a.created_at)
        transfer_history_row
        busy.transfers
        0
        2
        (map transfer_history_row (payment 2 9 ∷ payment 3 5 ∷ []))
    × (busy ≡ busy)
unfolding get_history_transfer transfer_history get_wallet_by_user_id select_by_user select_page
    offset_of on_db ◌>>=◌ sub64 mul64 wrap ◌-ℤ◌ ◌*ℤ◌
get_history_transfer-IsPage_example =
    get_history_transfer-IsPage calm backwards 11 0 1 busy_start _ _ refl (omega arith) refl

get_top_up_orders-IsPage_example :
    IsPage
      (λ (r : TopUpRow). Owns busy 11 r.wallet_id)
      (λ a b. b.created_at ≤ a.created_at)
      scan_top_up_order
      busy.top_up_orders
      0
      5
      (map scan_top_up_order (first_order ∷ []))
    × (busy ≡ busy)
unfolding get_top_up_orders top_up_history select_page offset_of on_db ◌>>=◌ sub64 mul64 wrap ◌-ℤ◌
    ◌*ℤ◌
get_top_up_orders-IsPage_example =
    get_top_up_orders-IsPage calm backwards 11 0 4 busy_start _ _ (omega arith) refl

get_ledger_entries-walk_example :
    (whole : List LedgerRow) × IsSelection
      (λ (r : LedgerRow). Owns busy 11 r.wallet_id)
      whole
      busy.ledger_entries
    × InOrder Follows whole
    × (w' : World) × (walk calm backwards 11 1 0 2 busy_start
        ≡ (ok (map ledger_history_row whole), w'))
    × (w'.committed ≡ busy)
get_ledger_entries-walk_example =
    get_ledger_entries-walk calm backwards 11 1 2 busy_start (λ i. refl) busy-IsKeyed (omega arith)
      (omega arith)
