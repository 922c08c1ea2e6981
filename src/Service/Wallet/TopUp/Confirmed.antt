-- ===== src/Service/Wallet/TopUp/Confirmed.antt =====
-- What the confirmation of an order has committed.
use go_ewallet_backend.Prelude.{
  ℕ, ◌≡◌, refl, sym, ◌∙◌, ap, subst, true, false, some, [], ◌∷◌, ◌++◌, ◌==◌, String, inl, inr, ◌⊎◌,
}
use go_ewallet_backend.Prelude.Int.{ℤ}
use go_ewallet_backend.Prelude.Table.{find?, update_where}
use go_ewallet_backend.Model.{
  Db, Wallet, WalletBalanceSnapshot, OutboxEvent, OutboxStatus, TopUpOrder, TopUpRow, Status,
  success, ConfirmTopUpRequest, credit, has_id, has_key_id,
}
use go_ewallet_backend.Runtime.{Env, World, active, ok}
use go_ewallet_backend.Runtime.Inversion.{bind-ok, lift-then, pure-ok, commit-ok}
use go_ewallet_backend.Repository.Ledger.{ledger_row, progresses, has_order_id}
use go_ewallet_backend.Repository.Idempotency.{completed_with}
use go_ewallet_backend.Repository.TopUp.{
  scan_top_up_order, confirmed, mark_successful_tx, is_order_of, get_by_reference_id_for_user_tx,
}
use go_ewallet_backend.Repository.TopUpStatements.{
  scan_row-ok, mark_successful-done, select_order_of-done,
}
use go_ewallet_backend.Repository.Wallet.Balances.{all_fit, plus}
use go_ewallet_backend.Repository.Wallet.Funding.{
  funded, get_wallet_by_id_for_update_tx-ok, update_balance_by_wallet_id_tx-ok,
}
use go_ewallet_backend.Service.Amount.{validate_and_apply_top_up}
use go_ewallet_backend.Service.Wallet.Steps.{
  create_entry-ok, complete_idempotency-ok, publish_event_tx-ok,
}
use go_ewallet_backend.Service.Wallet.TopUp.{
  top_up_entry, confirm_description, pay_order, confirm_pending, confirm_order, confirm_reserved,
}

-- A pending order, paid into a wallet that held `before`; `d` holds the tables before.
pub record Paid (key_id : ℕ) (req : ConfirmTopUpRequest) (order : TopUpOrder) (before after : ℤ)
    (t : ℕ) (d : Db) (r : TopUpOrder) (c : Db) : Type 0 where
  pub row : TopUpRow
  pub fits : all_fit (has_id order.wallet_id) (plus order.amount) d.wallets ≡ true
  pub entry_id : ℕ
  pub event : OutboxEvent
  pub marked :
      find? (has_order_id order.id) (
        update_where
          (has_order_id order.id)
          (confirmed t req.external_reference (confirm_description req order) before after)
          d.top_up_orders)
      ≡ some row
  pub returned : r ≡ scan_top_up_order row
  pub event_pending : event.status ≡ OutboxStatus.pending
  pub event_type : event.event_type ≡ "topup.confirmed"
  pub event_amount : event.payload.amount ≡ r.amount
  pub entry_fits : progresses credit r.amount before after ≡ true
  pub result : c ≡ record d {
    wallets = update_where (has_id order.wallet_id) (funded t order.amount) d.wallets;
    top_up_orders =
        update_where
          (has_order_id order.id)
          (confirmed t req.external_reference (confirm_description req order) before after)
          d.top_up_orders;
    ledger_entries =
        d.ledger_entries
        ++ ledger_row entry_id t (top_up_entry r before after (confirm_description req order)) ∷ [];
    idempotency_keys =
        update_where
          (has_key_id key_id)
          (completed_with t "top_up_order_confirm" r.id)
          d.idempotency_keys;
    outbox_events = d.outbox_events ++ event ∷ [];
  }

pub record Funded (key_id : ℕ) (req : ConfirmTopUpRequest) (order : TopUpOrder) (t : ℕ) (d : Db)
    (r : TopUpOrder) (c : Db) : Type 0 where
  pub wallet : Wallet
  pub after : ℤ
  pub wallet_found : find? (has_id order.wallet_id) d.wallets ≡ some wallet
  pub valid : validate_and_apply_top_up wallet.balance order.amount ≡ ok after
  pub paid : Paid key_id req order wallet.balance after t d r c

module _ (env : Env) (user_id key_id : ℕ) (req : ConfirmTopUpRequest) (order : TopUpOrder)
    (nonzero : (key_id == 0) ≡ false) (t : ℕ) (d : Db) (w : World) {r : TopUpOrder} {w' : World}
    (opened : w.tx ≡ active t d) where
  pay_order-Paid :
      (before after : ℤ)
      → pay_order env user_id key_id req order before after w ≡ (ok r, w')
      → Paid key_id req order before after t d r w'.committed
  unfolding pay_order mark_successful_tx
  pay_order-Paid before after h0 =
      let description = confirm_description req order in
      let (_, w1, s1, h1) = bind-ok _ _ h0 in
      let (l1, in_range) =
        update_balance_by_wallet_id_tx-ok env order.wallet_id t d w opened order.amount s1 in
      let (given, w2, s2, h2) = bind-ok _ _ h1 in
      let (row, ran, is_row) = scan_row-ok env _ t _ w1 l1 s2 in
      let (e2, marked) = mark_successful-done _ _ _ _ _ ran in
      let (entry_id, w3, s3, h3) = bind-ok _ _ h2 in
      let (l3, fits, _) =
        create_entry-ok env w2 (ran.left ∙ ap (active t) e2)
          (top_up_entry given before after description) s3 in
      let (_, w4, s4, h4) = bind-ok _ _ h3 in
      let (l4, _) =
        complete_idempotency-ok env w3 l3 key_id "top_up_order_confirm" given.id nonzero s4 in
      let (_, w5, s5, h5) = bind-ok _ _ h4 in
      let (event, l5, pending, type, amount) =
        publish_event_tx-ok env w4 l4 "topup.confirmed" user_id given.amount s5 in
      let (_, w6, s6, h6) = bind-ok _ _ h5 in
      let (same, e) = pure-ok h6 in
      subst (λ (x : TopUpOrder). Paid key_id req order before after t d x w'.committed) (sym same)
        (record {
          row = row;
          fits = in_range;
          entry_id = entry_id;
          event = event;
          marked = marked;
          returned = is_row;
          event_pending = pending;
          event_type = type;
          event_amount = amount;
          entry_fits = fits;
          result = ap (λ (v : World). v.committed) e ∙ commit-ok env w5 t _ l5 s6;
        })

module _ (env : Env) (user_id key_id : ℕ) (req : ConfirmTopUpRequest) (order : TopUpOrder)
    (nonzero : (key_id == 0) ≡ false) (t : ℕ) (d : Db) (w : World) {r : TopUpOrder} {w' : World}
    (opened : w.tx ≡ active t d) where
  confirm_pending-Funded :
      confirm_pending env user_id key_id req order w ≡ (ok r, w')
      → Funded key_id req order t d r w'.committed
  unfolding confirm_pending
  confirm_pending-Funded h0 =
      let (x, w1, s1, h1) = bind-ok _ _ h0 in
      let (wallet, found, seen, l1) =
        get_wallet_by_id_for_update_tx-ok env order.wallet_id t d w opened s1 in
      let (after, valid, h2) = lift-then _ _ h1 in
      finish x wallet after w1 found (ap (λ (y : WalletBalanceSnapshot). y.balance) seen) l1 valid
        h2
    where
      finish :
          (x : WalletBalanceSnapshot) (wallet : Wallet) (after : ℤ) (w1 : World)
          → find? (has_id order.wallet_id) d.wallets ≡ some wallet
          → x.balance ≡ wallet.balance
          → w1.tx ≡ active t d
          → validate_and_apply_top_up x.balance order.amount ≡ ok after
          → pay_order env user_id key_id req order x.balance after w1 ≡ (ok r, w')
          → Funded key_id req order t d r w'.committed
      finish x wallet after w1 found e l1 valid h = record {
        wallet = wallet;
        after = after;
        wallet_found = found;
        valid = subst (λ b. validate_and_apply_top_up b order.amount ≡ ok after) e valid;
        paid =
            pay_order-Paid env user_id key_id req order nonzero t d w1 l1 wallet.balance after
              (subst (λ b. pay_order env user_id key_id req order b after w1 ≡ (ok r, w')) e h);
      }

-- An order that has been paid is given back; only the reservation is completed.
abbrev pub AlreadyPaid : ℕ → TopUpOrder → ℕ → Db → TopUpOrder → Db → Type 0
AlreadyPaid key_id order t d r c =
    (order.status ≡ success)
    × (r ≡ order)
    × (c ≡ record d {
      idempotency_keys =
          update_where (has_key_id key_id) (completed_with t "top_up_order_confirm" order.id)
            d.idempotency_keys;
    })

module _ (env : Env) (user_id key_id : ℕ) (req : ConfirmTopUpRequest) (order : TopUpOrder)
    (nonzero : (key_id == 0) ≡ false) (t : ℕ) (d : Db) (w : World) {r : TopUpOrder} {w' : World}
    (opened : w.tx ≡ active t d) where
  confirm_order-cases :
      (status : Status)
      → order.status ≡ status
      → confirm_order env user_id key_id req order status w ≡ (ok r, w')
      → AlreadyPaid key_id order t d r w'.committed
        ⊎ ((order.status ≡ Status.pending) × Funded key_id req order t d r w'.committed)
  unfolding confirm_order
  confirm_order-cases success is h0 =
      let (_, w1, s1, h1) = bind-ok _ _ h0 in
      let (l1, _) =
        complete_idempotency-ok env w opened key_id "top_up_order_confirm" order.id nonzero s1 in
      let (_, w2, s2, h2) = bind-ok _ _ h1 in
      let (same, e) = pure-ok h2 in
      inl (is, same, ap (λ (v : World). v.committed) e ∙ commit-ok env w1 t _ l1 s2)
  confirm_order-cases Status.failed is h0 = let (_, w1, s1, h1) = bind-ok _ _ h0 in cc h1
  confirm_order-cases Status.pending is h0 =
      inr (is, confirm_pending-Funded env user_id key_id req order nonzero t d w opened h0)

module _ (env : Env) (user_id key_id : ℕ) (req : ConfirmTopUpRequest) (reference : String)
    (nonzero : (key_id == 0) ≡ false) (t : ℕ) (d : Db) (w : World) {r : TopUpOrder} {w' : World}
    (opened : w.tx ≡ active t d) where
  -- The order is the user's, by its reference.
  pub confirm_reserved-cases :
      confirm_reserved env user_id key_id reference req w ≡ (ok r, w')
      → (row : TopUpRow) × (find? (is_order_of user_id reference d.wallets) d.top_up_orders
          ≡ some row)
        × (AlreadyPaid key_id (scan_top_up_order row) t d r w'.committed
            ⊎ (((scan_top_up_order row).status ≡ Status.pending)
                × Funded key_id req (scan_top_up_order row) t d r w'.committed))
  unfolding confirm_reserved get_by_reference_id_for_user_tx
  confirm_reserved-cases h0 =
      let (order, w1, s1, h1) = bind-ok _ _ h0 in
      let (row, ran, is_row) = scan_row-ok env _ t d w opened s1 in
      let (same, found) = select_order_of-done user_id reference ran in
      (row, found, finish order row w1 is_row (ran.left ∙ ap (active t) same) h1)
    where
      finish :
          (order : TopUpOrder) (row : TopUpRow) (w1 : World)
          → order ≡ scan_top_up_order row
          → w1.tx ≡ active t d
          → confirm_order env user_id key_id req order order.status w1 ≡ (ok r, w')
          → AlreadyPaid key_id (scan_top_up_order row) t d r w'.committed
            ⊎ (((scan_top_up_order row).status ≡ Status.pending)
                × Funded key_id req (scan_top_up_order row) t d r w'.committed)
      finish order row w1 e l1 h =
          confirm_order-cases env user_id key_id req (scan_top_up_order row) nonzero t d w1 l1
            (scan_top_up_order row).status refl
            (subst
              (λ (o : TopUpOrder). confirm_order env user_id key_id req o o.status w1 ≡ (ok r, w'))
              e h)
