-- ===== src/Service/Wallet/TopUp/Opened.antt =====
-- What opening a top up order has committed.
use go_ewallet_backend.Prelude.{
  ℕ, ◌≡◌, sym, ◌∙◌, ap, subst, false, some, [], ◌∷◌, ◌++◌, ◌==◌, String, inl, inr, ◌⊎◌, Bool-cases,
}
use go_ewallet_backend.Prelude.Table.{any, find?, update_where}
use go_ewallet_backend.Model.{
  Db, Wallet, wallet_topup_create, IdempotencyReserveResult, TopUpOrder, TopUpRow,
  CreateTopUpRequest, WalletResponse, has_user, has_key_id,
}
use go_ewallet_backend.Runtime.{Env, World, Payload, active, Result, ok, err}
use go_ewallet_backend.Runtime.Inversion.{
  bind-ok, begin_tx-ok, commit-ok, with_rollback-ok, lift-then, pure-ok,
}
use go_ewallet_backend.Repository.Column.{not_positive}
use go_ewallet_backend.Repository.Ledger.{has_order_id}
use go_ewallet_backend.Repository.Idempotency.{completed_with}
use go_ewallet_backend.Repository.TopUp
use go_ewallet_backend.Repository.TopUp.{scan_top_up_order, order_row, is_order_of}
use go_ewallet_backend.Repository.TopUpStatements.{scan_row-ok, insert_order-done}
use go_ewallet_backend.Service.Books.{IsSound}
use go_ewallet_backend.Service.Books.Orders.{append-UniqueOrders}
use go_ewallet_backend.Service.Reservation.Fresh.{Fresh, reserve-Fresh, reserved_db}
use go_ewallet_backend.Service.Wallet.Atomicity.{create_top_up-atomic}
use go_ewallet_backend.Service.Wallet.Existing.{resolve_existing_top_up_create}
use go_ewallet_backend.Service.Wallet.Lookup.{get_wallet_by_user_id-ok}
use go_ewallet_backend.Service.Wallet.Quiet.{Quiet-reserve, Quiet-resolve_existing, Quiet-scan_row}
use go_ewallet_backend.Service.Wallet.Steps.{generate_reference-ok, complete_idempotency-ok}
use go_ewallet_backend.Service.Wallet.TopUp.{
  with_channel, create_reserved, create_in_tx, create_top_up_with, create_top_up,
}

-- A pending order of the wallet, and the reservation completed with it.
pub record Opened (wallet_id key_id : ℕ) (req : CreateTopUpRequest) (t : ℕ) (d : Db)
    (r : TopUpOrder) (c : Db) : Type 0 where
  pub row : TopUpRow
  pub reference : String
  pub returned : r ≡ scan_top_up_order row
  pub shape : row ≡ order_row row.id t wallet_id key_id reference req
  pub id_free : any (has_order_id row.id) d.top_up_orders ≡ false
  pub positive : not_positive req.amount ≡ false
  pub result : c ≡ record d {
    top_up_orders = d.top_up_orders ++ row ∷ [];
    idempotency_keys =
        update_where (has_key_id key_id) (completed_with t "top_up_order" r.id) d.idempotency_keys;
  }

create_reserved-Opened :
    (env : Env) (wallet_id key_id : ℕ) (req : CreateTopUpRequest) (nonzero : (key_id == 0) ≡ false)
    (t : ℕ) (d : Db) (w : World) {r : TopUpOrder} {w' : World} (opened : w.tx ≡ active t d)
    → create_reserved env wallet_id key_id req w ≡ (ok r, w')
    → Opened wallet_id key_id req t d r w'.committed
unfolding create_reserved TopUp.create_tx
create_reserved-Opened env wallet_id key_id req nonzero t d w {r} {w'} opened h0 =
    let (reference, w1, s1, h1) = bind-ok _ _ h0 in
    let l1 : w1.tx ≡ active t d =
      ap (λ (v : World). v.tx) (generate_reference-ok env w opened "TUP" s1) ∙ opened in
    let (given, w2, s2, h2) = bind-ok _ _ h1 in
    let (row, ran, is_row) = scan_row-ok env _ t _ w1 l1 s2 in
    let (shape, e2, free, positive, _) = insert_order-done wallet_id key_id reference req ran in
    let (_, w3, s3, h3) = bind-ok _ _ h2 in
    let (l3, _) =
      complete_idempotency-ok env w2 (ran.left ∙ ap (active t) e2) key_id "top_up_order" given.id
        nonzero s3 in
    let (_, w4, s4, h4) = bind-ok _ _ h3 in
    let (same, e) = pure-ok h4 in
    subst (λ (x : TopUpOrder). Opened wallet_id key_id req t d x w'.committed) (sym same)
      (record {
        row = row;
        reference = reference;
        returned = is_row;
        shape = shape;
        id_free = free;
        positive = positive;
        result = ap (λ (v : World). v.committed) e ∙ commit-ok env w3 t _ l3 s4;
      })

-- A creation under a new key, from the committed tables `d₀` to `c`.
pub record Creation (user_id : ℕ) (key : String) (req : CreateTopUpRequest) (d₀ : Db)
    (r : TopUpOrder) (c : Db) : Type 0 where
  pub wallet : Wallet
  pub holder : find? (has_user user_id) d₀.wallets ≡ some wallet
  pub time : ℕ
  pub reservation : IdempotencyReserveResult
  pub reserved_in : World
  pub fresh : Fresh user_id wallet_topup_create key time d₀ reservation reserved_in
  pub opened : Opened wallet.id reservation.key.id req time (reserved_db d₀ reservation.key) r c

module _ (env : Env) (user_id : ℕ) (key : String) where
  kept_by_read :
      (x : IdempotencyReserveResult) (v : World) {r : TopUpOrder} {w' : World}
      → resolve_existing_top_up_create env x v ≡ (ok r, w')
      → w'.committed ≡ v.committed
  unfolding resolve_existing_top_up_create TopUp.get_by_id
  kept_by_read x v h =
      sym (ap (λ (y : Result TopUpOrder × World). y.1.committed) h)
      ∙ (Quiet-resolve_existing _ x.key.resource_id x.key.status
            (λ id. Quiet-scan_row env (TopUp.select_order id))).at
          v

  create_in_tx-cases :
      (wallet : Wallet) (req : CreateTopUpRequest) (t : ℕ) (d₀ : Db) (w : World) {r : TopUpOrder}
      {w' : World}
      → find? (has_user user_id) d₀.wallets ≡ some wallet
      → w.tx ≡ active t d₀
      → create_in_tx env user_id wallet.id key req w ≡ (ok r, w')
      → (w'.committed ≡ w.committed) ⊎ Creation user_id key req d₀ r w'.committed
  unfolding create_in_tx
  create_in_tx-cases wallet req t d₀ w {r} {w'} holder opened h0 =
      let payload = Payload.create_top_up req in
      let (reservation, w1, s1, h1) = bind-ok _ _ h0 in
      let kept : w1.committed ≡ w.committed =
        sym (ap (λ (x : Result IdempotencyReserveResult × World). x.1.committed) s1)
        ∙ (Quiet-reserve env user_id wallet_topup_create key payload).at w in
      elim (Bool-cases reservation.is_new) [
        | inl new ↦
            let fresh =
              reserve-Fresh env user_id wallet_topup_create key payload t d₀ w opened new s1 in
            inr (record {
              wallet = wallet;
              holder = holder;
              time = t;
              reservation = reservation;
              reserved_in = w1;
              fresh = fresh;
              opened =
                  create_reserved-Opened env wallet.id reservation.key.id req fresh.nonzero t
                    (reserved_db d₀ reservation.key) w1 fresh.left (rw new at h1);
            })
        | inr old ↦ inl (kept_by_read reservation w1 (rw old at h1) ∙ kept)
      ]

  create_with-cases :
      (req : CreateTopUpRequest) (w : World) {r : TopUpOrder} {w' : World}
      → create_top_up_with env user_id key req w ≡ (ok r, w')
      → (w'.committed ≡ w.committed) ⊎ Creation user_id key req w.committed r w'.committed
  unfolding create_top_up_with
  create_with-cases req w {r} {w'} h0 =
      let (x, w1, s1, h1) = bind-ok _ _ h0 in
      let (wallet, holder, e, kept1) = get_wallet_by_user_id-ok env user_id w s1 in
      let (_, _, h2) = lift-then _ _ h1 in
      let (_, w2, s2, h3) = bind-ok _ _ h2 in
      let (opened, kept2, _) = begin_tx-ok env w1 s2 in
      let (v, inside, kept3, _) = with_rollback-ok _ h3 in
      conclude w1 w2 v kept1 kept2 kept3 (
        create_in_tx-cases wallet req (env.now w1.clock) w.committed w2 holder
          (opened ∙ ap (active (env.now w1.clock)) kept1)
          (subst (λ (y : WalletResponse). create_in_tx env user_id y.id key req w2 ≡ (ok r, v)) e
            inside))
    where
      conclude :
          (w1 w2 v : World)
          → w1.committed ≡ w.committed
          → w2.committed ≡ w1.committed
          → w'.committed ≡ v.committed
          → (v.committed ≡ w2.committed) ⊎ Creation user_id key req w.committed r v.committed
          → (w'.committed ≡ w.committed) ⊎ Creation user_id key req w.committed r w'.committed
      conclude w1 w2 v k1 k2 k3 (inl same) = inl (k3 ∙ same ∙ k2 ∙ k1)
      conclude w1 w2 v k1 k2 k3 (inr done) =
          inr (subst (λ c. Creation user_id key req w.committed r c) (sym k3) done)

  -- A creation that returns has changed nothing, or it is one under a new key.
  pub create-cases :
      (req : CreateTopUpRequest) (w : World) {r : TopUpOrder} {w' : World}
      → create_top_up env user_id key req w ≡ (ok r, w')
      → (w'.committed ≡ w.committed)
        ⊎ Creation user_id key (with_channel req) w.committed r w'.committed
  unfolding create_top_up
  create-cases req w h = create_with-cases (with_channel req) w h

pub Creation-IsSound :
    {user_id : ℕ} {key : String} {req : CreateTopUpRequest} {d₀ : Db} {r : TopUpOrder} {c : Db}
    → Creation user_id key req d₀ r c
    → IsSound d₀
    → IsSound c
Creation-IsSound {d₀ = d₀} x sound =
    subst IsSound (sym x.opened.result)
      (sound.0, append-UniqueOrders d₀.top_up_orders x.opened.row x.opened.id_free sound.1)

module _ (env : Env) (user_id : ℕ) (key : String) (req : CreateTopUpRequest) (w : World) where
  -- To know what a creation commits it is enough to know what it commits under a new key.
  pub committed-by-create :
      (P : Db → Type 0)
      → P w.committed
      → ((r : TopUpOrder) (c : Db) → Creation user_id key (with_channel req) w.committed r c → P c)
      → (o : Result TopUpOrder × World) → create_top_up env user_id key req w ≡ o
      → P o.1.committed
  committed-by-create P before after (err e, v) h =
      subst P
        (sym (
          ap (λ (y : Result TopUpOrder × World). y.1.committed) (sym h)
          ∙ create_top_up-atomic env w user_id key req
              (ap (λ (y : Result TopUpOrder × World). y.0) h)))
        before
  committed-by-create P before after (ok r, v) h = elim (create-cases env user_id key req w h) [
    | inl same ↦ subst P (sym same) before
    | inr x ↦ after r v.committed x
  ]
