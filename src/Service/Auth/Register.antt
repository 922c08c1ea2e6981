-- ===== src/Service/Auth/Register.antt =====
-- internal/service/auth.go: what a registration commits.
use go_ewallet_backend.Prelude.{
  ℕ, String, ◌≡◌, refl, sym, ◌∙◌, ap, subst, false, List, [], ◌∷◌, ◌++◌, arith,
}
use go_ewallet_backend.Prelude.Int.{ℤ, pos, ◌+ℤ◌, +ℤ-zero}
use go_ewallet_backend.Prelude.Table.{any}
use go_ewallet_backend.Model.{Db, User, Wallet, has_id, has_user}
use go_ewallet_backend.Runtime.{Env, World, Error, Result, ok, err, active}
use go_ewallet_backend.Runtime.Atomicity.{Quiet, Atomic, quiet_rules, atomic_rules}
use go_ewallet_backend.Runtime.Inversion.{
  Ran, bind-ok, or_raise-then, recover-ok, in_tx-ok, begin_tx-ok, commit-ok, with_rollback-ok,
  pure-ok,
}
use go_ewallet_backend.Repository.Users
use go_ewallet_backend.Repository.Users.{insert_user}
use go_ewallet_backend.Repository.Wallet.Balances
use go_ewallet_backend.Repository.Wallet.Balances.{insert_wallet}
use go_ewallet_backend.Service.Auth.{Crypto, register, register_in_tx}
use go_ewallet_backend.Service.Books.{IsSound}
use go_ewallet_backend.Service.Books.Rows.{total_balance}
use go_ewallet_backend.Service.Books.Opened.{Agree-open}

module _ (env : Env) (crypto : Crypto) (email password : String) where
  Quiet-create_user : (hash : String) → Quiet (Users.create_tx env email hash)
  unfolding Users.create_tx
  Quiet-create_user hash = search quiet_rules depth 20

  Quiet-create_wallet : (user_id : ℕ) → Quiet (Balances.create_tx env user_id)
  unfolding Balances.create_tx
  Quiet-create_wallet user_id = search quiet_rules depth 20

  pub Atomic-register : Atomic (register env crypto email password)
  unfolding register register_in_tx
  Atomic-register = search (atomic_rules, Quiet-create_user, Quiet-create_wallet) depth 30

  -- A registration that fails, for whatever reason, leaves every committed table as it was: no user
  -- without a wallet.
  pub register-atomic :
      (w : World) {e : Error}
      → (register env crypto email password w).0 ≡ err e
      → (register env crypto email password w).1.committed ≡ w.committed
  register-atomic w h = ground (arith, Atomic-register.at w)

-- The user and an empty wallet.
pub record Registered (email : String) (d : Db) (user_id : ℕ) (c : Db) : Type 0 where
  pub user : User
  pub wallet : Wallet
  pub is_user : (user.id ≡ user_id) × (user.email ≡ email)
  pub is_wallet : (wallet.user_id ≡ user_id) × (wallet.balance ≡ pos 0)
  pub id_free : any (has_id wallet.id) d.wallets ≡ false
  pub no_wallet : any (has_user user_id) d.wallets ≡ false
  pub result : c ≡ record d { users = d.users ++ user ∷ []; wallets = d.wallets ++ wallet ∷ [] }

insert_user-done :
    (email hash : String) {t : ℕ} {d : Db} {w : World} {id : ℕ} {v : World}
    (r : Ran (insert_user email hash) t d w id v)
    → r.done
      ≡ record d { users = d.users ++ record { id = id; email = email; password = hash } ∷ [] }
unfolding insert_user
insert_user-done email hash r = ground (arith, r.ran)

abbrev empty_wallet : ℕ → ℕ → ℕ → Wallet
empty_wallet t id user_id = record {
  id = id;
  user_id = user_id;
  balance = pos 0;
  currency = "IDR";
  created_at = t;
  updated_at = t;
}

insert_wallet-done :
    (user_id : ℕ) {t : ℕ} {d : Db} {w : World} {id : ℕ} {v : World}
    (r : Ran (insert_wallet user_id) t d w id v)
    → (r.done ≡ record d { wallets = d.wallets ++ empty_wallet t id user_id ∷ [] })
      × (any (has_id id) d.wallets ≡ false)
      × (any (has_user user_id) d.wallets ≡ false)
unfolding insert_wallet
insert_wallet-done user_id r = (ground (arith, r.ran), ground (arith, r.ran), ground (arith, r.ran))

module _ (env : Env) (crypto : Crypto) (email password : String) where
  register_in_tx-Registered :
      (t : ℕ) (d : Db) (w : World) {user_id : ℕ} {w' : World}
      → w.tx ≡ active t d
      → register_in_tx env crypto email password w ≡ (ok user_id, w')
      → Registered email d user_id w'.committed
  unfolding register_in_tx Users.create_tx Balances.create_tx
  register_in_tx-Registered t d w {user_id} {w'} opened h0 =
      let (hash, _, h1) = or_raise-then _ _ _ h0 in
      let (id, w1, s1, h2) = bind-ok _ _ h1 in
      let ran1 = in_tx-ok env _ t d w opened (recover-ok _ _ (λ e v f. cc f) s1) in
      let (wallet_id, w2, s2, h3) = bind-ok _ _ h2 in
      let ran2 =
        in_tx-ok env _ t _ w1 (ran1.left ∙ ap (active t) (insert_user-done email hash ran1)) s2 in
      let (done, free, none_yet) = insert_wallet-done id ran2 in
      let (_, w3, s3, h4) = bind-ok _ _ h3 in
      let (same, e) = pure-ok h4 in
      subst (λ i. Registered email d i w'.committed) (sym same)
        (record {
          user = record { id = id; email = email; password = hash };
          wallet = empty_wallet t wallet_id id;
          is_user = (refl, refl);
          is_wallet = (refl, refl);
          id_free = free;
          no_wallet = none_yet;
          result =
              ap (λ (v : World). v.committed) e
              ∙ commit-ok env w2 t _ (ran2.left ∙ ap (active t) done) s3;
        })

  -- A registration that returns has appended one user with the email and one wallet of the user,
  -- empty and the user's only one.
  pub register-Registered :
      (w : World) {user_id : ℕ} {w' : World}
      → register env crypto email password w ≡ (ok user_id, w')
      → Registered email w.committed user_id w'.committed
  unfolding register
  register-Registered w {user_id} {w'} h0 =
      let (_, w1, s1, h1) = bind-ok _ _ h0 in
      let (opened, _, _) = begin_tx-ok env w s1 in
      let (v, inside, kept, _) = with_rollback-ok _ h1 in
      subst (Registered email w.committed user_id) (sym kept)
        (register_in_tx-Registered (env.now w.clock) w.committed w1 opened inside)

Registered-IsSound :
    {email : String} {d : Db} {user_id : ℕ} {c : Db}
    → Registered email d user_id c
    → IsSound d
    → IsSound c
Registered-IsSound {d = d} x sound =
    subst IsSound (sym x.result)
      (Agree-open d.wallets d.ledger_entries x.wallet x.id_free x.is_wallet.1 sound.0, sound.1)

module _ (env : Env) (crypto : Crypto) (email password : String) (w : World) where
  register-cases :
      (o : Result ℕ × World)
      → register env crypto email password w ≡ o
      → IsSound w.committed
      → IsSound o.1.committed
  register-cases (err e, v) h sound =
      subst IsSound
        (sym (
          ap (λ (y : Result ℕ × World). y.1.committed) (sym h)
          ∙ register-atomic env crypto email password w (ap (λ (y : Result ℕ × World). y.0) h)))
        sound
  register-cases (ok user_id, v) h sound =
      Registered-IsSound (register-Registered env crypto email password w h) sound

  -- A registration, whatever fails, keeps the books in order if they were.
  pub register-IsSound :
      IsSound w.committed → IsSound (register env crypto email password w).1.committed
  register-IsSound sound = register-cases (register env crypto email password w) refl sound

total_balance-append :
    (ws : List Wallet) (w : Wallet)
    → w.balance ≡ pos 0
    → total_balance (ws ++ w ∷ []) ≡ total_balance ws
total_balance-append [] w h = rw h (+ℤ-zero (pos 0))
total_balance-append (x ∷ ws) w h = ap (λ (t : ℤ). x.balance +ℤ t) (total_balance-append ws w h)

-- A new wallet brings no money.
pub Registered-total :
    {email : String} {d : Db} {user_id : ℕ} {c : Db}
    → Registered email d user_id c
    → (total_balance c.wallets ≡ total_balance d.wallets) × (c.top_up_orders ≡ d.top_up_orders)
Registered-total {d = d} x = (
  ap (λ (e : Db). total_balance e.wallets) x.result
      ∙ total_balance-append d.wallets x.wallet x.is_wallet.1,
  ap (λ (e : Db). e.top_up_orders) x.result,
)
