-- ===== src/Store/Reliable/Funds.antt =====
-- What the methods' writes do to the funds of one user, and to a transaction's status.
use mathlib.Core.Path.{subst}
use delayed_wallet_transacti.Prelude.{String, ◌≡◌, refl, sym, ap, ◌∙◌, ◌≢◌, some}
use delayed_wallet_transacti.Prelude.Int.{ℤ, ◌+ℤ◌, ◌-ℤ◌}
use delayed_wallet_transacti.Prelude.Table.{lookup, lookup-insert_same, lookup-insert_ne}
use delayed_wallet_transacti.Models.{Status, Transaction, Wallet}
use delayed_wallet_transacti.Dynamo.{Db}
use delayed_wallet_transacti.Store.CreateTransaction.Atomic.{Created}
use delayed_wallet_transacti.Store.SettleTransaction.Effects.{Locked, Settled}
use delayed_wallet_transacti.Store.CancelTransaction.Outcome.{Cancelled}

-- A user's wallet and its funds.
pub record Funds (user_id : String) (balance reserved : ℤ) (d : Db) : Type 0 where
  pub wallet : Wallet
  pub found : lookup user_id d.wallets ≡ some wallet
  pub same_balance : wallet.balance ≡ balance
  pub same_reserved : wallet.reserved ≡ reserved

-- A transaction's status.
pub record HasStatus (id : String) (s : Status) (d : Db) : Type 0 where
  pub stored : Transaction
  pub found : lookup id d.transactions ≡ some stored
  pub has_status : stored.status ≡ s

some_eq : {V : Type 0} (x y : V) → some x ≡ some y → x ≡ y
some_eq x y e = cc

-- The wallet of a user is the one that was found.
Funds-at :
    (k : String) (x : Wallet) (a b : ℤ) (d : Db)
    → lookup k d.wallets ≡ some x
    → Funds k a b d
    → (x.balance ≡ a) × (x.reserved ≡ b)
Funds-at k x a b d found f =
    let same : x ≡ f.wallet = some_eq x f.wallet (sym found ∙ f.found) in
    (ap Wallet.balance same ∙ f.same_balance, ap Wallet.reserved same ∙ f.same_reserved)

module _ (tx : Transaction) (d e : Db) where
  pub Created-Funds :
      (a b : ℤ)
      → Created tx d e
      → Funds tx.from_user_id a b d
      → Funds tx.from_user_id (a -ℤ tx.amount) (b +ℤ tx.amount) e
  Created-Funds a b c f =
      let (p, q) = Funds-at _ c.sender a b d c.found f in
      subst (Funds tx.from_user_id _ _) (sym c.result) (record {
        wallet = _;
        found = lookup-insert_same tx.from_user_id _ d.wallets;
        same_balance = ap (λ n. n -ℤ tx.amount) p;
        same_reserved = ap (λ n. n +ℤ tx.amount) q;
      })

  pub Created-other :
      (k : String) (a b : ℤ) → tx.from_user_id ≢ k → Created tx d e → Funds k a b d → Funds k a b e
  Created-other k a b ne c f = subst (Funds k a b) (sym c.result) (record {
    wallet = f.wallet;
    found = lookup-insert_ne _ _ _ d.wallets ne ∙ f.found;
    same_balance = f.same_balance;
    same_reserved = f.same_reserved;
  })

  pub Locked-Funds : (j k : String) (a b : ℤ) → Locked j d e → Funds k a b d → Funds k a b e
  Locked-Funds j k a b l f = subst (Funds k a b) (sym l.result) (record {
    wallet = f.wallet;
    found = f.found;
    same_balance = f.same_balance;
    same_reserved = f.same_reserved;
  })

  pub Settled-payer :
      (a b : ℤ)
      → Settled tx d e
      → Funds tx.from_user_id a b d
      → Funds tx.from_user_id a (b -ℤ tx.amount) e
  Settled-payer a b s f =
      let (p, q) = Funds-at _ s.sender a b d s.sender_found f in
      subst (Funds tx.from_user_id _ _) (sym s.result) (record {
        wallet = _;
        found =
            lookup-insert_ne _ _ _ _ (λ e. s.two_wallets (sym e))
            ∙ lookup-insert_same tx.from_user_id _ d.wallets;
        same_balance = p;
        same_reserved = ap (λ n. n -ℤ tx.amount) q;
      })

  pub Settled-payee :
      (a b : ℤ)
      → Settled tx d e
      → Funds tx.to_user_id a b d
      → Funds tx.to_user_id (a +ℤ tx.amount) b e
  Settled-payee a b s f =
      let (p, q) = Funds-at _ s.receiver a b d s.receiver_found f in
      subst (Funds tx.to_user_id _ _) (sym s.result) (record {
        wallet = _;
        found = lookup-insert_same tx.to_user_id _ _;
        same_balance = ap (λ n. n +ℤ tx.amount) p;
        same_reserved = q;
      })

  pub Settled-completed : Settled tx d e → HasStatus tx.id Status.completed e
  Settled-completed s =
      subst (HasStatus tx.id Status.completed) (sym s.result) (record {
        stored = _;
        found = lookup-insert_same tx.id _ d.transactions;
        has_status = refl;
      })

  pub Cancelled-Funds :
      (a b : ℤ)
      → Cancelled tx d e
      → Funds tx.from_user_id a b d
      → Funds tx.from_user_id (a +ℤ tx.amount) (b -ℤ tx.amount) e
  Cancelled-Funds a b c f =
      let (p, q) = Funds-at _ c.sender a b d c.sender_found f in
      subst (Funds tx.from_user_id _ _) (sym c.result) (record {
        wallet = _;
        found = lookup-insert_same tx.from_user_id _ d.wallets;
        same_balance = ap (λ n. n +ℤ tx.amount) p;
        same_reserved = ap (λ n. n -ℤ tx.amount) q;
      })

  pub Cancelled-status : Cancelled tx d e → HasStatus tx.id Status.cancelled e
  Cancelled-status c =
      subst (HasStatus tx.id Status.cancelled) (sym c.result) (record {
        stored = _;
        found = lookup-insert_same tx.id _ d.transactions;
        has_status = refl;
      })
