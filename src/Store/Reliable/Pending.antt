-- ===== src/Store/Reliable/Pending.antt =====
-- A transfer that waits for its settlement, and one that has arrived, told by the funds of its two
-- users.
use mathlib.Core.Path.{subst}
use delayed_wallet_transacti.Prelude.{String, ◌≡◌, refl, sym, ap, ◌∙◌, ◌≢◌, some}
use delayed_wallet_transacti.Prelude.Int.{ℤ, pos, ◌+ℤ◌, ◌-ℤ◌, ◌≤ℤ◌, int_laws}
use delayed_wallet_transacti.Prelude.Table.{lookup, lookup-insert_same}
use delayed_wallet_transacti.Models.{Status, Transaction, Wallet}
use delayed_wallet_transacti.Dynamo.{Db}
use delayed_wallet_transacti.Store.CreateTransaction.Atomic.{Created}
use delayed_wallet_transacti.Store.SettleTransaction.Effects.{Locked, Settled}
use delayed_wallet_transacti.Store.Reliable.Settle.{Payable}
use delayed_wallet_transacti.Store.Reliable.Funds.{
  Funds, HasStatus, Created-Funds, Created-other, Locked-Funds, Settled-payer, Settled-payee,
  Settled-completed,
}

module _ (id from to : String) (amount : ℤ) (s r : Wallet) where
  -- The amount is reserved, where the users' wallets were `s` and `r`.
  pub record Pending (d : Db) : Type 0 where
    pub sender : Funds from (s.balance -ℤ amount) (s.reserved +ℤ amount) d
    pub receiver : Funds to r.balance r.reserved d
    pub waiting : HasStatus id Status.reserved d

  -- The amount has gone from one user to the other, and nothing stays reserved for it.
  pub record Arrived (d : Db) : Type 0 where
    pub sender : Funds from (s.balance -ℤ amount) s.reserved d
    pub receiver : Funds to (r.balance +ℤ amount) r.reserved d
    pub completed : HasStatus id Status.completed d

-- The transaction's id, its two parties and its amount.
pub record Names (x : Transaction) (id from to : String) (amount : ℤ) : Type 0 where
  pub id_same : x.id ≡ id
  pub from_same : x.from_user_id ≡ from
  pub to_same : x.to_user_id ≡ to
  pub amount_same : x.amount ≡ amount

abbrev pub named : (x : Transaction) → Names x x.id x.from_user_id x.to_user_id x.amount
named x = record { id_same = refl; from_same = refl; to_same = refl; amount_same = refl }

module _ (C : (id from to : String) → (amount : ℤ) → Type 0) where
  -- What holds of those four holds of the transaction's.
  pub Names-subst :
      (x : Transaction) (id from to : String) (amount : ℤ)
      → Names x id from to amount
      → C id from to amount
      → C x.id x.from_user_id x.to_user_id x.amount
  Names-subst x id from to amount n c =
      subst (λ k. C k x.from_user_id x.to_user_id x.amount) (sym n.id_same)
        (subst (λ k. C id k x.to_user_id x.amount) (sym n.from_same)
          (subst (λ k. C id from k x.amount) (sym n.to_same)
            (subst (C id from to) (sym n.amount_same) c)))

  pub Names-back :
      (x : Transaction) (id from to : String) (amount : ℤ)
      → Names x id from to amount
      → C x.id x.from_user_id x.to_user_id x.amount
      → C id from to amount
  Names-back x id from to amount n c = subst (C id from to) n.amount_same (
      subst (λ k. C id from k x.amount) n.to_same
        (subst (λ k. C id k x.to_user_id x.amount) n.from_same
          (subst (λ k. C k x.from_user_id x.to_user_id x.amount) n.id_same c)))

at_least_own : (n a b : ℤ) → pos 0 ≤ℤ a → b ≡ a +ℤ n → n ≤ℤ b
at_least_own n a b h e = subst (λ x. n ≤ℤ x) (sym e) (omega int_laws)

back : (a n : ℤ) → (a +ℤ n) -ℤ n ≡ a
back a n = omega int_laws

pub stored_now :
    (tx : Transaction) (d e : Db) → Created tx d e → lookup tx.id e.transactions ≡ some tx
stored_now tx d e c =
    ap (λ (x : Db). lookup tx.id x.transactions) c.result
    ∙ lookup-insert_same tx.id tx d.transactions

module _ (tx : Transaction) (s r : Wallet) where
  pub Created-Pending :
      (d e : Db)
      → lookup tx.from_user_id d.wallets ≡ some s
      → lookup tx.to_user_id d.wallets ≡ some r
      → tx.from_user_id ≢ tx.to_user_id
      → Created tx d e
      → Pending tx.id tx.from_user_id tx.to_user_id tx.amount s r e
  Created-Pending d e s_found r_found two c = record {
    sender =
        Created-Funds tx d e _ _ c
          (record { wallet = s; found = s_found; same_balance = refl; same_reserved = refl });
    receiver =
        Created-other tx d e tx.to_user_id _ _ two c
          (record { wallet = r; found = r_found; same_balance = refl; same_reserved = refl });
    waiting = record { stored = tx; found = stored_now tx d e c; has_status = c.is_reserved };
  }

  module _ (e : Db) (p : Pending tx.id tx.from_user_id tx.to_user_id tx.amount s r e) where
    pub Pending-Payable :
        tx.from_user_id ≢ tx.to_user_id → pos 0 ≤ℤ s.reserved → Payable tx Status.reserved e
    Pending-Payable two none_owed = record {
      stored = p.waiting.stored;
      sender = p.sender.wallet;
      receiver = p.receiver.wallet;
      stored_found = p.waiting.found;
      sender_found = p.sender.found;
      receiver_found = p.receiver.found;
      has_status = p.waiting.has_status;
      two_wallets = two;
      covered = at_least_own tx.amount _ _ none_owed p.sender.same_reserved;
    }

    pub Pending-Arrived :
        (b f : Db)
        → Locked tx.id e b
        → Settled tx b f
        → Arrived tx.id tx.from_user_id tx.to_user_id tx.amount s r f
    Pending-Arrived b f l settled = record {
      sender =
          subst (λ n. Funds tx.from_user_id (s.balance -ℤ tx.amount) n f)
            (back s.reserved tx.amount)
            (Settled-payer tx b f _ _ settled
              (Locked-Funds tx e b tx.id tx.from_user_id _ _ l p.sender));
      receiver =
          Settled-payee tx b f _ _ settled
            (Locked-Funds tx e b tx.id tx.to_user_id _ _ l p.receiver);
      completed = Settled-completed tx b f settled;
    }
