-- ===== src/Store/SettleTransaction/Effects.antt =====
-- What the two writes of a settlement leave behind when they go through: the lock, and the
-- transaction of five operations.
use delayed_wallet_transacti.Prelude.{
  String, ◌≡◌, ◌≢◌, inl, inr, none, some, arith, Option-cases, eq_iff,
}
use delayed_wallet_transacti.Prelude.Int.{pos, ◌+ℤ◌, ◌-ℤ◌, ◌≤ℤ◌}
use delayed_wallet_transacti.Prelude.Table.{lookup, insert, lookup-insert_ne}
use delayed_wallet_transacti.Models.{Status, Transaction, Wallet}
use delayed_wallet_transacti.Dynamo.{Db}
use delayed_wallet_transacti.Service.{World, Wrote, Transacted}
use delayed_wallet_transacti.Store.SettleTransaction.{
  lock, Settlement, settlement, debit_entry, credit_entry,
}

-- The stored transaction has gone from RESERVED to WORKING, and nothing else has changed.
pub record Locked (tx_id : String) (d d' : Db) : Type 0 where
  pub stored : Transaction
  pub found : lookup tx_id d.transactions ≡ some stored
  pub was_reserved : stored.status ≡ Status.reserved
  pub result : d' ≡ record d {
    transactions = insert tx_id (record stored { status = Status.working }) d.transactions;
  }

-- The amount has left the sender's reserved funds for the receiver's balance, two new ledger
-- entries record it, and the stored transaction has gone from WORKING to COMPLETED.
pub record Settled (tx : Transaction) (d d' : Db) : Type 0 where
  pub p : Settlement
  pub sender : Wallet
  pub receiver : Wallet
  pub stored : Transaction
  pub sender_found : lookup tx.from_user_id d.wallets ≡ some sender
  pub receiver_found : lookup tx.to_user_id d.wallets ≡ some receiver
  pub stored_found : lookup tx.id d.transactions ≡ some stored
  pub two_wallets : tx.from_user_id ≢ tx.to_user_id
  pub covered : tx.amount ≤ℤ sender.reserved
  pub was_working : stored.status ≡ Status.working
  pub debit_unused : lookup p.debit_id d.ledger ≡ none
  pub credit_unused : lookup p.credit_id d.ledger ≡ none
  pub two_entries : p.debit_id ≢ p.credit_id
  pub result : d' ≡ record d {
    wallets =
        insert tx.to_user_id
          (record receiver {
            balance = receiver.balance +ℤ tx.amount;
            version = receiver.version +ℤ pos 1;
            ttl = p.receiver_ttl;
          })
          (insert tx.from_user_id
            (record sender {
              reserved = sender.reserved -ℤ tx.amount;
              version = sender.version +ℤ pos 1;
              ttl = p.sender_ttl;
            })
            d.wallets);
    transactions =
        insert tx.id
          (record stored { status = Status.completed; updated_at = p.now })
          d.transactions;
    ledger =
        insert p.credit_id
          (credit_entry tx p.credit_id p.now)
          (insert p.debit_id (debit_entry tx p.debit_id p.now) d.ledger);
  }

pub lock-Locked :
    (tx_id : String) (w w' : World) → Wrote (lock tx_id) w w' → Locked tx_id w.db w'.db
lock-Locked tx_id w w' t = elim (Option-cases (lookup tx_id w.db.transactions)) [
  | inl missing ↦ ground arith
  | inr (stored, e) ↦ record {
    stored = stored;
    found = e;
    was_reserved = ground arith;
    result = rw t.result (rw e);
  }
]

module _ (tx : Transaction) (p : Settlement) (w w' : World)
    (t : Transacted (settlement tx p) w w') where
  two_wallets : tx.from_user_id ≢ tx.to_user_id
  two_wallets = ground (arith, t.distinct, eq_iff tx.from_user_id tx.to_user_id)

  two_entries : p.debit_id ≢ p.credit_id
  two_entries = ground (arith, t.distinct, eq_iff p.debit_id p.credit_id)

  module _ (sender receiver : Wallet) (stored : Transaction)
      (es : lookup tx.from_user_id w.db.wallets ≡ some sender)
      (er : lookup tx.to_user_id w.db.wallets ≡ some receiver)
      (et : lookup tx.id w.db.transactions ≡ some stored) where
    settled : Settled tx w.db w'.db
    settled = record {
      p = p;
      sender = sender;
      receiver = receiver;
      stored = stored;
      sender_found = es;
      receiver_found = er;
      stored_found = et;
      two_wallets = two_wallets;
      covered = ground (arith, t.conditions);
      was_working = ground (arith, t.conditions);
      debit_unused = ground (arith, t.conditions);
      credit_unused = ground (arith, t.conditions);
      two_entries = two_entries;
      result = rw t.result (rw (es, et, lookup-insert_ne _ _ _ _ two_wallets, er));
    }

  pub settlement-Settled : Settled tx w.db w'.db
  settlement-Settled = elim (Option-cases (lookup tx.from_user_id w.db.wallets)) [
    | inl missing ↦ ground (arith, t.conditions)
    | inr (sender, es) ↦ elim (Option-cases (lookup tx.to_user_id w.db.wallets)) [
      | inl missing ↦ ground (arith, t.conditions)
      | inr (receiver, er) ↦ elim (Option-cases (lookup tx.id w.db.transactions)) [
        | inl missing ↦ ground (arith, t.conditions)
        | inr (stored, et) ↦ settled sender receiver stored es er et
      ]
    ]
  ]
