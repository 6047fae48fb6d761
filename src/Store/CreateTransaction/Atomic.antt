-- ===== src/Store/CreateTransaction/Atomic.antt =====
-- CreateTransaction is atomic: what its one transaction leaves behind, and that nothing else does.
use mathlib.Core.Path.{subst}
use delayed_wallet_transacti.Prelude.{
  ◌≡◌, refl, ap, ◌⊎◌, inl, inr, true, none, some, arith, Option-cases,
}
use delayed_wallet_transacti.Prelude.Int.{ℤ, pos, ◌+ℤ◌, ◌-ℤ◌, ◌≤ℤ◌}
use delayed_wallet_transacti.Prelude.Table.{lookup, insert}
use delayed_wallet_transacti.Models.{Status, Transaction, Wallet, ttl_from}
use delayed_wallet_transacti.Dynamo.{Db}
use delayed_wallet_transacti.Errors.{
  Fault, errors_is, insufficient_funds, transaction_canceled_exception,
}
use delayed_wallet_transacti.Service.{
  Service, World, Transacted, TransactAnswers, Outcome, done, fault, time_now, new_uuid,
  transact_write_items,
}
use delayed_wallet_transacti.Service.Faults.{transact_fault_db}
use delayed_wallet_transacti.Program.{ok, err, run, pure, checked, ◌>>=◌}
use delayed_wallet_transacti.Program.Ensures.{
  Post, Ensures, sequential, Ensures-bind_checked, Ensures-pure, Ensures-require, Ensures-perform,
  run-Ensures,
}
use delayed_wallet_transacti.Program.Quiet.{Ensures-quiet}
use delayed_wallet_transacti.Store.Codec.{AttributeValue}
use delayed_wallet_transacti.Store.Wallets.Reads.{Ensures-get_wallet}
use delayed_wallet_transacti.Store.CreateTransaction.{creation, create_error, create_transaction}

-- The amount has moved from the sender's balance to the sender's reserved funds, and the
-- transaction is stored under an id that was unused; all other items are as before.
pub record Created (tx : Transaction) (d d' : Db) : Type 0 where
  pub sender : Wallet
  pub ttl : ℤ
  pub is_reserved : tx.status ≡ Status.reserved
  pub found : lookup tx.from_user_id d.wallets ≡ some sender
  pub covered : tx.amount ≤ℤ sender.balance
  pub unused : lookup tx.id d.transactions ≡ none
  pub result : d' ≡ record d {
    wallets =
        insert tx.from_user_id
          (record sender {
            balance = sender.balance -ℤ tx.amount;
            reserved = sender.reserved +ℤ tx.amount;
            version = sender.version +ℤ pos 1;
            ttl = ttl;
          })
          d.wallets;
    transactions = insert tx.id tx d.transactions;
  }

pub creation-Created :
    (tx : Transaction) (v ttl : ℤ)
    → tx.status ≡ Status.reserved
    → (w w' : World) → Transacted (creation tx v ttl) w w'
    → Created tx w.db w'.db
creation-Created tx v ttl reserved w w' t =
    elim (Option-cases (lookup tx.from_user_id w.db.wallets)) [
      | inl missing ↦ ground arith
      | inr (sender, e) ↦ record {
        sender = sender;
        ttl = ttl;
        is_reserved = reserved;
        found = e;
        covered = ground arith;
        unused = ground arith;
        result = rw t.result (rw e);
      }
    ]

-- The record that CreateTransaction stores for a request: the request's parties, amount and delay.
pub record SameRequest (given tx : Transaction) : Type 0 where
  pub from_same : tx.from_user_id ≡ given.from_user_id
  pub to_same : tx.to_user_id ≡ given.to_user_id
  pub amount_same : tx.amount ≡ given.amount
  pub delay_same : tx.delay_seconds ≡ given.delay_seconds
  pub reserved : tx.status ≡ Status.reserved

-- What CreateTransaction leaves behind, by how it ended.
abbrev pub CreateOutcome : Transaction → Db → Post Transaction
CreateOutcome given d (ok tx) v = Created tx d v.db × SameRequest given tx
CreateOutcome given d (err e) v =
    ((v.db ≡ d) ⊎ ((tx : Transaction) × Created tx d v.db × SameRequest given tx))
    × (errors_is e insufficient_funds ≡ true → v.db ≡ d)

module _ (tx : Transaction) (version ttl : ℤ) (w : World) where
  -- Only a cancelled transaction is reported as insufficient funds.
  create_fault :
      (e : Fault) (v : World)
      → TransactAnswers (creation tx version ttl) (fault e) w v
      → errors_is (create_error e) insufficient_funds ≡ true
      → v.db ≡ w.db
  create_fault (transaction_canceled_exception codes) v a h = ap (λ (u : World). u.db) a.1
  create_fault e v a h = cc

  create_outcome :
      (given : Transaction)
      → SameRequest given tx
      → (r : Outcome (Unit {0})) (v : World) → TransactAnswers (creation tx version ttl) r w v
      → Ensures sequential (checked create_error r >>= λ _. pure tx) v (CreateOutcome given w.db)
  create_outcome given same (done o) v a =
      Ensures-bind_checked _ _ _ v
        (λ _ _. Ensures-pure _ v (creation-Created tx version ttl same.reserved w v a, same))
        (λ e h. cc)
  create_outcome given same (fault e) v a =
      Ensures-bind_checked _ _ _ v (λ o h. cc)
        (λ e' h. (
          transact_fault_db _ e w v a
              (λ t. (tx, creation-Created tx version ttl same.reserved w v t, same)),
          create_fault e' v (subst (λ o. TransactAnswers (creation tx version ttl) o w v) h a),
        ))

module _ (av : AttributeValue) where
  pub create_transaction-outcome :
      (given : Transaction) (w : World)
      → Ensures sequential (create_transaction av given) w (CreateOutcome given w.db)
  unfolding create_transaction
  create_transaction-outcome given w =
      Ensures-get_wallet av _ _ _ w
        (λ sender d seen found. Ensures-quiet time_now _ w tt λ now _.
          Ensures-quiet new_uuid _ w tt λ id _. Ensures-quiet time_now _ w tt λ later _.
            Ensures-require _ _ _ w
              (λ _.
                Ensures-require _ _ _ w
                  (λ _. Ensures-quiet time_now _ w tt λ latest _.
                    Ensures-perform (transact_write_items _) _ w tt λ r v a.
                      create_outcome _ sender.version (ttl_from latest) w given
                        (record {
                          from_same = refl;
                          to_same = refl;
                          amount_same = refl;
                          delay_same = refl;
                          reserved = refl;
                        })
                        r v a)
                  (inl refl, λ _. refl))
              (inl refl, λ _. refl))
        (λ e _. (inl refl, λ _. refl))

module _ (svc : Service) (av : AttributeValue) where
  -- CreateTransaction, on any service and whatever fails. A transaction that it returns is stored
  -- as RESERVED under an unused id, with the request's parties, amount and delay, and its amount,
  -- which the sender's balance covered, has moved from that balance to the reserved funds; nothing
  -- else has changed. If it returns an error, either the tables are unchanged or all of that was
  -- done; they are unchanged if the error is ErrInsufficientFunds.
  pub create_transaction-Outcome :
      (given : Transaction) (s : svc.State)
      → let (r, s') = run svc (create_transaction av given) s in
        CreateOutcome given (svc.world s).db r (svc.world s')
  create_transaction-Outcome given s =
      run-Ensures svc (CreateOutcome given (svc.world s).db) (create_transaction av given) s
        (create_transaction-outcome av given (svc.world s))
