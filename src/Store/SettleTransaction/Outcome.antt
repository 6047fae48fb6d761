-- ===== src/Store/SettleTransaction/Outcome.antt =====
-- SettleTransaction, branch by branch: what it leaves behind for each way to end.
use mathlib.Core.Path.{subst}
use delayed_wallet_transacti.Prelude.{
  String, ◌≡◌, ◌≢◌, refl, sym, ap, ◌⊎◌, inl, inr, Bool, true, false, some, arith,
}
use delayed_wallet_transacti.Prelude.Table.{lookup}
use delayed_wallet_transacti.Models.{Status, Transaction, ttl_from}
use delayed_wallet_transacti.Errors.{
  Fault, Error, errors_is, transaction_already_processing, conditional_check_failed_exception,
}
use delayed_wallet_transacti.Dynamo.{Db}
use delayed_wallet_transacti.Service.{
  Service, World, WriteAnswers, TransactAnswers, Outcome, done, fault, time_now, new_uuid,
  write_item, transact_write_items,
}
use delayed_wallet_transacti.Service.Faults.{write_fault_db, transact_fault_db}
use delayed_wallet_transacti.Program.{ok, err, run, checked}
use delayed_wallet_transacti.Program.Ensures.{
  Post, Ensures, sequential, Ensures-bind, Ensures-checked, Ensures-pure, Ensures-throw, Ensures-if,
  Ensures-require, Ensures-perform, Ensures-attempt, run-Ensures,
}
use delayed_wallet_transacti.Program.Quiet.{Ensures-quiet}
use delayed_wallet_transacti.Store.Codec.{AttributeValue}
use delayed_wallet_transacti.Store.Wallets.Reads.{Ensures-get_wallet}
use delayed_wallet_transacti.Store.SettleTransaction.{
  Settlement, lock, lock_error, acquire_transaction_lock, settlement, execute_settlement,
  after_lock, settle_transaction,
}
use delayed_wallet_transacti.Store.SettleTransaction.Effects.{
  Locked, lock-Locked, Settled, settlement-Settled,
}

-- No transaction is stored under the id, or its status is not RESERVED.
abbrev pub NotReserved : String → Db → Type 0
NotReserved tx_id d =
    (t : Transaction) → lookup tx_id d.transactions ≡ some t → t.status ≢ Status.reserved

-- Locked, and then settled.
pub record LockedSettled (tx : Transaction) (d d' : Db) : Type 0 where
  pub between : Db
  pub locked : Locked tx.id d between
  pub settled : Settled tx between d'

-- What SettleTransaction leaves behind, by how it ended.
abbrev pub SettleOutcome : Transaction → Db → Post Bool
SettleOutcome tx d (ok true) v = LockedSettled tx d v.db
SettleOutcome tx d (ok false) v = (v.db ≡ d) × NotReserved tx.id d
SettleOutcome tx d (err e) v = (v.db ≡ d) ⊎ (Locked tx.id d v.db ⊎ LockedSettled tx d v.db)

abbrev pub LockOutcome : String → World → Post (Unit {0})
LockOutcome tx_id w (ok _) v = Locked tx_id w.db v.db
LockOutcome tx_id w (err e) v =
    ((v.db ≡ w.db) ⊎ Locked tx_id w.db v.db)
    × (errors_is e transaction_already_processing ≡ true → (v.db ≡ w.db) × NotReserved tx_id w.db)

lock_refused :
    (tx_id : String) (e : Fault) (w v : World)
    → WriteAnswers (lock tx_id) (fault e) w v
    → errors_is (lock_error e) transaction_already_processing ≡ true
    → (v.db ≡ w.db) × NotReserved tx_id w.db
lock_refused tx_id conditional_check_failed_exception w v a h =
    (ap (λ (u : World). u.db) a.1, λ t found reserved. ground arith)
lock_refused tx_id e w v a h = cc

lock-Outcome :
    (tx_id : String) (w : World)
    → Ensures sequential (acquire_transaction_lock tx_id) w (LockOutcome tx_id w)
unfolding acquire_transaction_lock
lock-Outcome tx_id w = Ensures-perform (write_item (lock tx_id)) _ w tt λ r v a.
    Ensures-checked lock_error r v
      (λ u h. lock-Locked tx_id w v (subst (λ o. WriteAnswers (lock tx_id) o w v) h a))
      (λ e h.
        let b = subst (λ o. WriteAnswers (lock tx_id) o w v) h a in
        (write_fault_db _ e w v b (lock-Locked tx_id w v), lock_refused tx_id e w v b))

abbrev ExecuteOutcome : Transaction → World → Post (Unit {0})
ExecuteOutcome tx w (ok _) v = Settled tx w.db v.db
ExecuteOutcome tx w (err e) v = (v.db ≡ w.db) ⊎ Settled tx w.db v.db

settlement-Outcome :
    (tx : Transaction) (p : Settlement) (g : Fault → Error) (w : World) (r : Outcome (Unit {0}))
    (v : World)
    → TransactAnswers (settlement tx p) r w v
    → Ensures sequential (checked g r) v (ExecuteOutcome tx w)
settlement-Outcome tx p g w (done o) v a =
    Ensures-checked g _ v (λ _ _. settlement-Settled tx p w v a) (λ e h. cc)
settlement-Outcome tx p g w (fault e) v a =
    Ensures-checked g _ v (λ _ h. cc)
      (λ _ _. transact_fault_db _ e w v a (settlement-Settled tx p w v))

module _ (av : AttributeValue) where
  execute-Outcome :
      (tx : Transaction) (w : World)
      → Ensures sequential (execute_settlement av tx) w (ExecuteOutcome tx w)
  unfolding execute_settlement
  execute-Outcome tx w =
      Ensures-get_wallet av _ _ _ w
        (λ sender _ _ _.
          Ensures-get_wallet av _ _ _ w
            (λ receiver _ _ _. Ensures-quiet time_now _ w tt λ now _.
              Ensures-require _ _ _ w
                (λ _. Ensures-quiet new_uuid _ w tt λ debit_id _.
                  Ensures-quiet new_uuid _ w tt λ credit_id _.
                    Ensures-require _ _ _ w
                      (λ _.
                        Ensures-require _ _ _ w
                          (λ _.
                            Ensures-require _ _ _ w
                              (λ _.
                                Ensures-require _ _ _ w
                                  (λ _.
                                    Ensures-require _ _ _ w
                                      (λ _. Ensures-quiet time_now _ w tt λ sender_time _.
                                        Ensures-quiet time_now _ w tt λ receiver_time _.
                                          Ensures-perform (transact_write_items _) _ w tt λ r v a.
                                            settlement-Outcome tx
                                              (record {
                                                sender_version = sender.version;
                                                receiver_version = receiver.version;
                                                now = now;
                                                debit_id = debit_id;
                                                credit_id = credit_id;
                                                sender_ttl = ttl_from sender_time;
                                                receiver_ttl = ttl_from receiver_time;
                                              })
                                              _ w r v a)
                                      (inl refl))
                                  (inl refl))
                              (inl refl))
                          (inl refl))
                      (inl refl))
                (inl refl))
            (λ e _. inl refl))
        (λ e _. inl refl)

  -- The part after a lock that was taken.
  Locked-Outcome :
      (tx : Transaction) (d : Db) (w : World)
      → Locked tx.id d w.db
      → Ensures sequential (after_lock av tx (ok tt)) w (SettleOutcome tx d)
  unfolding after_lock
  Locked-Outcome tx d w l =
      Ensures-bind _ (ExecuteOutcome tx w) _ w (execute-Outcome tx w)
        (λ _ v s. Ensures-pure true v (record { between = w.db; locked = l; settled = s }))
        (λ e v o. elim o [
          | inl same ↦ inr (inl (subst (Locked tx.id d) (sym same) l))
          | inr s ↦ inr (inr (record { between = w.db; locked = l; settled = s }))
        ])

  after_lock-Outcome :
      (tx : Transaction) (d : Db) (e : Error) (w : World)
      → (w.db ≡ d) ⊎ Locked tx.id d w.db
      → (errors_is e transaction_already_processing ≡ true → (w.db ≡ d) × NotReserved tx.id d)
      → Ensures sequential (after_lock av tx (err e)) w (SettleOutcome tx d)
  unfolding after_lock
  after_lock-Outcome tx d e w left refused =
      Ensures-if _ _ _ w (λ h. Ensures-pure false w (refused h))
        (λ h. Ensures-throw _ w (elim left [ inl same ↦ inl same | inr l ↦ inr (inl l) ]))

  pub settle-Outcome :
      (tx : Transaction) (w : World)
      → Ensures sequential (settle_transaction av tx) w (SettleOutcome tx w.db)
  unfolding settle_transaction
  settle-Outcome tx w = Ensures-attempt _ (LockOutcome tx.id w) _ w (lock-Outcome tx.id w) elim [
    | ok _ ↦ λ v l. Locked-Outcome tx w.db v l
    | err e ↦ λ v (left, refused). after_lock-Outcome tx w.db e v left refused
  ]

module _ (svc : Service) (av : AttributeValue) where
  -- SettleTransaction, on any service and whatever fails. If it reports true, the stored
  -- transaction was RESERVED, the sender's reserved funds covered the amount of the message, and it
  -- has moved to the balance of another wallet, with one debit and one credit entry under new ids,
  -- and the transaction is COMPLETED. If it reports false, nothing has changed and no RESERVED
  -- transaction was stored under the id. If it returns an error, nothing has changed, or the
  -- transaction has gone from RESERVED to WORKING and no further, or all of the settlement is done.
  pub settle_transaction-Outcome :
      (tx : Transaction) (s : svc.State)
      → let (r, s') = run svc (settle_transaction av tx) s in
        SettleOutcome tx (svc.world s).db r (svc.world s')
  settle_transaction-Outcome tx s =
      run-Ensures svc (SettleOutcome tx (svc.world s).db) (settle_transaction av tx) s
        (settle-Outcome av tx (svc.world s))
