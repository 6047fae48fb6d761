-- ===== src/Store/CancelTransaction/Outcome.antt =====
-- CancelTransaction, branch by branch: what it leaves behind for each way to end.
use delayed_wallet_transacti.Prelude.{
  String, ◌≡◌, refl, sym, ◌∙◌, ◌⊎◌, inl, inr, true, false, some, arith, Option-cases,
}
use delayed_wallet_transacti.Prelude.Int.{ℤ, pos, ◌+ℤ◌, ◌-ℤ◌}
use delayed_wallet_transacti.Prelude.Table.{lookup, insert}
use delayed_wallet_transacti.Models.{Status, same_status, Instant, Transaction, Wallet}
use delayed_wallet_transacti.Errors.{Error, Sentinel, errors_is, transaction_not_cancellable}
use delayed_wallet_transacti.Dynamo.{Db}
use delayed_wallet_transacti.Service.{
  Service, World, Seen, Transacted, TransactAnswers, Outcome, done, fault, time_now,
  transact_write_items,
}
use delayed_wallet_transacti.Service.Faults.{transact_fault_db}
use delayed_wallet_transacti.Program.{ok, err, run, checked}
use delayed_wallet_transacti.Program.Ensures.{
  Post, Ensures, sequential, Ensures-checked, Ensures-require, Ensures-guard, Ensures-perform,
  run-Ensures,
}
use delayed_wallet_transacti.Program.Quiet.{Ensures-quiet}
use delayed_wallet_transacti.Errors.{wrap, aws}
use delayed_wallet_transacti.Store.Codec.{AttributeValue}
use delayed_wallet_transacti.Store.Wallets.Reads.{Ensures-get_wallet}
use delayed_wallet_transacti.Store.CancelTransaction.{cancellation, cancel_transaction}
use delayed_wallet_transacti.Store.CancelTransaction.Reads.{Ensures-get_transaction}

-- The amount of `tx` has gone from the sender's reserved funds back to the balance, and the
-- transaction stored under its id has gone from RESERVED to CANCELLED.
pub record Cancelled (tx : Transaction) (d d' : Db) : Type 0 where
  pub sender : Wallet
  pub stored : Transaction
  pub now : Instant
  pub sender_found : lookup tx.from_user_id d.wallets ≡ some sender
  pub stored_found : lookup tx.id d.transactions ≡ some stored
  pub was_reserved : stored.status ≡ Status.reserved
  pub result : d' ≡ record d {
    wallets =
        insert tx.from_user_id
          (record sender {
            balance = sender.balance +ℤ tx.amount;
            reserved = sender.reserved -ℤ tx.amount;
            version = sender.version +ℤ pos 1;
          })
          d.wallets;
    transactions =
        insert tx.id (record stored { status = Status.cancelled; updated_at = now }) d.transactions;
  }

module _ (tx : Transaction) (v : ℤ) (now : Instant) (w w' : World)
    (t : Transacted (cancellation tx v now) w w') where
  pub cancellation-Cancelled : Cancelled tx w.db w'.db
  cancellation-Cancelled = elim (Option-cases (lookup tx.from_user_id w.db.wallets)) [
    | inl missing ↦ ground (arith, t.conditions)
    | inr (sender, es) ↦ elim (Option-cases (lookup tx.id w.db.transactions)) [
      | inl missing ↦ ground (arith, t.conditions)
      | inr (stored, et) ↦ record {
        sender = sender;
        stored = stored;
        now = now;
        sender_found = es;
        stored_found = et;
        was_reserved = ground (arith, t.conditions);
        result = rw t.result (rw (es, et));
      }
    ]
  ]

-- The funds of a transaction that was seen RESERVED under the id have been returned.
pub record CancelledSeen (tx_id : String) (w : World) (d' : Db) : Type 0 where
  pub tx : Transaction
  pub seen_in : Db
  pub seen : Seen seen_in w
  pub found : lookup tx_id seen_in.transactions ≡ some tx
  pub reserved : same_status tx.status Status.reserved ≡ true
  pub cancelled : Cancelled tx w.db d'

-- A transaction was seen under the id, but not as RESERVED.
pub record RefusedSeen (tx_id : String) (w : World) : Type 0 where
  pub tx : Transaction
  pub seen_in : Db
  pub seen : Seen seen_in w
  pub found : lookup tx_id seen_in.transactions ≡ some tx
  pub unreserved : same_status tx.status Status.reserved ≡ false

-- What CancelTransaction leaves behind, by how it ended.
abbrev pub CancelOutcome : String → World → Post (Unit {0})
CancelOutcome tx_id w (ok _) v = CancelledSeen tx_id w v.db
CancelOutcome tx_id w (err e) v =
    ((v.db ≡ w.db) ⊎ CancelledSeen tx_id w v.db)
    × (errors_is e transaction_not_cancellable ≡ true → (v.db ≡ w.db) × RefusedSeen tx_id w)

cancellation-Outcome :
    (tx_id : String) (tx : Transaction) (version : ℤ) (now : Instant) (w : World)
    → ((d' : Db) → Cancelled tx w.db d' → CancelledSeen tx_id w d')
    → (r : Outcome (Unit {0})) (v : World) → TransactAnswers (cancellation tx version now) r w v
    → Ensures sequential
        (checked (λ e. wrap "failed to execute cancellation transaction" (aws e)) r)
        v
        (CancelOutcome tx_id w)
cancellation-Outcome tx_id tx version now w seen (done o) v a =
    Ensures-checked _ _ v (λ _ _. seen v.db (cancellation-Cancelled tx version now w v a))
      (λ e h. cc)
cancellation-Outcome tx_id tx version now w seen (fault e) v a =
    Ensures-checked _ _ v (λ _ h. cc)
      (λ _ _. (
        transact_fault_db _ e w v a (λ t. seen v.db (cancellation-Cancelled tx version now w v t)),
        λ h. cc,
      ))

-- An error with no sentinel in its chain.
unlike :
    {A : Type 0} (e : Error)
    → ((s : Sentinel) → errors_is e s ≡ false)
    → errors_is e transaction_not_cancellable ≡ true
    → A
unlike e none_of h = elim (clash (sym (none_of transaction_not_cancellable) ∙ h)) [ ]
  where
    clash : false ≡ true → ⊥
    clash q = cc

module _ (av : AttributeValue) where
  pub cancel-Outcome :
      (tx_id : String) (w : World)
      → Ensures sequential (cancel_transaction av tx_id) w (CancelOutcome tx_id w)
  unfolding cancel_transaction
  cancel-Outcome tx_id w =
      Ensures-get_transaction av _ _ _ w
        (λ tx d seen found.
          Ensures-guard _ _ _ w
            (λ reserved.
              Ensures-get_wallet av _ _ _ w
                (λ sender _ _ _. Ensures-quiet time_now _ w tt λ now _.
                  Ensures-require _ _ _ w
                    (λ _.
                      Ensures-require _ _ _ w
                        (λ _.
                          Ensures-require _ _ _ w
                            (λ _. Ensures-perform (transact_write_items _) _ w tt λ r v a.
                              cancellation-Outcome tx_id tx sender.version now w
                                (λ d' c. record {
                                  tx = tx;
                                  seen_in = d;
                                  seen = seen;
                                  found = found;
                                  reserved = reserved;
                                  cancelled = c;
                                })
                                r v a)
                            (inl refl, λ h. cc))
                        (inl refl, λ h. cc))
                    (inl refl, λ h. cc))
                (λ e none_of. (inl refl, unlike e none_of)))
            (λ unreserved. (
              inl refl,
              λ _. (
                refl,
                record {
                  tx = tx;
                  seen_in = d;
                  seen = seen;
                  found = found;
                  unreserved = unreserved;
                },
              ),
            )))
        (λ e none_of. (inl refl, unlike e none_of))

module _ (svc : Service) (av : AttributeValue) where
  -- CancelTransaction, on any service and whatever fails. If it returns no error, a transaction
  -- was seen as RESERVED under the id, its amount has moved from its sender's reserved funds to
  -- the balance, and what is stored under its own id has gone from RESERVED to CANCELLED; nothing
  -- else has changed. If it returns an error, either the tables are unchanged or all of that was
  -- done; they are unchanged if the error is ErrTransactionNotCancellable, and then a transaction
  -- was seen under the id that is not RESERVED.
  pub cancel_transaction-Outcome :
      (tx_id : String) (s : svc.State)
      → let (r, s') = run svc (cancel_transaction av tx_id) s in
        CancelOutcome tx_id (svc.world s) r (svc.world s')
  cancel_transaction-Outcome tx_id s =
      run-Ensures svc (CancelOutcome tx_id (svc.world s)) (cancel_transaction av tx_id) s
        (cancel-Outcome av tx_id (svc.world s))
