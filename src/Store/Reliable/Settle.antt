-- ===== src/Store/Reliable/Settle.antt =====
-- SettleTransaction on a reliable service.
use mathlib.Core.Path.{subst}
use delayed_wallet_transacti.Prelude.{
  String, ◌≡◌, refl, sym, ◌≢◌, true, none, some, List, ◌∷◌, arith, eq_iff,
}
use delayed_wallet_transacti.Prelude.Int.{ℤ, ◌≤ℤ◌}
use delayed_wallet_transacti.Prelude.Table.{lookup, lookup-insert}
use delayed_wallet_transacti.Errors.{wrap, aws}
use delayed_wallet_transacti.Models.{Instant, Status, Transaction, Wallet, ttl_from}
use delayed_wallet_transacti.Dynamo.{Db, all_hold, distinct_items}
use delayed_wallet_transacti.Service.{World, Service, time_now, transact_write_items, Wrote}
use delayed_wallet_transacti.Service.Reliable.{Reliable}
use delayed_wallet_transacti.Program.{◌>>=◌, perform, checked}
use delayed_wallet_transacti.Program.Succeeds.{
  Succeeds, Succeeds-pure, Succeeds-require, Succeeds-checked, Succeeds-bind, Succeeds-attempt,
}
use delayed_wallet_transacti.Store.Codec.{AttributeValue}
use delayed_wallet_transacti.Store.SettleTransaction.{
  lock, Settlement, settlement, acquire_transaction_lock, execute_settlement, after_lock,
  settle_transaction,
}
use delayed_wallet_transacti.Store.SettleTransaction.Effects.{
  Locked, Settled, lock-Locked, settlement-Settled,
}
use delayed_wallet_transacti.Store.Reliable.{
  IsTotal, Stands, Succeeds-asks, Succeeds-uuid, Succeeds-transact, Succeeds-write,
  get_wallet-Succeeds, reads,
}

-- All that a settlement needs of the tables: the transaction, and the wallets it names.
pub record Payable (tx : Transaction) (s : Status) (d : Db) : Type 0 where
  pub stored : Transaction
  pub sender : Wallet
  pub receiver : Wallet
  pub stored_found : lookup tx.id d.transactions ≡ some stored
  pub sender_found : lookup tx.from_user_id d.wallets ≡ some sender
  pub receiver_found : lookup tx.to_user_id d.wallets ≡ some receiver
  pub has_status : stored.status ≡ s
  pub two_wallets : tx.from_user_id ≢ tx.to_user_id
  pub covered : tx.amount ≤ℤ sender.reserved

-- Two ids for the entries of the ledger.
pub record FreshPair (a b : String) (d : Db) : Type 0 where
  pub first_unused : lookup a d.ledger ≡ none
  pub second_unused : lookup b d.ledger ≡ none
  pub two : a ≢ b

settlement_distinct :
    (tx : Transaction) (p : Settlement) (d : Db)
    → Payable tx Status.working d
    → FreshPair p.debit_id p.credit_id d
    → distinct_items (settlement tx p) ≡ true
settlement_distinct tx p d h f = ground (
  arith,
  h.two_wallets,
  f.two,
  eq_iff tx.from_user_id tx.to_user_id,
  eq_iff p.debit_id p.credit_id,
)

settlement_holds :
    (tx : Transaction) (p : Settlement) (d : Db) (h : Payable tx Status.working d)
    → FreshPair p.debit_id p.credit_id d
    → p.sender_version ≡ h.sender.version
    → p.receiver_version ≡ h.receiver.version
    → all_hold (settlement tx p) d ≡ true
settlement_holds tx p d h f s r = ground (
  arith, h.stored_found, h.sender_found, h.receiver_found, h.has_status, h.covered, f.first_unused,
  f.second_unused,
)

Locked-Payable :
    (tx : Transaction) (d e : Db)
    → Payable tx Status.reserved d
    → Locked tx.id d e
    → Payable tx Status.working e
Locked-Payable tx d e h l = subst (Payable tx Status.working) (sym l.result) (record {
  stored = record l.stored { status = Status.working };
  sender = h.sender;
  receiver = h.receiver;
  stored_found = ground (
    arith,
    lookup-insert tx.id tx.id (record l.stored { status = Status.working }) d.transactions,
    eq_iff tx.id tx.id,
  );
  sender_found = h.sender_found;
  receiver_found = h.receiver_found;
  has_status = refl;
  two_wallets = h.two_wallets;
  covered = h.covered;
})

module _ (svc : Service) (rel : Reliable svc) (av : AttributeValue) (total : IsTotal av)
    (tx : Transaction) where
  module _ (a b : String) (ids : List String) (w : World) (h : Payable tx Status.working w.db)
      (f : FreshPair a b w.db) where
    abbrev gathered : Instant → (t1 t2 : ℤ) → Settlement
    gathered now t1 t2 = record {
      sender_version = h.sender.version;
      receiver_version = h.receiver.version;
      now = now;
      debit_id = a;
      credit_id = b;
      sender_ttl = t1;
      receiver_ttl = t2;
    }

    -- The last part: the five operations go through.
    settlement-Succeeds :
        (now : Instant) (t1 t2 : ℤ) (s : svc.State)
        → Stands svc rel w ids s
        → Succeeds svc
            (perform (transact_write_items (settlement tx (gathered now t1 t2)))
              >>= checked (λ e. wrap "failed to execute settlement transaction" (aws e)))
            s
            (λ _ t. Settled tx w.db (svc.world t).db × rel.Ready ids t)
    settlement-Succeeds now t1 t2 s st =
        let p = gathered now t1 t2 in
        Succeeds-transact svc rel w ids _ _ s st (settlement_distinct tx p w.db h f)
          (settlement_holds tx p w.db h f refl refl)
          λ t went ready.
            Succeeds-checked _ _ _ t refl (settlement-Settled tx p w (svc.world t) went, ready)

    execute_settlement-Succeeds :
        (s : svc.State)
        → Stands svc rel w (a ∷ b ∷ ids) s
        → Succeeds svc
            (execute_settlement av tx)
            s
            (λ _ t. Settled tx w.db (svc.world t).db × rel.Ready ids t)
    unfolding execute_settlement
    execute_settlement-Succeeds s st =
        reads svc rel w (a ∷ b ∷ ids) av total _ _ _ h.sender s
          (get_wallet-Succeeds svc rel w (a ∷ b ∷ ids) av total tx.from_user_id h.sender s st
            h.sender_found)
          λ s1 h1.
            reads svc rel w (a ∷ b ∷ ids) av total _ _ _ h.receiver s1
              (get_wallet-Succeeds svc rel w (a ∷ b ∷ ids) av total tx.to_user_id h.receiver s1 h1
                h.receiver_found)
              λ s2 h2. Succeeds-asks svc rel w (a ∷ b ∷ ids) time_now _ s2 tt tt h2 λ now s3 h3.
                Succeeds-require _ _ _ s3 (total.marshals _) (
                  Succeeds-uuid svc rel w (b ∷ ids) _ a s3 h3 λ s4 h4.
                    Succeeds-uuid svc rel w ids _ b s4 h4 λ s5 h5.
                      Succeeds-require _ _ _ s5 (total.marshals _) (
                        Succeeds-require _ _ _ s5 (total.marshals _) (
                          Succeeds-require _ _ _ s5 (total.marshals _) (
                            Succeeds-require _ _ _ s5 (total.marshals _) (
                              Succeeds-require _ _ _ s5 (total.marshals _) (
                                Succeeds-asks svc rel w ids time_now _ s5 tt tt h5 λ t1 s6 h6.
                                  Succeeds-asks svc rel w ids time_now _ s6 tt tt h6 λ t2 s7 h7.
                                    settlement-Succeeds now (ttl_from t1) (ttl_from t2) s7 h7))))))

  -- The transaction was locked, and then settled.
  pub record Paid (ids : List String) (w : World) (t : svc.State) : Type 0 where
    pub between : Db
    pub locked : Locked tx.id w.db between
    pub settled : Settled tx between (svc.world t).db
    pub ready : rel.Ready ids t

  pub settle_transaction-Succeeds :
      (a b : String) (ids : List String) (w : World) (s : svc.State)
      → Payable tx Status.reserved w.db
      → FreshPair a b w.db
      → Stands svc rel w (a ∷ b ∷ ids) s
      → Succeeds svc (settle_transaction av tx) s (λ r t. (r ≡ true) × Paid ids w t)
  unfolding settle_transaction acquire_transaction_lock after_lock
  settle_transaction-Succeeds a b ids w s h f st =
      Succeeds-attempt _ (λ _ t. Wrote (lock tx.id) w (svc.world t) × rel.Ready (a ∷ b ∷ ids) t) _ s
        (Succeeds-write svc rel w (a ∷ b ∷ ids) _ (lock tx.id) s st
          (ground (arith, h.stored_found, h.has_status))
          λ t wrote ready. Succeeds-checked _ _ _ t refl (wrote, ready))
        λ _ t (wrote, ready).
          let l : Locked tx.id w.db (svc.world t).db = lock-Locked tx.id w (svc.world t) wrote in
          Succeeds-bind _ _ _ t
            (execute_settlement-Succeeds a b ids (svc.world t) (Locked-Payable tx w.db _ h l)
              (subst (FreshPair a b) (sym l.result) (record {
                first_unused = f.first_unused;
                second_unused = f.second_unused;
                two = f.two;
              }))
              t (record { here = refl; ready = ready }))
            λ _ v (settled, r). Succeeds-pure true v (
              refl,
              record { between = (svc.world t).db; locked = l; settled = settled; ready = r },
            )
