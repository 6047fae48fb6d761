-- ===== src/Store/Reliable/Create.antt =====
-- CreateTransaction on a reliable service.
use mathlib.Core.Path.{subst}
use delayed_wallet_transacti.Prelude.{
  sym, ap, ◌∙◌, String, ◌≡◌, refl, true, none, some, List, ◌∷◌, arith,
}
use delayed_wallet_transacti.Prelude.Int.{ℤ, ◌≤ℤ◌}
use delayed_wallet_transacti.Prelude.Table.{lookup}
use delayed_wallet_transacti.Models.{Transaction, Wallet, ttl_from}
use delayed_wallet_transacti.Dynamo.{all_hold}
use delayed_wallet_transacti.Service.{World, Service, time_now, transact_write_items}
use delayed_wallet_transacti.Service.Reliable.{Reliable}
use delayed_wallet_transacti.Program.{◌>>=◌, pure, perform, checked}
use delayed_wallet_transacti.Program.Succeeds.{
  Succeeds, Succeeds-pure, Succeeds-require, Succeeds-then_checked,
}
use delayed_wallet_transacti.Store.Codec.{AttributeValue}
use delayed_wallet_transacti.Store.CreateTransaction.{create_transaction, create_error, creation}
use delayed_wallet_transacti.Store.CreateTransaction.Atomic.{Created, SameRequest, creation-Created}
use delayed_wallet_transacti.Store.Reliable.{
  IsTotal, Stands, Succeeds-asks, Succeeds-uuid, Succeeds-transact, get_wallet-Succeeds, reads,
}

creation_holds :
    (tx : Transaction) (ttl : ℤ) (sender : Wallet) (w : World)
    → lookup tx.from_user_id w.db.wallets ≡ some sender
    → lookup tx.id w.db.transactions ≡ none
    → tx.amount ≤ℤ sender.balance
    → all_hold (creation tx sender.version ttl) w.db ≡ true
creation_holds tx ttl sender w found unused covered = ground arith

module _ (svc : Service) (rel : Reliable svc) (av : AttributeValue) (total : IsTotal av) where
  -- The transaction as it was stored under the next UUID.
  pub record Opened (given : Transaction) (id : String) (w : World) (ids : List String)
      (tx : Transaction) (t : svc.State) : Type 0 where
    pub created : Created tx w.db (svc.world t).db
    pub same : SameRequest given tx
    pub numbered : tx.id ≡ id
    pub entries : (svc.world t).db.ledger ≡ w.db.ledger
    pub ready : rel.Ready ids t

  module _ (given : Transaction) (id : String) (ids : List String) (sender : Wallet) (w : World)
      (found : lookup given.from_user_id w.db.wallets ≡ some sender)
      (unused : lookup id w.db.transactions ≡ none) (covered : given.amount ≤ℤ sender.balance) where
    -- The last part: the transaction is written, and returned.
    creation-Succeeds :
        (tx : Transaction) (ttl : ℤ) (s : svc.State)
        → tx.id ≡ id
        → SameRequest given tx
        → Stands svc rel w ids s
        → Succeeds svc
            (perform (transact_write_items (creation tx sender.version ttl)) >>= λ reply.
              checked create_error reply >>= λ _. pure tx)
            s
            (Opened given id w ids)
    creation-Succeeds tx ttl s numbered same h =
        Succeeds-transact svc rel w ids _ _ s h refl
          (creation_holds tx ttl sender w (ap (λ k. lookup k w.db.wallets) same.from_same ∙ found)
            (ap (λ k. lookup k w.db.transactions) numbered ∙ unused)
            (subst (λ a. a ≤ℤ sender.balance) (sym same.amount_same) covered))
          λ t went ready. Succeeds-then_checked _ _ _ _ t refl (
            Succeeds-pure _ t (record {
              created = creation-Created tx sender.version ttl same.reserved w (svc.world t) went;
              same = same;
              numbered = numbered;
              entries = rw went.result refl;
              ready = ready;
            }))

    pub create_transaction-Succeeds :
        (s : svc.State)
        → Stands svc rel w (id ∷ ids) s
        → Succeeds svc (create_transaction av given) s (Opened given id w ids)
    unfolding create_transaction
    create_transaction-Succeeds s h =
        reads svc rel w (id ∷ ids) av total _ _ _ sender s
          (get_wallet-Succeeds svc rel w (id ∷ ids) av total given.from_user_id sender s h found)
          λ s1 h1. Succeeds-asks svc rel w (id ∷ ids) time_now _ s1 tt tt h1 λ now s2 h2.
            Succeeds-uuid svc rel w ids _ id s2 h2 λ s3 h3.
              Succeeds-asks svc rel w ids time_now _ s3 tt tt h3 λ later s4 h4.
                Succeeds-require _ _ _ s4 (total.marshals _) (
                  Succeeds-require _ _ _ s4 (total.marshals _) (
                    Succeeds-asks svc rel w ids time_now _ s4 tt tt h4 λ latest s5 h5.
                      creation-Succeeds _ (ttl_from latest) s5 refl
                        (record {
                          from_same = refl;
                          to_same = refl;
                          amount_same = refl;
                          delay_same = refl;
                          reserved = refl;
                        })
                        h5))
