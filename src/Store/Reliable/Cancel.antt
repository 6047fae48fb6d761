-- ===== src/Store/Reliable/Cancel.antt =====
-- CancelTransaction on a reliable service.
use delayed_wallet_transacti.Prelude.{String, ◌≡◌, refl, true, some, List, arith}
use delayed_wallet_transacti.Prelude.Table.{lookup}
use delayed_wallet_transacti.Models.{Status, Instant, Transaction, Wallet}
use delayed_wallet_transacti.Dynamo.{Db, all_hold}
use delayed_wallet_transacti.Service.{World, Service, time_now}
use delayed_wallet_transacti.Service.Reliable.{Reliable}
use delayed_wallet_transacti.Program.Succeeds.{Succeeds, Succeeds-require, Succeeds-checked}
use delayed_wallet_transacti.Store.Codec.{AttributeValue}
use delayed_wallet_transacti.Store.CancelTransaction.{cancel_transaction, cancellation}
use delayed_wallet_transacti.Store.CancelTransaction.Outcome.{Cancelled, cancellation-Cancelled}
use delayed_wallet_transacti.Store.Reliable.{
  IsTotal, Stands, Succeeds-asks, Succeeds-transact, get_wallet-Succeeds, get_transaction-Succeeds,
  reads,
}

-- All that a cancellation needs of the tables.
pub record Cancellable (tx : Transaction) (k : String) (d : Db) : Type 0 where
  pub sender : Wallet
  pub stored_found : lookup k d.transactions ≡ some tx
  pub same_id : tx.id ≡ k
  pub sender_found : lookup tx.from_user_id d.wallets ≡ some sender
  pub was_reserved : tx.status ≡ Status.reserved

cancellation_holds :
    (tx : Transaction) (k : String) (now : Instant) (d : Db) (h : Cancellable tx k d)
    → all_hold (cancellation tx h.sender.version now) d ≡ true
cancellation_holds tx k now d h =
    ground (arith, h.stored_found, h.sender_found, h.was_reserved, h.same_id)

module _ (svc : Service) (rel : Reliable svc) (av : AttributeValue) (total : IsTotal av)
    (tx : Transaction) (k : String) (ids : List String) (w : World)
    (h : Cancellable tx k w.db) where
  pub cancel_transaction-Succeeds :
      (s : svc.State)
      → Stands svc rel w ids s
      → Succeeds svc (cancel_transaction av k) s (λ _ t. Cancelled tx w.db (svc.world t).db)
  unfolding cancel_transaction
  cancel_transaction-Succeeds s st =
      reads svc rel w ids av total _ _ _ tx s
        (get_transaction-Succeeds svc rel w ids av total k tx s st h.stored_found)
        λ s1 h1. Succeeds-require _ _ _ s1 (ground (arith, h.was_reserved)) (
          reads svc rel w ids av total _ _ _ h.sender s1
            (get_wallet-Succeeds svc rel w ids av total tx.from_user_id h.sender s1 h1
              h.sender_found)
            λ s2 h2. Succeeds-asks svc rel w ids time_now _ s2 tt tt h2 λ now s3 h3.
              Succeeds-require _ _ _ s3 (total.marshals _) (
                Succeeds-require _ _ _ s3 (total.marshals _) (
                  Succeeds-require _ _ _ s3 (total.marshals _) (
                    Succeeds-transact svc rel w ids _ _ s3 h3 refl
                      (cancellation_holds tx k now w.db h)
                      λ t went ready.
                        Succeeds-checked _ _ _ t refl
                          (cancellation-Cancelled tx h.sender.version now w (svc.world t) went)))))
