-- ===== src/Transfers/Journey/Cancels.antt =====
-- POST /transactions, and then DELETE of the transaction that it made.
use mathlib.Core.Path.{subst}
use delayed_wallet_transacti.Prelude.{String, ◌≡◌, refl, ap, ◌∙◌, some, none, List, ◌∷◌}
use delayed_wallet_transacti.Prelude.Int.{◌≤ℤ◌}
use delayed_wallet_transacti.Prelude.Table.{lookup}
use delayed_wallet_transacti.Models.{Status, Transaction, Wallet}
use delayed_wallet_transacti.Service.{Service}
use delayed_wallet_transacti.Service.Reliable.{Reliable}
use delayed_wallet_transacti.Program.{ok}
use delayed_wallet_transacti.Program.Succeeds.{
  Succeeds, Succeeds-pure, Succeeds-bind, Succeeds-attempt, Succeeds-mono,
}
use delayed_wallet_transacti.Program.Aside.{Minor, Passed, Succeeds-aside}
use delayed_wallet_transacti.Store.Guarded.{Sends, get_wallet-Issues}
use delayed_wallet_transacti.Store.CancelTransaction.Outcome.{Cancelled}
use delayed_wallet_transacti.Store.Reliable.{IsTotal}
use delayed_wallet_transacti.Store.Reliable.Create.{create_transaction-Succeeds}
use delayed_wallet_transacti.Store.Reliable.Cancel.{Cancellable, cancel_transaction-Succeeds}
use delayed_wallet_transacti.Store.Reliable.Funds.{Funds, HasStatus, Cancelled-status}
use delayed_wallet_transacti.Store.Reliable.Transfer.{sender-Funds, cancellable, returned-Funds}
use delayed_wallet_transacti.Api.{NewTransaction, Environment}
use delayed_wallet_transacti.Api.Mapping.{to_domain_new_transaction}
use delayed_wallet_transacti.Handlers.Transactions.{
  after_create, schedule_decoded, schedule_transaction_request, cancel_transaction_by_id,
}
use delayed_wallet_transacti.Handlers.Transactions.Scheduling.{funds_stay, observes, sending}
use delayed_wallet_transacti.Transfers.Processes.{schedule-Issues}
use delayed_wallet_transacti.Transfers.Journey.{minor, same_after, notify_sender-Succeeds}
use delayed_wallet_transacti.Transfers.Journey.Same.{same-Funds, same-Cancellable}

module _ (svc : Service) (rel : Reliable svc) (env : Environment) where
  sending-Minor : Sends (Minor svc rel funds_stay)
  sending-Minor = record {
    observes = minor svc rel funds_stay observes;
    sends = λ q b n. (tt, sending.sends q b n);
  }

  -- Whatever becomes of the messages to the queue and to the clients.
  after_create-Answers :
      (new : NewTransaction) (tx : Transaction) (ids : List String) (s : svc.State)
      → rel.Ready ids s
      → Succeeds svc
          (after_create env new (ok tx))
          s
          (λ resp t. (resp.status ≡ 201) × Passed svc rel funds_stay ids (svc.world s) t)
  unfolding after_create
  after_create-Answers new tx ids s ready =
      Succeeds-bind _ (λ _ t. Passed svc rel funds_stay ids (svc.world s) t) _ s
        (Succeeds-aside svc rel funds_stay ids _ _ s (schedule-Issues sending-Minor env _ _) ready
          λ _ t passed. Succeeds-pure tt t passed)
        λ _ t (ready_t, same_t).
          Succeeds-aside svc rel funds_stay ids _ _ t
            (get_wallet-Issues sending-Minor.observes env.attribute_value _) ready_t
            λ r u (ready_u, same_u).
              Succeeds-bind _ _ _ u
                (notify_sender-Succeeds svc rel env funds_stay observes tx r ids u ready_u)
                λ _ v (ready_v, same_v).
                  Succeeds-pure _ v
                    (refl, (ready_v, same_after _ _ _ same_t (same_after _ _ _ same_u same_v)))

module _ (svc : Service) (rel : Reliable svc) (env : Environment)
    (total : IsTotal env.attribute_value) where
  delete-Succeeds :
      (tx : Transaction) (k : String) (ids : List String) (s : svc.State)
      → Cancellable tx k (svc.world s).db
      → rel.Ready ids s
      → Succeeds svc
          (cancel_transaction_by_id env k)
          s
          (λ resp t. (resp.status ≡ 204) × Cancelled tx (svc.world s).db (svc.world t).db)
  unfolding cancel_transaction_by_id
  delete-Succeeds tx k ids s h ready =
      Succeeds-attempt _ _ _ s
        (cancel_transaction-Succeeds svc rel env.attribute_value total tx k ids (svc.world s) h s
          (record { here = refl; ready = ready }))
        λ _ t c. Succeeds-pure _ t (refl, c)

  -- On a service that answers promptly, with a UUID that is not taken, and where every value can
  -- be marshalled and read back: if the body of a POST /transactions decodes to a request that the
  -- sender's balance covers, then it is answered with 201, whatever becomes of its messages; and a
  -- DELETE of the transaction is then answered with 204, the sender's balance and reserved funds
  -- are what they were before the request, and the transaction is CANCELLED.
  pub post_then_delete :
      (body : String) (new : NewTransaction) (id : String) (ids : List String) (sender : Wallet)
      (s : svc.State)
      → env.json.decode_new_transaction body ≡ ok new
      → rel.Ready (id ∷ ids) s
      → lookup new.from_user_id (svc.world s).db.wallets ≡ some sender
      → new.amount ≤ℤ sender.balance
      → lookup id (svc.world s).db.transactions ≡ none
      → Succeeds svc (schedule_transaction_request env body) s (λ response t.
        (response.status ≡ 201)
        × Succeeds svc (cancel_transaction_by_id env id) t (λ answer u.
          (answer.status ≡ 204)
          × Funds new.from_user_id sender.balance sender.reserved (svc.world u).db
          × HasStatus id Status.cancelled (svc.world u).db))
  unfolding schedule_transaction_request schedule_decoded
  post_then_delete body new id ids sender s decoded ready found covered unused =
      let w = svc.world s in
      rw decoded (
        Succeeds-attempt _ _ _ s
          (create_transaction-Succeeds svc rel env.attribute_value total
            (to_domain_new_transaction new) id ids sender w found unused covered s
            (record { here = refl; ready = ready }))
          λ tx t o.
            let d = (svc.world t).db in
            let mine = ap (λ k. lookup k w.db.wallets) o.same.from_same ∙ found in
            Succeeds-mono svc _ _
              (λ response u (answer, (ready_u, same)). (
                answer,
                Succeeds-mono svc _ _
                    (λ _ v (deleted, c). (
                      deleted,
                      subst (λ k. Funds k sender.balance sender.reserved (svc.world v).db)
                          o.same.from_same
                          (returned-Funds tx (svc.world u).db _ _ _
                            (same-Funds d _ same (sender-Funds tx w.db d sender mine o.created)) c),
                      subst (λ k. HasStatus k Status.cancelled (svc.world v).db) o.numbered
                          (Cancelled-status tx _ _ c),
                    ))
                    _ u
                    (delete-Succeeds tx id ids u
                      (subst (λ k. Cancellable tx k (svc.world u).db) o.numbered
                        (same-Cancellable d _ same (cancellable tx w.db d sender mine o.created)))
                      ready_u),
              ))
              _ t (after_create-Answers svc rel env new tx ids t o.ready))
