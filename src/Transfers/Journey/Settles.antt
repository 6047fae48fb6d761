-- ===== src/Transfers/Journey/Settles.antt =====
-- The whole way of a transfer: POST /transactions, and the settlement lambda's run on its message.
use delayed_wallet_transacti.Prelude.{
  String, ◌≡◌, refl, sym, ap, ◌∙◌, ◌≢◌, Bool, true, false, none, some, List, [], ◌∷◌, ◌==◌, ◌||◌,
  arith, eq_iff,
}
use delayed_wallet_transacti.Prelude.Table.{lookup}
use delayed_wallet_transacti.Models.{Transaction}
use delayed_wallet_transacti.Dynamo.{Db}
use delayed_wallet_transacti.Service.{Service, SentBody}
use delayed_wallet_transacti.Service.Reliable.{Reliable}
use delayed_wallet_transacti.Program.{ok}
use delayed_wallet_transacti.Program.Succeeds.{
  Succeeds, Succeeds-pure, Succeeds-bind, Succeeds-attempt, Succeeds-mono,
}
use delayed_wallet_transacti.Program.Aside.{Succeeds-aside}
use delayed_wallet_transacti.Store.Reliable.{IsTotal}
use delayed_wallet_transacti.Store.Reliable.Create.{create_transaction-Succeeds}
use delayed_wallet_transacti.Store.Reliable.Settle.{FreshPair}
use delayed_wallet_transacti.Store.Reliable.Pending.{Pending, Names}
use delayed_wallet_transacti.Store.Reliable.Transfer.{
  Affordable, Delivered, names, request-Pending, settle-Delivered,
}
use delayed_wallet_transacti.Api.{NewTransaction, Response, Environment}
use delayed_wallet_transacti.Api.Mapping.{to_api_transaction, to_domain_new_transaction}
use delayed_wallet_transacti.Scheduler.{bad_delay}
use delayed_wallet_transacti.Handlers.Transactions.{
  delay_of, schedule_decoded, schedule_transaction_request,
}
use delayed_wallet_transacti.Lambdas.{
  continue, after_settle, handle_message, handle_settlement_request,
}
use delayed_wallet_transacti.Transfers.Processes.{notify_api-Issues}
use delayed_wallet_transacti.Transfers.Journey.Same.{same-Pending, same-Arrived}
use delayed_wallet_transacti.Transfers.Journey.{
  transfers_stay, connecting, minor, Carries, after_create-Succeeds,
}

two_names : (a b : String) → a ≢ "" → b ≢ "" → (a == "") || (b == "") ≡ false
two_names a b p q = ground (arith, eq_iff a "", eq_iff b "")

module _ (svc : Service) (rel : Reliable svc) (env : Environment)
    (total : IsTotal env.attribute_value) (given : Transaction) (id : String) (d : Db)
    (h : Affordable given d) where
  after_settle-Succeeds :
      (x : Transaction) (r : Bool) (ids : List String) (s : svc.State)
      → r ≡ true
      → Delivered given id d h (svc.world s).db
      → rel.Ready ids s
      → Succeeds svc
          (after_settle env x (ok r))
          s
          (λ n t. (n ≡ continue) × Delivered given id d h (svc.world t).db)
  unfolding after_settle
  after_settle-Succeeds x false ids s e p ready = cc
  after_settle-Succeeds x true ids s e p ready =
      Succeeds-aside svc rel transfers_stay ids _ _ s
        (notify_api-Issues (minor svc rel transfers_stay connecting) env x) ready
        λ r t (_, same). Succeeds-pure continue t (refl, same-Arrived _ _ same.funds p)

  handle_message-Succeeds :
      (x : Transaction) (a b : String) (ids : List String) (s : svc.State)
      → Names x id given.from_user_id given.to_user_id given.amount
      → given.from_user_id ≢ ""
      → given.to_user_id ≢ ""
      → Pending id given.from_user_id given.to_user_id given.amount h.sender h.receiver
          (svc.world s).db
      → FreshPair a b (svc.world s).db
      → rel.Ready (a ∷ b ∷ ids) s
      → Succeeds svc
          (handle_message env (some x))
          s
          (λ n t. (n ≡ continue) × Delivered given id d h (svc.world t).db)
  unfolding handle_message
  handle_message-Succeeds x a b ids s n from_known to_known p fresh ready =
      let both =
        two_names x.from_user_id x.to_user_id (λ q. from_known (sym n.from_same ∙ q))
          (λ q. to_known (sym n.to_same ∙ q)) in
      rw both (
        Succeeds-attempt _ _ _ s
          (settle-Delivered svc rel env.attribute_value total given x id d h n a b ids s p fresh
            ready)
          λ r t (settled, arrived, ready_t).
            after_settle-Succeeds x r ids t settled arrived ready_t)

  pub handle_settlement_request-Succeeds :
      (x : Transaction) (body a b : String) (ids : List String) (s : svc.State)
      → env.json.unmarshal_transaction body ≡ some x
      → Names x id given.from_user_id given.to_user_id given.amount
      → given.from_user_id ≢ ""
      → given.to_user_id ≢ ""
      → Pending id given.from_user_id given.to_user_id given.amount h.sender h.receiver
          (svc.world s).db
      → FreshPair a b (svc.world s).db
      → rel.Ready (a ∷ b ∷ ids) s
      → Succeeds svc
          (handle_settlement_request env (body ∷ []))
          s
          (λ _ t. Delivered given id d h (svc.world t).db)
  unfolding handle_settlement_request
  handle_settlement_request-Succeeds x body a b ids s decoded n from_known to_known p fresh ready =
      rw decoded (
        Succeeds-bind _ _ _ s
          (handle_message-Succeeds x a b ids s n from_known to_known p fresh ready)
          λ next t (goes_on, arrived). rw goes_on (Succeeds-pure tt t arrived))

module _ (svc : Service) (rel : Reliable svc) (env : Environment)
    (total : IsTotal env.attribute_value) where
  -- On a service that answers promptly, with UUIDs that are not taken, where every value can be
  -- marshalled, and where `encoding/json` carries the transfer over the queue: if the body of a
  -- POST /transactions decodes to a request whose delay the queue takes and whose users are named,
  -- different and both have a wallet, and the sender's balance covers the amount and its reserved
  -- funds are not negative, then it is answered with 201 and a message is on the queue; and when
  -- the settlement lambda is run on that message, it ends without an error, the amount has gone
  -- from the sender's balance to the receiver's, both users' reserved funds are what they were
  -- before the request, and the transaction is COMPLETED.
  pub post_then_settle :
      (body : String) (new : NewTransaction) (id a b : String) (ids : List String) (s : svc.State)
      → env.json.decode_new_transaction body ≡ ok new
      → bad_delay (delay_of new.delay_seconds) ≡ false
      → new.from_user_id ≢ ""
      → new.to_user_id ≢ ""
      → Carries env.json id new.from_user_id new.to_user_id new.amount
      → rel.Ready (id ∷ a ∷ b ∷ ids) s
      → (h : Affordable (to_domain_new_transaction new) (svc.world s).db)
      → lookup id (svc.world s).db.transactions ≡ none
      → FreshPair a b (svc.world s).db
      → Succeeds svc (schedule_transaction_request env body) s (λ response t.
        (response.status ≡ 201)
        × (message : String) × SentBody message (svc.world t).sent
        × Succeeds svc (handle_settlement_request env (message ∷ [])) t (λ _ u.
          Delivered (to_domain_new_transaction new) id (svc.world s).db h (svc.world u).db))
  unfolding schedule_transaction_request schedule_decoded
  post_then_settle body new id a b ids s decoded timely from_known to_known carries ready h unused
        fresh =
      let w = svc.world s in
      let given = to_domain_new_transaction new in
      rw decoded (
        Succeeds-attempt _ _ _ s
          (create_transaction-Succeeds svc rel env.attribute_value total given id (a ∷ b ∷ ids)
            h.sender w h.sender_found unused h.covered s (record { here = refl; ready = ready }))
          λ tx t o.
            let n = names given tx id w.db (svc.world t).db h o.same o.numbered in
            let (message, x, encoded, read, nx) =
              carries (to_api_transaction tx) n.id_same n.from_same n.to_same n.amount_same in
            Succeeds-mono svc _ _
              (λ response u (answer, q). (
                ap Response.status answer,
                message,
                q.on_queue,
                handle_settlement_request-Succeeds svc rel env total given id w.db h x message a b
                    ids u read nx from_known to_known
                    (same-Pending _ _ q.funds (
                      request-Pending given tx id w.db (svc.world t).db h o.same o.numbered
                        o.created))
                    (record {
                      first_unused =
                          ap (lookup a) (q.funds.ledger ∙ o.entries) ∙ fresh.first_unused;
                      second_unused =
                          ap (lookup b) (q.funds.ledger ∙ o.entries) ∙ fresh.second_unused;
                      two = fresh.two;
                    })
                    q.ready,
              ))
              _ t
              (after_create-Succeeds svc rel env new tx message (a ∷ b ∷ ids) t encoded timely
                o.ready))
