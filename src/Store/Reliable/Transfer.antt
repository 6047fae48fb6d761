-- ===== src/Store/Reliable/Transfer.antt =====
-- A transfer from its request to its end, on a reliable service.
use mathlib.Core.Path.{subst}
use delayed_wallet_transacti.Prelude.{
  String, ◌≡◌, refl, sym, ap, ◌∙◌, ◌≢◌, true, none, some, List, ◌∷◌,
}
use delayed_wallet_transacti.Prelude.Int.{ℤ, pos, ◌+ℤ◌, ◌-ℤ◌, ◌≤ℤ◌, int_laws}
use delayed_wallet_transacti.Prelude.Table.{lookup}
use delayed_wallet_transacti.Models.{Status, Transaction, Wallet}
use delayed_wallet_transacti.Dynamo.{Db}
use delayed_wallet_transacti.Service.{Service}
use delayed_wallet_transacti.Service.Reliable.{Reliable}
use delayed_wallet_transacti.Program.{◌>>=◌}
use delayed_wallet_transacti.Program.Succeeds.{Succeeds, Succeeds-bind, Succeeds-mono}
use delayed_wallet_transacti.Store.Codec.{AttributeValue}
use delayed_wallet_transacti.Store.CreateTransaction.{create_transaction}
use delayed_wallet_transacti.Store.CreateTransaction.Atomic.{Created, SameRequest}
use delayed_wallet_transacti.Store.SettleTransaction.{settle_transaction}
use delayed_wallet_transacti.Store.CancelTransaction.{cancel_transaction}
use delayed_wallet_transacti.Store.CancelTransaction.Outcome.{Cancelled}
use delayed_wallet_transacti.Store.Reliable.{IsTotal}
use delayed_wallet_transacti.Store.Reliable.Create.{create_transaction-Succeeds}
use delayed_wallet_transacti.Store.Reliable.Settle.{FreshPair, settle_transaction-Succeeds}
use delayed_wallet_transacti.Store.Reliable.Cancel.{Cancellable, cancel_transaction-Succeeds}
use delayed_wallet_transacti.Store.Reliable.Pending.{
  Pending, Arrived, Names, Names-subst, Names-back, stored_now, Created-Pending, Pending-Payable,
  Pending-Arrived,
}
use delayed_wallet_transacti.Store.Reliable.Funds.{
  Funds, HasStatus, Created-Funds, Cancelled-Funds, Cancelled-status,
}

-- Both users have a wallet, and the sender's balance covers the amount.
pub record Affordable (given : Transaction) (d : Db) : Type 0 where
  pub sender : Wallet
  pub receiver : Wallet
  pub sender_found : lookup given.from_user_id d.wallets ≡ some sender
  pub receiver_found : lookup given.to_user_id d.wallets ≡ some receiver
  pub two_wallets : given.from_user_id ≢ given.to_user_id
  pub covered : given.amount ≤ℤ sender.balance
  pub none_owed : pos 0 ≤ℤ sender.reserved

-- As `Arrived`, with the wallets from before.
abbrev pub Delivered : (given : Transaction) → String → (d : Db) → Affordable given d → Db → Type 0
Delivered given id d h e =
    Arrived id given.from_user_id given.to_user_id given.amount h.sender h.receiver e

back : (a n : ℤ) → (a +ℤ n) -ℤ n ≡ a
back a n = omega int_laws

again : (a n : ℤ) → (a -ℤ n) +ℤ n ≡ a
again a n = omega int_laws

module _ (tx : Transaction) (d e : Db) (x : Wallet)
    (found : lookup tx.from_user_id d.wallets ≡ some x) (c : Created tx d e) where
  pub sender-Funds : Funds tx.from_user_id (x.balance -ℤ tx.amount) (x.reserved +ℤ tx.amount) e
  sender-Funds =
      Created-Funds tx d e _ _ c
        (record { wallet = x; found = found; same_balance = refl; same_reserved = refl })

  pub cancellable : Cancellable tx tx.id e
  cancellable = record {
    sender = sender-Funds.wallet;
    stored_found = stored_now tx d e c;
    same_id = refl;
    sender_found = sender-Funds.found;
    was_reserved = c.is_reserved;
  }

-- The amount is back from the reserved funds.
pub returned-Funds :
    (tx : Transaction) (e f : Db) (balance reserved : ℤ)
    → Funds tx.from_user_id (balance -ℤ tx.amount) (reserved +ℤ tx.amount) e
    → Cancelled tx e f
    → Funds tx.from_user_id balance reserved f
returned-Funds tx e f balance reserved h u =
    subst (λ n. Funds tx.from_user_id n reserved f) (again balance tx.amount)
      (subst (λ n. Funds tx.from_user_id ((balance -ℤ tx.amount) +ℤ tx.amount) n f)
        (back reserved tx.amount) (Cancelled-Funds tx e f _ _ u h))

-- A request's transaction, as it was created.
module _ (given tx : Transaction) (id : String) (d e : Db) (h : Affordable given d) where
  pub names :
      SameRequest given tx
      → tx.id ≡ id
      → Names tx id given.from_user_id given.to_user_id given.amount
  names same numbered = record {
    id_same = numbered;
    from_same = same.from_same;
    to_same = same.to_same;
    amount_same = same.amount_same;
  }

  pub request-Pending :
      SameRequest given tx
      → tx.id ≡ id
      → Created tx d e
      → Pending id given.from_user_id given.to_user_id given.amount h.sender h.receiver e
  request-Pending same numbered c =
      Names-back (λ i f t n. Pending i f t n h.sender h.receiver e) tx _ _ _ _ (names same numbered)
        (Created-Pending tx h.sender h.receiver d e
          (ap (λ k. lookup k d.wallets) same.from_same ∙ h.sender_found)
          (ap (λ k. lookup k d.wallets) same.to_same ∙ h.receiver_found)
          (λ q. h.two_wallets (sym same.from_same ∙ q ∙ same.to_same)) c)

-- The settlement of a transfer that waits, by a transaction that names it.
module _ (svc : Service) (rel : Reliable svc) (av : AttributeValue) (total : IsTotal av)
    (given x : Transaction) (id : String) (d : Db) (h : Affordable given d)
    (n : Names x id given.from_user_id given.to_user_id given.amount) where
  pub settle-Delivered :
      (a b : String) (ids : List String) (s : svc.State)
      → Pending id given.from_user_id given.to_user_id given.amount h.sender h.receiver
          (svc.world s).db
      → FreshPair a b (svc.world s).db
      → rel.Ready (a ∷ b ∷ ids) s
      → Succeeds svc
          (settle_transaction av x)
          s
          (λ r t. (r ≡ true) × Delivered given id d h (svc.world t).db × rel.Ready ids t)
  settle-Delivered a b ids s p fresh ready =
      let w = svc.world s in
      let mine = Names-subst (λ i f t n. Pending i f t n h.sender h.receiver w.db) x _ _ _ _ n p in
      Succeeds-mono svc _ _
        (λ r v (settled, paid). (
          settled,
          Names-back (λ i f t n. Arrived i f t n h.sender h.receiver (svc.world v).db) x _ _ _ _ n
              (Pending-Arrived x h.sender h.receiver w.db mine paid.between _ paid.locked
                paid.settled),
          paid.ready,
        ))
        _ s
        (settle_transaction-Succeeds svc rel av total x a b ids w s
          (Pending-Payable x h.sender h.receiver w.db mine
            (λ q. h.two_wallets (sym n.from_same ∙ q ∙ n.to_same)) h.none_owed)
          fresh (record { here = refl; ready = ready }))

module _ (svc : Service) (rel : Reliable svc) (av : AttributeValue) (total : IsTotal av)
    (given : Transaction) where
  -- On a service that answers promptly, with UUIDs that are not taken, and where every value can be
  -- marshalled and read back: when the sender's balance covers the amount, its reserved funds are
  -- not negative, and the two users are different and both have a wallet, then CreateTransaction
  -- followed by SettleTransaction of the transaction that it returns ends without an error and with
  -- true; the amount has gone from the sender's balance to the receiver's, both users' reserved
  -- funds are what they were, and the transaction is COMPLETED.
  pub create_then_settle :
      (id a b : String) (ids : List String) (s : svc.State)
      → rel.Ready (id ∷ a ∷ b ∷ ids) s
      → (h : Affordable given (svc.world s).db) → lookup id (svc.world s).db.transactions ≡ none
      → FreshPair a b (svc.world s).db
      → Succeeds svc
          (create_transaction av given >>= settle_transaction av)
          s
          (λ r t. (r ≡ true) × Delivered given id (svc.world s).db h (svc.world t).db)
  create_then_settle id a b ids s ready h unused fresh =
      let w = svc.world s in
      Succeeds-bind _ _ _ s
        (create_transaction-Succeeds svc rel av total given id (a ∷ b ∷ ids) h.sender w
          h.sender_found unused h.covered s (record { here = refl; ready = ready }))
        λ tx t o.
          Succeeds-mono svc _ _ (λ r v (settled, p, _). (settled, p)) _ t
            (settle-Delivered svc rel av total given tx id w.db h
              (names given tx id w.db (svc.world t).db h o.same o.numbered) a b ids t
              (request-Pending given tx id w.db (svc.world t).db h o.same o.numbered o.created)
              (record {
                first_unused = ap (λ l. lookup a l) o.entries ∙ fresh.first_unused;
                second_unused = ap (λ l. lookup b l) o.entries ∙ fresh.second_unused;
                two = fresh.two;
              })
              o.ready)

  -- On a service that answers promptly, with a UUID that is not taken, and where every value can be
  -- marshalled and read back: when the sender's balance covers the amount, then CreateTransaction
  -- followed by CancelTransaction of the transaction that it returns ends without an error, the
  -- sender's balance and reserved funds are what they were, and the transaction is CANCELLED.
  pub create_then_cancel :
      (id : String) (ids : List String) (sender : Wallet) (s : svc.State)
      → rel.Ready (id ∷ ids) s
      → lookup given.from_user_id (svc.world s).db.wallets ≡ some sender
      → given.amount ≤ℤ sender.balance
      → lookup id (svc.world s).db.transactions ≡ none
      → Succeeds svc (create_transaction av given >>= λ tx. cancel_transaction av tx.id) s (λ _ t.
        Funds given.from_user_id sender.balance sender.reserved (svc.world t).db
        × HasStatus id Status.cancelled (svc.world t).db)
  create_then_cancel id ids sender s ready found covered unused =
      let w = svc.world s in
      Succeeds-bind _ _ _ s
        (create_transaction-Succeeds svc rel av total given id ids sender w found unused covered s
          (record { here = refl; ready = ready }))
        λ tx t o.
          Succeeds-mono svc _ _
            (λ _ v c. (
              subst (λ k. Funds k sender.balance sender.reserved (svc.world v).db) o.same.from_same
                  (returned-Funds tx (svc.world t).db (svc.world v).db sender.balance
                    sender.reserved
                    (sender-Funds tx w.db (svc.world t).db sender
                      (ap (λ k. lookup k w.db.wallets) o.same.from_same ∙ found) o.created)
                    c),
              subst (λ k. HasStatus k Status.cancelled (svc.world v).db) o.numbered
                  (Cancelled-status tx (svc.world t).db (svc.world v).db c),
            ))
            _ t
            (cancel_transaction-Succeeds svc rel av total tx tx.id ids (svc.world t)
              (cancellable tx w.db (svc.world t).db sender
                (ap (λ k. lookup k w.db.wallets) o.same.from_same ∙ found) o.created)
              t (record { here = refl; ready = o.ready }))
