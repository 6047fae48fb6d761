-- ===== src/Transfers/Funds.antt =====
-- Transfers neither make nor lose money: the sum of all balances and reserved funds stays.
use delayed_wallet_transacti.Prelude.{ℕ, ◌≡◌, refl, ◌∙◌, List, ap}
use delayed_wallet_transacti.Prelude.Int.{ℤ, pos, ◌+ℤ◌, ◌-ℤ◌, int_laws}
use delayed_wallet_transacti.Prelude.Table.{
  insert, sum_by, sum_by-insert, sum_by-insert_same, lookup-insert_ne,
}
use delayed_wallet_transacti.Models.{Transaction, Wallet}
use delayed_wallet_transacti.Dynamo.{Db}
use delayed_wallet_transacti.Service.{Service}
use delayed_wallet_transacti.Api.{Environment}
use delayed_wallet_transacti.Store.CreateTransaction.Atomic.{Created}
use delayed_wallet_transacti.Store.SettleTransaction.Effects.{Settled}
use delayed_wallet_transacti.Store.CancelTransaction.Outcome.{Cancelled}
use delayed_wallet_transacti.Transfers.{Task, transfers}
use delayed_wallet_transacti.Transfers.Rules.{Invariance, transfers-Rel}

abbrev pub holdings : Wallet → ℤ
holdings w = w.balance +ℤ w.reserved

-- All the money in the wallets.
abbrev pub total_funds : Db → ℤ
total_funds d = sum_by holdings d.wallets

module _ (tx : Transaction) (d e : Db) where
  Created-funds : Created tx d e → total_funds e ≡ total_funds d
  Created-funds c =
      ap total_funds c.result
      ∙ sum_by-insert_same holdings _ _ c.sender d.wallets c.found (omega int_laws)

  Cancelled-funds : Cancelled tx d e → total_funds e ≡ total_funds d
  Cancelled-funds c =
      ap total_funds c.result
      ∙ sum_by-insert_same holdings _ _ c.sender d.wallets c.sender_found (omega int_laws)

  Settled-funds : Settled tx d e → total_funds e ≡ total_funds d
  Settled-funds c = ap total_funds c.result ∙ moved
    where
      open c use {sender, receiver, p}

      sender' : Wallet
      sender' = record sender {
        reserved = sender.reserved -ℤ tx.amount;
        version = sender.version +ℤ pos 1;
        ttl = p.sender_ttl;
      }

      receiver' : Wallet
      receiver' = record receiver {
        balance = receiver.balance +ℤ tx.amount;
        version = receiver.version +ℤ pos 1;
        ttl = p.receiver_ttl;
      }

      paid :
          sum_by holdings (insert tx.from_user_id sender' d.wallets) +ℤ holdings sender
          ≡ sum_by holdings d.wallets +ℤ holdings sender'
      paid = sum_by-insert holdings tx.from_user_id sender' sender d.wallets c.sender_found

      received :
          sum_by holdings
              (insert tx.to_user_id receiver' (insert tx.from_user_id sender' d.wallets))
            +ℤ holdings receiver
          ≡ sum_by holdings (insert tx.from_user_id sender' d.wallets) +ℤ holdings receiver'
      received =
          sum_by-insert holdings tx.to_user_id receiver' receiver _
            (lookup-insert_ne _ _ sender' d.wallets c.two_wallets ∙ c.receiver_found)

      moved :
          sum_by holdings
            (insert tx.to_user_id receiver' (insert tx.from_user_id sender' d.wallets))
          ≡ total_funds d
      moved = grind (int_laws, paid, received)

funds_invariance : Invariance (λ d e. total_funds e ≡ total_funds d)
funds_invariance = record {
  same = λ d. refl;
  after = λ c d e p q. q ∙ p;
  created = Created-funds;
  locked = λ k d e l. ap total_funds l.result;
  settled = Settled-funds;
  cancelled = Cancelled-funds;
  connected = λ d cs. refl;
}

-- Any interleaving of requests (CreateWallet and DeleteWallet aside), WebSocket events and lambda
-- runs, with any faults of the services,
-- leaves the sum of all balances and reserved funds as it was.
pub transfers-total_funds :
    (svc : Service) (env : Environment) (schedule : List ℕ) (tasks : List Task) (s : svc.State)
    → total_funds (transfers svc env schedule tasks s) ≡ total_funds (svc.world s).db
transfers-total_funds = transfers-Rel (λ d e. total_funds e ≡ total_funds d) funds_invariance
