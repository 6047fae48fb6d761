-- ===== src/Transfers/Journey/Same.antt =====
-- What is known of a transfer stays known where the funds and the transactions are the same.
use delayed_wallet_transacti.Prelude.{String, ap, ◌∙◌}
use delayed_wallet_transacti.Prelude.Int.{ℤ}
use delayed_wallet_transacti.Prelude.Table.{lookup}
use delayed_wallet_transacti.Models.{Status, Transaction, Wallet}
use delayed_wallet_transacti.Dynamo.{Db}
use delayed_wallet_transacti.Store.Reliable.Cancel.{Cancellable}
use delayed_wallet_transacti.Store.Reliable.Funds.{Funds, HasStatus}
use delayed_wallet_transacti.Store.Reliable.Pending.{Pending, Arrived}
use delayed_wallet_transacti.Handlers.Transactions.Scheduling.{SameFunds}

module _ (d e : Db) (same : SameFunds d e) where
  pub same-Funds : {k : String} {a b : ℤ} → Funds k a b d → Funds k a b e
  same-Funds {k} f = record {
    wallet = f.wallet;
    found = ap (lookup k) same.wallets ∙ f.found;
    same_balance = f.same_balance;
    same_reserved = f.same_reserved;
  }

  same-HasStatus : {id : String} {st : Status} → HasStatus id st d → HasStatus id st e
  same-HasStatus {id} h = record {
    stored = h.stored;
    found = ap (lookup id) same.transactions ∙ h.found;
    has_status = h.has_status;
  }

  pub same-Cancellable : {tx : Transaction} {k : String} → Cancellable tx k d → Cancellable tx k e
  same-Cancellable {tx} {k} h = record {
    sender = h.sender;
    stored_found = ap (lookup k) same.transactions ∙ h.stored_found;
    same_id = h.same_id;
    sender_found = ap (lookup tx.from_user_id) same.wallets ∙ h.sender_found;
    was_reserved = h.was_reserved;
  }

  module _ {id from to : String} {amount : ℤ} {s r : Wallet} where
    pub same-Pending : Pending id from to amount s r d → Pending id from to amount s r e
    same-Pending p = record {
      sender = same-Funds p.sender;
      receiver = same-Funds p.receiver;
      waiting = same-HasStatus p.waiting;
    }

    pub same-Arrived : Arrived id from to amount s r d → Arrived id from to amount s r e
    same-Arrived p = record {
      sender = same-Funds p.sender;
      receiver = same-Funds p.receiver;
      completed = same-HasStatus p.completed;
    }
