-- ===== src/Store/Guarded.antt =====
-- The calls that the methods of the store make.
use delayed_wallet_transacti.Prelude.{ℕ, String, ◌≡◌}
use delayed_wallet_transacti.Prelude.Int.{ℤ}
use delayed_wallet_transacti.Models.{Status, Instant, Transaction}
use delayed_wallet_transacti.Dynamo.{update_connection, delete_connection}
use delayed_wallet_transacti.Service.{
  Call, time_now, new_uuid, receive_messages, get_wallet_item, get_transaction_item, write_item,
  transact_write_items, scan_wallets, query_status_before, query_from_user, query_ledger_latest,
  query_connections, send_message, post_to_connection, http_post,
}
use delayed_wallet_transacti.Service.Free.{IsFree}
use delayed_wallet_transacti.Service.Reliable.{IsNotUuid}
use delayed_wallet_transacti.Program.{Result, ok, err, perform}
use delayed_wallet_transacti.Program.Issues.{Issues, Issues-perform, issue_rules}
use delayed_wallet_transacti.Store.Codec.{AttributeValue}
use delayed_wallet_transacti.Store.Wallets.{get_wallet, list_wallets}
use delayed_wallet_transacti.Store.CreateTransaction.{creation, create_transaction}
use delayed_wallet_transacti.Store.SettleTransaction.{
  lock, Settlement, settlement, acquire_transaction_lock, execute_settlement, after_lock,
  settle_transaction,
}
use delayed_wallet_transacti.Store.CancelTransaction.{
  cancellation, get_transaction, cancel_transaction,
}
use delayed_wallet_transacti.Store.Queries.{
  get_stuck_transactions, list_ledger_entries, list_transactions_by_user_id,
}
use delayed_wallet_transacti.Store.Connections.{
  add_connection, remove_connection, get_all_connections,
}

-- What `P` must admit for every call that moves no funds and asks for no UUID to satisfy it.
pub record Observes (P : Call → Type 0) : Type 0 where
  pub free : (c : Call) → IsFree c → IsNotUuid c → P c
  pub connects : (k pk : String) (t : ℤ) → P (write_item (update_connection k pk t))
  pub disconnects : (k : String) → P (write_item (delete_connection k))

-- The same with the messages to the queue.
pub record Sends (P : Call → Type 0) : Type 0 where
  pub observes : Observes P
  pub sends : (q b : String) (n : ℤ) → P (send_message q b n)

-- What it must admit for every call of the program, CreateWallet and DeleteWallet left aside.
pub record Admits (P : Call → Type 0) : Type 0 where
  pub sending : Sends P
  pub numbers : P new_uuid
  pub creates :
      (tx : Transaction) (v t : ℤ)
      → tx.status ≡ Status.reserved
      → P (transact_write_items (creation tx v t))
  pub locks : (k : String) → P (write_item (lock k))
  pub settles : (tx : Transaction) (p : Settlement) → P (transact_write_items (settlement tx p))
  pub cancels :
      (tx : Transaction) (v : ℤ) (now : Instant) → P (transact_write_items (cancellation tx v now))

module _ {P : Call → Type 0} (observes : Observes P) where
  open observes use {free}

  pub admits_time_now : Issues P (perform time_now)
  admits_time_now = Issues-perform _ (free time_now tt tt)

  pub admits_receive : Issues P (perform receive_messages)
  admits_receive = Issues-perform _ (free receive_messages tt tt)

  pub admits_get_wallet : (k : String) → Issues P (perform (get_wallet_item k))
  admits_get_wallet k = Issues-perform _ (free (get_wallet_item k) tt tt)

  pub admits_get_transaction : (k : String) → Issues P (perform (get_transaction_item k))
  admits_get_transaction k = Issues-perform _ (free (get_transaction_item k) tt tt)

  pub admits_scan : Issues P (perform scan_wallets)
  admits_scan = Issues-perform _ (free scan_wallets tt tt)

  pub admits_status : (s : Status) (t : Instant) → Issues P (perform (query_status_before s t))
  admits_status s t = Issues-perform _ (free (query_status_before s t) tt tt)

  pub admits_from : (k : String) → Issues P (perform (query_from_user k))
  admits_from k = Issues-perform _ (free (query_from_user k) tt tt)

  pub admits_ledger : (k : String) (n : ℤ) → Issues P (perform (query_ledger_latest k n))
  admits_ledger k n = Issues-perform _ (free (query_ledger_latest k n) tt tt)

  pub admits_connections : (k : String) → Issues P (perform (query_connections k))
  admits_connections k = Issues-perform _ (free (query_connections k) tt tt)

  pub admits_post : (k p : String) → Issues P (perform (post_to_connection k p))
  admits_post k p = Issues-perform _ (free (post_to_connection k p) tt tt)

  pub admits_http : (u : String) → Issues P (perform (http_post u))
  admits_http u = Issues-perform _ (free (http_post u) tt tt)

  pub admits_connect :
      (k pk : String) (t : ℤ) → Issues P (perform (write_item (update_connection k pk t)))
  admits_connect k pk t = Issues-perform _ (observes.connects k pk t)

  pub admits_disconnect : (k : String) → Issues P (perform (write_item (delete_connection k)))
  admits_disconnect k = Issues-perform _ (observes.disconnects k)

module _ {P : Call → Type 0} (sending : Sends P) where
  pub admits_observes : Observes P
  admits_observes = sending.observes

  pub admits_send : (q b : String) (n : ℤ) → Issues P (perform (send_message q b n))
  admits_send q b n = Issues-perform _ (sending.sends q b n)

module _ {P : Call → Type 0} (admits : Admits P) where
  pub admits_sending : Sends P
  admits_sending = admits.sending

  pub admits_new_uuid : Issues P (perform new_uuid)
  admits_new_uuid = Issues-perform _ admits.numbers

  pub admits_creation :
      (tx : Transaction) (v t : ℤ)
      → tx.status ≡ Status.reserved
      → Issues P (perform (transact_write_items (creation tx v t)))
  admits_creation tx v t e = Issues-perform _ (admits.creates tx v t e)

  pub admits_lock : (k : String) → Issues P (perform (write_item (lock k)))
  admits_lock k = Issues-perform _ (admits.locks k)

  pub admits_settlement :
      (tx : Transaction) (p : Settlement)
      → Issues P (perform (transact_write_items (settlement tx p)))
  admits_settlement tx p = Issues-perform _ (admits.settles tx p)

  pub admits_cancellation :
      (tx : Transaction) (v : ℤ) (now : Instant)
      → Issues P (perform (transact_write_items (cancellation tx v now)))
  admits_cancellation tx v now = Issues-perform _ (admits.cancels tx v now)

pub ruleset observed = (
  issue_rules, admits_time_now, admits_receive, admits_get_wallet, admits_get_transaction,
  admits_scan, admits_status, admits_from, admits_ledger, admits_connections, admits_post,
  admits_http, admits_connect, admits_disconnect,
)

pub ruleset sending_rules = (observed, admits_observes, admits_send)

pub ruleset admitted = (
  sending_rules, admits_sending, admits_new_uuid, admits_creation, admits_lock, admits_settlement,
  admits_cancellation,
)

module _ {P : Call → Type 0} (observes : Observes P) (av : AttributeValue) where
  pub get_wallet-Issues : (k : String) → Issues P (get_wallet av k)
  unfolding get_wallet
  get_wallet-Issues k = search observed depth 20

  pub list_wallets-Issues : Issues P (list_wallets av)
  unfolding list_wallets
  list_wallets-Issues = search observed depth 20

  pub get_transaction-Issues : (k : String) → Issues P (get_transaction av k)
  unfolding get_transaction
  get_transaction-Issues k = search observed depth 20

  pub get_stuck-Issues : (n : ℕ) → Issues P (get_stuck_transactions av n)
  unfolding get_stuck_transactions
  get_stuck-Issues n = search observed depth 20

  pub list_ledger-Issues : (n : ℤ) → Issues P (list_ledger_entries av n)
  unfolding list_ledger_entries
  list_ledger-Issues n = search observed depth 20

  pub list_by_user-Issues : (k : String) → Issues P (list_transactions_by_user_id av k)
  unfolding list_transactions_by_user_id
  list_by_user-Issues k = search observed depth 20

  pub add_connection-Issues : (k : String) → Issues P (add_connection av k)
  unfolding add_connection
  add_connection-Issues k = search observed depth 20

  pub remove_connection-Issues : (k : String) → Issues P (remove_connection av k)
  unfolding remove_connection
  remove_connection-Issues k = search observed depth 20

  pub get_connections-Issues : Issues P (get_all_connections av)
  unfolding get_all_connections
  get_connections-Issues = search observed depth 20

module _ {P : Call → Type 0} (admits : Admits P) (av : AttributeValue) where
  pub create_transaction-Issues : (tx : Transaction) → Issues P (create_transaction av tx)
  unfolding create_transaction
  create_transaction-Issues tx = search (admitted, get_wallet-Issues) depth 30

  pub acquire-Issues : (k : String) → Issues P (acquire_transaction_lock k)
  unfolding acquire_transaction_lock
  acquire-Issues k = search admitted depth 10

  execute-Issues : (tx : Transaction) → Issues P (execute_settlement av tx)
  unfolding execute_settlement
  execute-Issues tx = search (admitted, get_wallet-Issues) depth 40

  after_lock-Issues : (tx : Transaction) (r : Result (Unit {0})) → Issues P (after_lock av tx r)
  unfolding after_lock
  after_lock-Issues tx (ok _) = search (admitted, execute-Issues) depth 10
  after_lock-Issues tx (err e) = search admitted depth 10

  pub settle_transaction-Issues : (tx : Transaction) → Issues P (settle_transaction av tx)
  unfolding settle_transaction
  settle_transaction-Issues tx = search (admitted, acquire-Issues, after_lock-Issues) depth 10

  pub cancel_transaction-Issues : (k : String) → Issues P (cancel_transaction av k)
  unfolding cancel_transaction
  cancel_transaction-Issues k =
      search (admitted, get_wallet-Issues, get_transaction-Issues) depth 30
