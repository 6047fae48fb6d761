-- ===== src/Transfers/Processes.antt =====
-- The calls that the request handlers, the WebSocket events and the two lambdas make.
use delayed_wallet_transacti.Prelude.{String, Bool, true, false, Option, none, some, List, [], ◌∷◌}
use delayed_wallet_transacti.Prelude.Int.{ℤ}
use delayed_wallet_transacti.Models.{Transaction, Wallet}
use delayed_wallet_transacti.Service.{time_now, new_uuid, Call, Outcome, done, fault}
use delayed_wallet_transacti.Program.{Result, ok, err, Program, perform}
use delayed_wallet_transacti.Program.Issues.{Issues, Issues-bind, issue_rules}
use delayed_wallet_transacti.Errors.{Error}
use delayed_wallet_transacti.Websockets.Local.{Client, after_wait, after_add, serve_http}
use delayed_wallet_transacti.Api.{ApiTransaction, NewTransaction, WalletUpdate, Environment}
use delayed_wallet_transacti.Scheduler.{schedule_transaction}
use delayed_wallet_transacti.Websockets.{
  after_post, post_each, publish, handle_connect, handle_disconnect, handle_default,
}
use delayed_wallet_transacti.Handlers.Transactions.{
  notify, notify_sender, after_create, schedule_decoded, schedule_transaction_request,
  get_transaction_by_id, cancel_transaction_by_id, notify_recipient, notify_found,
  notify_settlement, list_transactions_request,
}
use delayed_wallet_transacti.Handlers.Wallets.{list_wallets_request, get_wallet_by_user_id}
use delayed_wallet_transacti.Handlers.Ledger.{list_ledger_entries_request}
use delayed_wallet_transacti.Lambdas.{
  Next, continue, return, post_notification, notify_api, after_settle, handle_message,
  next_or_return, settle_delivered, handle_settlement_request, reschedule_each,
  handle_reconciliation_request,
}
use delayed_wallet_transacti.Store.Guarded.{
  admits_time_now, Observes, observed, Sends, sending_rules, Admits, admitted, get_wallet-Issues,
  list_wallets-Issues, get_transaction-Issues, create_transaction-Issues, settle_transaction-Issues,
  cancel_transaction-Issues, get_stuck-Issues, list_ledger-Issues, list_by_user-Issues,
  add_connection-Issues, remove_connection-Issues, get_connections-Issues,
}
use delayed_wallet_transacti.Transfers.{
  Task, post_transaction, get_transaction, delete_transaction, post_notify_settlement,
  get_user_transactions, get_ledger, get_wallets, get_wallet, connect, disconnect, client_message,
  local_socket, logged, behind_logger, settlement_delivery, settlement_lambda,
  reconciliation_lambda, task_program,
}

module _ {P : Call → Type 0} (sending : Sends P) (env : Environment) where
  pub schedule-Issues :
      (tx : ApiTransaction) (delay : ℤ) → Issues P (schedule_transaction env tx delay)
  unfolding schedule_transaction
  schedule-Issues tx delay = search sending_rules depth 20

module _ {P : Call → Type 0} (observes : Observes P) (env : Environment) where
  after_post-Issues : (k : String) (r : Outcome (Unit {0})) → Issues P (after_post env k r)
  unfolding after_post
  after_post-Issues k (done _) = search observed depth 10
  after_post-Issues k (fault e) = search (observed, remove_connection-Issues) depth 10

  post_each-Issues : (p : String) (ks : List String) → Issues P (post_each env p ks)
  unfolding post_each
  post_each-Issues p [] = search observed depth 10
  post_each-Issues p (k ∷ ks) =
      let rest = post_each-Issues p ks in search (observed, after_post-Issues) depth 10

  pub publish-Issues : (u : WalletUpdate) → Issues P (publish env u)
  unfolding publish
  publish-Issues u = search (observed, get_connections-Issues, post_each-Issues) depth 10

  pub connect-Issues : (k : String) → Issues P (handle_connect env k)
  unfolding handle_connect
  connect-Issues k = search (observed, add_connection-Issues) depth 10

  pub disconnect-Issues : (k : String) → Issues P (handle_disconnect env k)
  unfolding handle_disconnect
  disconnect-Issues k = search (observed, remove_connection-Issues) depth 10

  pub default-Issues : Issues P (handle_default env)
  unfolding handle_default
  default-Issues = search observed depth 10

  notify-Issues : (u : WalletUpdate) → Issues P (notify env u)
  unfolding notify
  notify-Issues u = search (observed, publish-Issues) depth 10

  pub notify_sender-Issues :
      (tx : Transaction) (r : Result Wallet) → Issues P (notify_sender env tx r)
  unfolding notify_sender
  notify_sender-Issues tx (ok w) = notify-Issues _
  notify_sender-Issues tx (err e) = search observed depth 10

  pub get_by_id-Issues : (k : String) → Issues P (get_transaction_by_id env k)
  unfolding get_transaction_by_id
  get_by_id-Issues k = search (observed, get_transaction-Issues) depth 10

  pub notify_recipient-Issues :
      (tx : Transaction) (r : Result Wallet) → Issues P (notify_recipient env tx r)
  unfolding notify_recipient
  notify_recipient-Issues tx (ok w) = search (observed, notify-Issues) depth 10
  notify_recipient-Issues tx (err e) = search observed depth 10

  pub notify_found-Issues : (r : Result Transaction) → Issues P (notify_found env r)
  unfolding notify_found
  notify_found-Issues (ok tx) =
      search (observed, get_wallet-Issues, notify_recipient-Issues) depth 10
  notify_found-Issues (err e) = search observed depth 10

  pub notify_settlement-Issues : (k : String) → Issues P (notify_settlement env k)
  unfolding notify_settlement
  notify_settlement-Issues k =
      search (observed, get_transaction-Issues, notify_found-Issues) depth 10

  pub list_request-Issues : (k : String) → Issues P (list_transactions_request env k)
  unfolding list_transactions_request
  list_request-Issues k = search (observed, list_by_user-Issues) depth 10

  pub ledger_request-Issues : (n : Option ℤ) → Issues P (list_ledger_entries_request env n)
  unfolding list_ledger_entries_request
  ledger_request-Issues n = search (observed, list_ledger-Issues) depth 10

  pub wallets_request-Issues : Issues P (list_wallets_request env)
  unfolding list_wallets_request
  wallets_request-Issues = search (observed, list_wallets-Issues) depth 10

  pub wallet_request-Issues : (k : String) → Issues P (get_wallet_by_user_id env k)
  unfolding get_wallet_by_user_id
  wallet_request-Issues k = search (observed, get_wallet-Issues) depth 10

  pub post_notification-Issues : (tx : Transaction) → Issues P (post_notification env tx)
  unfolding post_notification
  post_notification-Issues tx = search observed depth 10

  pub notify_api-Issues : (tx : Transaction) → Issues P (notify_api env tx)
  unfolding notify_api
  notify_api-Issues tx = search (observed, post_notification-Issues) depth 10

  pub after_settle-Issues : (tx : Transaction) (r : Result Bool) → Issues P (after_settle env tx r)
  unfolding after_settle
  after_settle-Issues tx (ok true) = search (observed, notify_api-Issues) depth 10
  after_settle-Issues tx (ok false) = search observed depth 10
  after_settle-Issues tx (err e) = search observed depth 10

module _ {P : Call → Type 0} (observes : Observes P) (numbers : P new_uuid)
    (env : Environment) where
  after_wait-Issues : (k : String) (o : Option Error) → Issues P (after_wait env k o)
  unfolding after_wait
  after_wait-Issues k none = search observed depth 10
  after_wait-Issues k (some e) = search (observed, remove_connection-Issues) depth 10

  after_add-Issues :
      (c : Client) (k : String) (r : Result (Unit {0})) → Issues P (after_add env c k r)
  unfolding after_add
  after_add-Issues c k (ok _) = after_wait-Issues k _
  after_add-Issues c k (err e) = search observed depth 10

  pub serve_http-Issues : (r : Result Client) → Issues P (serve_http env r)
  unfolding serve_http
  serve_http-Issues (ok c) = search (observed, add_connection-Issues, after_add-Issues) depth 10
  serve_http-Issues (err e) = search observed depth 10

module _ {P : Call → Type 0} (clock : Issues P (perform time_now)) where
  pub behind_logger-Issues : (p : Program (Unit {0})) → Issues P p → Issues P (behind_logger p)
  behind_logger-Issues p h = search (issue_rules, clock, h) depth 10

module _ {P : Call → Type 0} (admits : Admits P) (env : Environment) where
  after_create-Issues :
      (new : NewTransaction) (r : Result Transaction) → Issues P (after_create env new r)
  unfolding after_create
  after_create-Issues new (ok tx) =
      search (admitted, schedule-Issues, get_wallet-Issues, notify_sender-Issues) depth 20
  after_create-Issues new (err e) = search admitted depth 10

  schedule_decoded-Issues : (r : Result NewTransaction) → Issues P (schedule_decoded env r)
  unfolding schedule_decoded
  schedule_decoded-Issues (ok new) =
      search (admitted, create_transaction-Issues, after_create-Issues) depth 10
  schedule_decoded-Issues (err e) = search admitted depth 10

  schedule_request-Issues : (b : String) → Issues P (schedule_transaction_request env b)
  unfolding schedule_transaction_request
  schedule_request-Issues b = schedule_decoded-Issues _

  cancel_by_id-Issues : (k : String) → Issues P (cancel_transaction_by_id env k)
  unfolding cancel_transaction_by_id
  cancel_by_id-Issues k = search (admitted, cancel_transaction-Issues) depth 10

  handle_message-Issues : (o : Option Transaction) → Issues P (handle_message env o)
  unfolding handle_message
  handle_message-Issues none = search admitted depth 10
  handle_message-Issues (some tx) =
      search (admitted, settle_transaction-Issues, after_settle-Issues) depth 10

  next-Issues : (p : Program (Unit {0})) (n : Next) → Issues P p → Issues P (next_or_return env p n)
  next-Issues p continue h = h
  next-Issues p return h = search admitted depth 10

  settlement_request-Issues : (bs : List String) → Issues P (handle_settlement_request env bs)
  unfolding handle_settlement_request
  settlement_request-Issues [] = search admitted depth 10
  settlement_request-Issues (b ∷ bs) =
      let rest = settlement_request-Issues bs in
      Issues-bind _ _ (handle_message-Issues _) (λ n. next-Issues _ n rest)

  delivered-Issues : Issues P (settle_delivered env)
  unfolding settle_delivered
  delivered-Issues = search (admitted, settlement_request-Issues) depth 10

  reschedule-Issues : (txs : List Transaction) → Issues P (reschedule_each env txs)
  unfolding reschedule_each
  reschedule-Issues [] = search admitted depth 10
  reschedule-Issues (tx ∷ txs) =
      let rest = reschedule-Issues txs in search (admitted, schedule-Issues) depth 10

  reconciliation_request-Issues : Issues P (handle_reconciliation_request env)
  unfolding handle_reconciliation_request
  reconciliation_request-Issues = search (admitted, get_stuck-Issues, reschedule-Issues) depth 10

  pub task-Issues : (t : Task) → Issues P (task_program env t)
  unfolding task_program
  task-Issues (post_transaction b) = search (admitted, schedule_request-Issues) depth 10
  task-Issues (get_transaction k) = search (admitted, get_by_id-Issues) depth 10
  task-Issues (delete_transaction k) = search (admitted, cancel_by_id-Issues) depth 10
  task-Issues (post_notify_settlement k) = search (admitted, notify_settlement-Issues) depth 10
  task-Issues (get_user_transactions k) = search (admitted, list_request-Issues) depth 10
  task-Issues (get_ledger n) = search (admitted, ledger_request-Issues) depth 10
  task-Issues get_wallets = search (admitted, wallets_request-Issues) depth 10
  task-Issues (get_wallet k) = search (admitted, wallet_request-Issues) depth 10
  task-Issues (connect k) = search (admitted, connect-Issues) depth 10
  task-Issues (disconnect k) = search (admitted, disconnect-Issues) depth 10
  task-Issues client_message = search (admitted, default-Issues) depth 10
  task-Issues (local_socket c) =
      search (admitted, serve_http-Issues admits.sending.observes admits.numbers env) depth 10
  task-Issues (logged t) =
      behind_logger-Issues (admits_time_now admits.sending.observes) _ (task-Issues t)
  task-Issues settlement_delivery = delivered-Issues
  task-Issues (settlement_lambda bs) = settlement_request-Issues bs
  task-Issues reconciliation_lambda = reconciliation_request-Issues
