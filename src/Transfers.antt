-- ===== src/Transfers.antt =====
-- All of the system's processes but CreateWallet and DeleteWallet, run at once: the requests that
-- the API serves, the WebSocket events (`NewCombinedHandler` in cmd/app/main.go tells the two
-- apart by their routes), and the runs of the two lambdas. Any of them, in any order of their
-- calls, on any answers that the services may give.
pub mod Processes
pub mod Rules
pub mod Funds
pub mod Forward
pub mod Ledger
pub mod Reading
pub mod Journey
use delayed_wallet_transacti.Prelude.{ℕ, String, Option, List, map}
use delayed_wallet_transacti.Prelude.Int.{ℤ}
use delayed_wallet_transacti.Dynamo.{Db}
use delayed_wallet_transacti.Service.{Service, time_now}
use delayed_wallet_transacti.Program.{Result, Program, pure, perform, ◌>>=◌}
use delayed_wallet_transacti.Program.Schedule.{interleave}
use delayed_wallet_transacti.Api.{Environment}
use delayed_wallet_transacti.Websockets.{handle_connect, handle_disconnect, handle_default}
use delayed_wallet_transacti.Websockets.Local.{Client, serve_http}
use delayed_wallet_transacti.Handlers.Transactions.{
  schedule_transaction_request, get_transaction_by_id, cancel_transaction_by_id, notify_settlement,
  list_transactions_request,
}
use delayed_wallet_transacti.Handlers.Wallets.{list_wallets_request, get_wallet_by_user_id}
use delayed_wallet_transacti.Handlers.Ledger.{list_ledger_entries_request}
use delayed_wallet_transacti.Lambdas.{
  settle_delivered, handle_settlement_request, handle_reconciliation_request,
}

pub data Task : Type 0 where
  post_transaction : (body : String) → Task  -- POST /transactions
  get_transaction : (id : String) → Task  -- GET /transactions/{transactionId}
  delete_transaction : (id : String) → Task  -- DELETE /transactions/{transactionId}
  post_notify_settlement : (id : String) → Task  -- POST …/{transactionId}/notify-settlement
  get_user_transactions : (user_id : String) → Task  -- GET /users/{userId}/transactions
  get_ledger : (limit : Option ℤ) → Task  -- GET /ledger
  get_wallets : Task  -- GET /wallets
  get_wallet : (user_id : String) → Task  -- GET /wallets/{userId}
  connect disconnect : (connection_id : String) → Task  -- $connect, $disconnect
  client_message : Task  -- any other route of the WebSocket
  local_socket : Result Client → Task  -- GET /ws, when developing locally
  logged : Task → Task  -- a request behind the logger of pkg/middleware/logger.go
  settlement_delivery : Task  -- a batch of the queue's messages
  settlement_lambda : (bodies : List String) → Task  -- an invocation by hand, with any messages
  reconciliation_lambda : Task

-- The logger reads the clock before the request and after it.
abbrev pub behind_logger : Program (Unit {0}) → Program (Unit {0})
behind_logger p = perform time_now >>= λ _. p >>= λ _. perform time_now >>= λ _. pure tt

-- A task without its answer.
abbrev pub quietly : {A : Type 0} → Program A → Program (Unit {0})
quietly p = p >>= λ _. pure tt

unfoldable pub task_program : Environment → Task → Program (Unit {0})
task_program env (post_transaction body) = quietly (schedule_transaction_request env body)
task_program env (get_transaction id) = quietly (get_transaction_by_id env id)
task_program env (delete_transaction id) = quietly (cancel_transaction_by_id env id)
task_program env (post_notify_settlement id) = quietly (notify_settlement env id)
task_program env (get_user_transactions user_id) = quietly (list_transactions_request env user_id)
task_program env (get_ledger limit) = quietly (list_ledger_entries_request env limit)
task_program env get_wallets = quietly (list_wallets_request env)
task_program env (get_wallet user_id) = quietly (get_wallet_by_user_id env user_id)
task_program env (connect connection_id) = quietly (handle_connect env connection_id)
task_program env (disconnect connection_id) = quietly (handle_disconnect env connection_id)
task_program env client_message = quietly (handle_default env)
task_program env (local_socket client) = quietly (serve_http env client)
task_program env (logged t) = behind_logger (task_program env t)
task_program env settlement_delivery = settle_delivered env
task_program env (settlement_lambda bodies) = handle_settlement_request env bodies
task_program env reconciliation_lambda = handle_reconciliation_request env

-- The tables after the tasks' calls have been made in the order of the schedule.
module _ (svc : Service) (env : Environment) where
  unfoldable pub transfers : List ℕ → List Task → svc.State → Db
  unfolding task_program interleave
  transfers schedule tasks s =
      (svc.world (interleave svc schedule (map (task_program env) tasks) s).1).db
