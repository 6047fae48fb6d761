-- ===== src/Handlers/Api.antt =====
-- pkg/handlers/handlers.go: the API's handlers as one implementation of the generated interface.
use delayed_wallet_transacti.Api.{Environment}
use delayed_wallet_transacti.Handlers.Transactions.{
  schedule_transaction_request, get_transaction_by_id, cancel_transaction_by_id, notify_settlement,
  list_transactions_request,
}
use delayed_wallet_transacti.Handlers.Wallets.{
  create_wallet_request, delete_wallet_request, list_wallets_request, get_wallet_by_user_id,
}
use delayed_wallet_transacti.Handlers.Ledger.{list_ledger_entries_request}
use delayed_wallet_transacti.Server.{ServerInterface}

-- `ApiHandler`, as `NewApiHandler` makes it.
abbrev pub api_handler : Environment → ServerInterface
api_handler env = record {
  list_ledger_entries = list_ledger_entries_request env;
  schedule_transaction = schedule_transaction_request env;
  cancel_transaction_by_id = cancel_transaction_by_id env;
  get_transaction_by_id = get_transaction_by_id env;
  notify_settlement = notify_settlement env;
  list_transactions_by_user_id = list_transactions_request env;
  list_wallets = list_wallets_request env;
  create_wallet = create_wallet_request env;
  delete_wallet = delete_wallet_request env;
  get_wallet_by_user_id = get_wallet_by_user_id env;
}
