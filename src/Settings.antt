-- ===== src/Settings.antt =====
-- How the processes are set up: `main` and `getEnv` of cmd/app/main.go, the `init` functions of
-- the two lambdas, and the constructors of pkg/storage/dynamodb/store.go, pkg/scheduler/sqs.go and
-- pkg/websockets/publisher.go. The variables of the environment and the loading of the AWS
-- configuration are parameters.
pub mod Agreement
use delayed_wallet_transacti.Prelude.{String, Option, none, some, ◌==◌, if◌then◌else◌}
use delayed_wallet_transacti.Errors.{Error, message, wrap}
use delayed_wallet_transacti.Program.{Result, ok, err}

-- The environment's variables: those that are set, with their texts.
abbrev pub Variables : Type 0
Variables = String → Option String

abbrev pub value_or : String → Option String → String
value_or fallback none = fallback
value_or fallback (some v) = v

-- `os.Getenv`
abbrev pub getenv : Variables → String → String
getenv variables key = value_or "" (variables key)

-- `getEnv` of cmd/app/main.go, on `os.LookupEnv`.
abbrev pub get_env : Variables → String → String → String
get_env variables key fallback = value_or fallback (variables key)

-- The table names of a `Store`.
pub record Store : Type 0 where
  pub transactions_table_name : String
  pub wallets_table_name : String
  pub ledger_table_name : String
  pub websocket_connections_table_name : String

-- `New`
abbrev pub new_store : (transactions wallets ledger connections : String) → Store
new_store transactions wallets ledger connections = record {
  transactions_table_name = transactions;
  wallets_table_name = wallets;
  ledger_table_name = ledger;
  websocket_connections_table_name = connections;
}

-- `NewTransactionReader` leaves the other names empty.
abbrev pub new_transaction_reader : (transactions : String) → Store
new_transaction_reader transactions = record {
  transactions_table_name = transactions;
  wallets_table_name = "";
  ledger_table_name = "";
  websocket_connections_table_name = "";
}

-- `SQSScheduler`
pub record SqsScheduler : Type 0 where
  pub queue_url : String

-- `NewSQSScheduler`
abbrev pub new_sqs_scheduler : String → SqsScheduler
new_sqs_scheduler queue_url = record { queue_url = queue_url }

-- `DefaultPublisher`; of its client, the endpoint.
pub record Publisher : Type 0 where
  pub store : Store
  pub conn_manager : Store
  pub base_endpoint : String

-- `NewPublisher`: the configuration is loaded, or it is not.
abbrev pub new_publisher :
    Result (Unit {0}) → (store conn_manager : Store) → (endpoint : String) → Result Publisher
new_publisher (err e) store conn_manager endpoint = err (wrap "failed to load aws config" e)
new_publisher (ok _) store conn_manager endpoint =
    ok (record { store = store; conn_manager = conn_manager; base_endpoint = endpoint })

pub record ApiProcess : Type 0 where
  pub store : Store
  pub scheduler : SqsScheduler
  pub publisher : Publisher

pub record SettlementProcess : Type 0 where
  pub store : Store
  pub api_base_url : String

pub record ReconciliationProcess : Type 0 where
  pub store : Store
  pub scheduler : SqsScheduler

abbrev api_with : Store → SqsScheduler → Result Publisher → Result ApiProcess
api_with store scheduler (err e) = err (wrap "failed to create websocket publisher" e)
api_with store scheduler (ok publisher) =
    ok (record { store = store; scheduler = scheduler; publisher = publisher })

-- An error stands for `log.Fatal`: the process exits. `NewPublisher` loads the configuration anew.
module _ (config publisher_config : Result (Unit {0})) (variables : Variables) where
  abbrev pub api_store : Store
  api_store =
      new_store (get_env variables "DYNAMODB_TRANSACTIONS_TABLE_NAME" "Transactions")
        (get_env variables "DYNAMODB_WALLETS_TABLE_NAME" "Wallets")
        (get_env variables "DYNAMODB_LEDGER_TABLE_NAME" "LedgerEntries")
        (get_env variables "DYNAMODB_WEBSOCKET_CONNECTIONS_TABLE_NAME" "WebsocketConnections")

  abbrev pub api_configured : Result (Unit {0}) → Result ApiProcess
  api_configured (err e) = err (wrap "unable to load SDK config" e)
  api_configured (ok _) =
      api_with api_store (new_sqs_scheduler (get_env variables "SQS_QUEUE_URL" "")) (
        new_publisher publisher_config api_store api_store
          (get_env variables "WEBSOCKET_API_ENDPOINT" ""))

  -- `main` of cmd/app/main.go, up to its handlers.
  abbrev pub start_api : Result ApiProcess
  start_api = api_configured config

-- The `init` functions of the lambdas.
module _ (variables : Variables) where
  -- cmd/settlement_lambda/main.go
  abbrev pub start_settlement : Result (Unit {0}) → Result SettlementProcess
  start_settlement (err e) = err (wrap "unable to load SDK config" e)
  start_settlement (ok _) = ok (record {
    store =
        new_store (getenv variables "DYNAMODB_TRANSACTIONS_TABLE_NAME")
          (getenv variables "DYNAMODB_WALLETS_TABLE_NAME")
          (getenv variables "DYNAMODB_LEDGER_TABLE_NAME") "";
    api_base_url = getenv variables "API_BASE_URL";
  })

  -- cmd/reconciliation_lambda/main.go
  abbrev pub with_queue : String → Result ReconciliationProcess
  with_queue queue_url =
      if queue_url == ""
      then err (message "SQS_QUEUE_URL environment variable not set")
      else ok (record {
        store = new_transaction_reader (getenv variables "DYNAMODB_TRANSACTIONS_TABLE_NAME");
        scheduler = new_sqs_scheduler queue_url;
      })

  abbrev pub start_reconciliation : Result (Unit {0}) → Result ReconciliationProcess
  start_reconciliation (err e) = err (wrap "unable to load SDK config" e)
  start_reconciliation (ok _) = with_queue (getenv variables "SQS_QUEUE_URL")
