-- ===== src/Tests/Http.antt =====
-- The API's HTTP handler and its local WebSocket endpoint on the small bank, and the settings of
-- the three processes.
use delayed_wallet_transacti.Prelude.{
  zero, suc, ◌≡◌, refl, none, some, [], ◌∷◌, ◌==◌, if◌then◌else◌, arith,
}
use delayed_wallet_transacti.Errors.{message}
use delayed_wallet_transacti.Service.Memory.{memory}
use delayed_wallet_transacti.Program.{ok, err, run}
use delayed_wallet_transacti.Program.Succeeds.{Succeeds}
use delayed_wallet_transacti.Handlers.{status_only}
use delayed_wallet_transacti.Handlers.Transactions.{get_transaction_by_id}
use delayed_wallet_transacti.Handlers.Transactions.Answers.{GetOutcome, get_by_id-Outcome}
use delayed_wallet_transacti.Server.{HttpRequest}
use delayed_wallet_transacti.Middleware.{structured_logger}
use delayed_wallet_transacti.Middleware.Transparent.{Logged, structured_logger-Logged}
use delayed_wallet_transacti.Websockets.Local.{Client, disconnected, serve_http}
use delayed_wallet_transacti.Websockets.Local.Ends.{Left, serve_http-ends}
use delayed_wallet_transacti.App.Http.{Front, api, http_handler}
use delayed_wallet_transacti.Settings.{
  Variables, ReconciliationProcess, new_transaction_reader, new_sqs_scheduler,
}
use delayed_wallet_transacti.Settings.Agreement.{Agree, started-Agree, the_api, the_settlement}
use delayed_wallet_transacti.Tests.{bank, process, reserved_rent}
use delayed_wallet_transacti.Tests.Events.{web, web-IsFitting, events}
use delayed_wallet_transacti.App.{combined_handler}
use delayed_wallet_transacti.App.Jobs.{job_program, event_job}
use delayed_wallet_transacti.App.Processes.{combined_handler-event_job}
use delayed_wallet_transacti.Transfers.{quietly}
use delayed_wallet_transacti.Tests.Reliable.{reliable_memory, codec-IsTotal}

abbrev get_t1 : HttpRequest
get_t1 = record {
  method = "GET";
  path = "transactions" ∷ "t1" ∷ [];
  query = "";
  body = "";
  remote_addr = "127.0.0.1";
}

structured_logger-Logged_example :
    let (l, m) =
      run memory
        (structured_logger (λ _. 0) (λ _. get_transaction_by_id process "t1") get_t1)
        reserved_rent in
    Logged (λ _. 0) get_t1 (GetOutcome process "t1" reserved_rent.contents) l m.contents
structured_logger-Logged_example =
    structured_logger-Logged (λ _. 0) (λ _. get_transaction_by_id process "t1") get_t1
      (GetOutcome process "t1" reserved_rent.contents) memory reserved_rent
      (get_by_id-Outcome process "t1" reserved_rent.contents)

-- A client that sends one message and leaves.
abbrev one_message : Client
one_message = record {
  read = elim [ zero ↦ ok "ping" | suc _ ↦ err (message "closed") ];
  rounds = 3;
}

serve_http-ends_example :
    Succeeds memory
      (serve_http process (ok one_message))
      bank
      (λ r t. (r ≡ disconnected) × Left "t1" bank.contents.db t.contents.db)
serve_http-ends_example =
    serve_http-ends memory reliable_memory process codec-IsTotal one_message "t1" [] 1
      (message "closed") bank (refl, tt) refl (omega arith)

abbrev front : Front
front = record {
  choose = λ registered r. if r.method == "GET" then some api else none;
  not_found = λ r. status_only 404;
  preflight = λ r. if r.method == "OPTIONS" then some (status_only 204) else none;
  upgrade = λ r. ok one_message;
  hijacked = λ e. status_only 101;
  bytes_written = λ r. 0;
  read_spec = err (message "no such file");
  swagger_page = λ spec r. status_only 200;
}

-- Only the queue and the transactions table are named.
abbrev variables : Variables
variables key =
    if key == "SQS_QUEUE_URL"
    then some "queue"
    else if key == "DYNAMODB_TRANSACTIONS_TABLE_NAME"
    then some "Transfers"
    else none

abbrev reconciliation : ReconciliationProcess
reconciliation = record {
  store = new_transaction_reader "Transfers";
  scheduler = new_sqs_scheduler "queue";
}

started-Agree_example :
    Agree variables (the_api variables) (the_settlement variables) reconciliation
started-Agree_example =
    started-Agree variables (ok tt, ok tt, ok tt, ok tt) (the_api variables)
      (the_settlement variables) reconciliation refl refl refl

combined_handler-event_job_example :
    quietly (combined_handler events process (http_handler front web process none) "t1")
    ≡ job_program process
        (event_job web front none (events.websocket_request "t1") (events.http_request "t1"))
combined_handler-event_job_example =
    combined_handler-event_job web process events front none "t1" web-IsFitting
