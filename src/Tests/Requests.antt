-- ===== src/Tests/Requests.antt =====
-- Requests to the API and runs of the lambdas on the same bank.
use delayed_wallet_transacti.Models.{ttl_from}
use delayed_wallet_transacti.Errors.{Error, message}
use delayed_wallet_transacti.Handlers.{http_error, failed}
use delayed_wallet_transacti.Models.Dates.{text_before}
use delayed_wallet_transacti.Service.Pages.{item_page}
use delayed_wallet_transacti.Store.Queries.{get_stuck_transactions}
use delayed_wallet_transacti.Prelude.{◌≡◌, refl, ◌++◌, true, inl, inr, none, List, [], ◌∷◌}
use delayed_wallet_transacti.Prelude.Int.{pos, negsuc}
use delayed_wallet_transacti.Models.{Wallet, Status}
use delayed_wallet_transacti.Prelude.Table.{lookup}
use delayed_wallet_transacti.Dynamo.{Db}
use delayed_wallet_transacti.Service.{Seen, time_now}
use delayed_wallet_transacti.Service.Memory.{Memory, memory}
use delayed_wallet_transacti.Program.{ok, run}
use delayed_wallet_transacti.Api.Mapping.{to_api_transaction}
use delayed_wallet_transacti.Scheduler.{seconds, schedule_transaction}
use delayed_wallet_transacti.Scheduler.Delays.{QueueOutcome, schedule_transaction-Outcome}
use delayed_wallet_transacti.Store.Wallets.{create_wallet, delete_wallet}
use delayed_wallet_transacti.Store.Wallets.Outcome.{
  OpenOutcome, CloseOutcome, create_wallet-Outcome, delete_wallet-Outcome,
}
use delayed_wallet_transacti.Handlers.Transactions.{cancel_transaction_by_id, get_transaction_by_id}
use delayed_wallet_transacti.Handlers.Transactions.Answers.{
  DeleteOutcome, GetOutcome, cancel_transaction_by_id-Outcome, cancel_transaction_by_id-missing,
  get_transaction_by_id-Outcome,
}
use delayed_wallet_transacti.Handlers.Transactions.Scheduling.{SameFunds}
use delayed_wallet_transacti.Handlers.Wallets.{
  create_decoded, create_wallet_request, delete_wallet_request,
}
use delayed_wallet_transacti.Handlers.Wallets.Answers.{
  CreateRequestOutcome, DeleteRequestOutcome, create_wallet_request-Outcome,
  delete_wallet_request-Outcome,
}
use delayed_wallet_transacti.Api.{Response, WalletUpdate, Environment}
use delayed_wallet_transacti.Websockets.{publish}
use delayed_wallet_transacti.Websockets.Posting.{Delivered}
use delayed_wallet_transacti.Websockets.Delivery.{PublishOutcome, publish-Outcome}
use delayed_wallet_transacti.Lambdas.{handle_reconciliation_request, reschedule_each}
use delayed_wallet_transacti.Lambdas.Reconciliation.{
  ReconcileOutcome, handle_reconciliation_request-Outcome,
}
use delayed_wallet_transacti.Transfers.{transfers, get_transaction, post_notify_settlement, connect}
use delayed_wallet_transacti.Transfers.Reading.{transfers-Reading}
use delayed_wallet_transacti.Tests.{machine, codec, wallet_of, bank, rent, process, reserved_rent}

schedule_transaction-Outcome_example :
    let (r, m) =
      run memory (schedule_transaction process (to_api_transaction rent) (seconds (pos 60))) bank in
    QueueOutcome process (to_api_transaction rent) (seconds (pos 60)) bank.contents r m.contents
schedule_transaction-Outcome_example =
    schedule_transaction-Outcome process memory (to_api_transaction rent) (seconds (pos 60)) bank

create_wallet-Outcome_example :
    let (r, m) = run memory (create_wallet codec (wallet_of "carol" (pos 1000))) bank in
    OpenOutcome (wallet_of "carol" (pos 1000)) bank.contents.db r m.contents
create_wallet-Outcome_example =
    create_wallet-Outcome memory codec (wallet_of "carol" (pos 1000)) bank

delete_wallet-Outcome_example :
    let (r, m) = run memory (delete_wallet codec "bob") bank in
    CloseOutcome "bob" bank.contents.db r m.contents
delete_wallet-Outcome_example = delete_wallet-Outcome memory codec "bob" bank

abbrev three_wallets : List Wallet
three_wallets =
    record (wallet_of "alice" (pos 100)) { created_at = 1 }
    ∷ record (wallet_of "bob" (pos 50)) { created_at = 3 }
    ∷ record (wallet_of "carol" (pos 10)) { created_at = 2 }
    ∷ []

-- The bank with a transaction that has been RESERVED since Go's zero time.
abbrev stuck_bank : Memory
stuck_bank = record bank {
  contents = record bank.contents {
    db = record bank.contents.db {
      transactions = ("t1", record rent { id = "t1"; status = Status.reserved }) ∷ [];
    };
  };
}

-- A whole second comes last in its second.
half_second_first : text_before 1500000000 1000000000 ≡ true
unfolding text_before
half_second_first = refl

resends_t1 :
    (run memory (handle_reconciliation_request process) stuck_bank).1.contents.sent
    ≡ (process.queue_url, "t1", pos 0) ∷ []
unfolding machine handle_reconciliation_request get_stuck_transactions reschedule_each item_page
    text_before
resends_t1 = refl

handle_reconciliation_request-Outcome_example :
    let (now, _) = memory.perform time_now stuck_bank in
    let (r, m) = run memory (handle_reconciliation_request process) stuck_bank in
    ReconcileOutcome process now stuck_bank.contents r m.contents
handle_reconciliation_request-Outcome_example =
    handle_reconciliation_request-Outcome process memory stuck_bank

never_t9 : (d : Db) → Seen d stuck_bank.contents → lookup "t9" d.transactions ≡ none
unfolding lookup
never_t9 d (inl e) = rw e refl
never_t9 d (inr never) = elim never [ ]

cancel_transaction_by_id-Outcome_example :
    let (r, m) = run memory (cancel_transaction_by_id process "t1") reserved_rent in
    DeleteOutcome "t1" reserved_rent.contents r m.contents
cancel_transaction_by_id-Outcome_example =
    cancel_transaction_by_id-Outcome memory process "t1" reserved_rent

cancel_transaction_by_id-missing_example :
    let (r, m) = run memory (cancel_transaction_by_id process "t9") stuck_bank in
    (resp : Response) × (r ≡ ok resp)
    × (resp.status ≡ 500)
    × (m.contents.db ≡ stuck_bank.contents.db)
cancel_transaction_by_id-missing_example =
    cancel_transaction_by_id-missing memory process "t9" stuck_bank never_t9

get_transaction_by_id-Outcome_example :
    let (r, m) = run memory (get_transaction_by_id process "t1") reserved_rent in
    GetOutcome process "t1" reserved_rent.contents r m.contents
get_transaction_by_id-Outcome_example =
    get_transaction_by_id-Outcome memory process "t1" reserved_rent

-- The same bank, with two clients connected.
abbrev with_clients : Memory
with_clients = record bank {
  contents = record bank.contents {
    db = record bank.contents.db {
      connections =
          ("c1", record { connection_id = "c1"; pk = "connections"; ttl = pos 0 })
          ∷ ("c2", record { connection_id = "c2"; pk = "connections"; ttl = pos 0 })
          ∷ [];
    };
  };
}

abbrev deduction_of_30 : WalletUpdate
deduction_of_30 = record {
  user_id = "alice";
  transaction_id = "t1";
  change = negsuc 29;
  new_balance = pos 70;
}

pushes_to_both :
    (run memory (publish process deduction_of_30) with_clients).1.contents.pushed
    ≡ ("c2", "t1") ∷ ("c1", "t1") ∷ []
unfolding machine
pushes_to_both = refl

publish-Outcome_example :
    let (r, m) = run memory (publish process deduction_of_30) with_clients in
    Delivered memory process deduction_of_30 with_clients r m
    × PublishOutcome process deduction_of_30 with_clients.contents r m.contents
publish-Outcome_example = publish-Outcome memory process deduction_of_30 with_clients

transfers-Reading_example : SameFunds reserved_rent.contents.db (
    transfers memory process
      (0 ∷ 1 ∷ 0 ∷ 1 ∷ 2 ∷ 1 ∷ [])
      (get_transaction "t1" ∷ post_notify_settlement "t1" ∷ connect "c1" ∷ [])
      reserved_rent)
transfers-Reading_example =
    transfers-Reading process memory (0 ∷ 1 ∷ 0 ∷ 1 ∷ 2 ∷ 1 ∷ [])
      (get_transaction "t1" ∷ post_notify_settlement "t1" ∷ connect "c1" ∷ []) reserved_rent
      (tt, (tt, (tt, tt)))

-- The body is taken for the name of the user.
abbrev opening : Environment
opening = record process {
  json = record process.json {
    decode_new_wallet = λ body. ok (record { user_id = body; name = body });
  };
}

opens_carol :
    (run memory (create_wallet_request opening "carol") bank).1.contents.db.wallets
    ≡ bank.contents.db.wallets
      ++ ((
        "carol",
        record (wallet_of "carol" (pos 1000)) {
          created_at = bank.clock;
          ttl = ttl_from bank.clock;
        },
      )
          ∷ [])
unfolding machine create_wallet_request create_decoded create_wallet
opens_carol = refl

abbrev second_wallet : Error
second_wallet = message "wallet for user ID bob already exists"

second_wallet_fails :
    (run memory (create_wallet_request opening "bob") bank).0
    ≡ ok (http_error (failed opening "Failed to create wallet" second_wallet) 500)
unfolding machine create_wallet_request create_decoded create_wallet
second_wallet_fails = refl

create_wallet_request-Outcome_example :
    let (r, m) = run memory (create_wallet_request opening "carol") bank in
    CreateRequestOutcome memory opening (ok (record { user_id = "carol"; name = "carol" })) bank r m
create_wallet_request-Outcome_example = create_wallet_request-Outcome memory opening "carol" bank

delete_wallet_request-Outcome_example :
    let (r, m) = run memory (delete_wallet_request process "bob") bank in
    DeleteRequestOutcome "bob" bank.contents.db r m.contents
delete_wallet_request-Outcome_example = delete_wallet_request-Outcome memory process "bob" bank
