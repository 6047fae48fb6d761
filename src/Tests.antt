-- ===== src/Tests.antt =====
-- Runs of the store's methods on a small bank, and the theorems at those inputs.
pub mod Requests
pub mod Processes
pub mod Reliable
pub mod Events
pub mod Http
pub mod Journey
pub mod Redelivery
pub mod Listing
use delayed_wallet_transacti.Prelude.{
  ℕ, String, ◌≡◌, refl, Bool, true, false, Option, none, some, ◌==◌, ◌&&◌, if◌then◌else◌, List, [],
  ◌∷◌,
}
use delayed_wallet_transacti.Prelude.Int.{ℤ, pos, eqb_ℤ, ◌+ℤ◌, ◌-ℤ◌}
use delayed_wallet_transacti.Prelude.Table.{lookup, insert, erase, sum_by}
use delayed_wallet_transacti.Models.{Status, Transaction, Wallet}
use delayed_wallet_transacti.Errors.{sentinel, message, insufficient_funds}
use delayed_wallet_transacti.Service.Memory.{
  Memory, memory, memory_call, write_reply, transact_reply,
}
use delayed_wallet_transacti.Program.{
  ok, err, run, ◌>>=◌, attempt, wrapping, perform, checked, require, item_or,
}
use delayed_wallet_transacti.Program.Schedule.{interleave}
use delayed_wallet_transacti.Store.Codec.{AttributeValue}
use delayed_wallet_transacti.Store.Wallets.{get_wallet}
use delayed_wallet_transacti.Store.CreateTransaction.{create_transaction}
use delayed_wallet_transacti.Store.CreateTransaction.Atomic.{
  CreateOutcome, create_transaction-Outcome,
}
use delayed_wallet_transacti.Store.SettleTransaction.{
  settle_transaction, acquire_transaction_lock, after_lock, execute_settlement,
}
use delayed_wallet_transacti.Store.SettleTransaction.Outcome.{
  SettleOutcome, settle_transaction-Outcome,
}
use delayed_wallet_transacti.Store.CancelTransaction.{get_transaction, cancel_transaction}
use delayed_wallet_transacti.Store.CancelTransaction.Outcome.{
  CancelOutcome, cancel_transaction-Outcome,
}
use delayed_wallet_transacti.Api.{ApiTransaction, Environment}
use delayed_wallet_transacti.Websockets.{after_post, post_each, publish}
use delayed_wallet_transacti.Scheduler.{schedule_transaction}
use delayed_wallet_transacti.Store.Connections.{remove_connection, get_all_connections}
use delayed_wallet_transacti.Handlers.Transactions.{
  cancel_transaction_by_id, schedule_transaction_request, schedule_decoded, after_create,
  notify_sender, notify,
}
use delayed_wallet_transacti.Lambdas.{
  post_notification, notify_api, after_settle, handle_message, handle_settlement_request,
}
use delayed_wallet_transacti.Transfers.{
  Task, settlement_lambda, delete_transaction, task_program, transfers,
}
use delayed_wallet_transacti.Transfers.Funds.{total_funds, transfers-total_funds}
use delayed_wallet_transacti.Transfers.Forward.{Advances, transfers-Advances}
use delayed_wallet_transacti.Transfers.Ledger.{PaidOnce, entries, transfers-PaidOnce}

abbrev pub codec : AttributeValue
codec = record { marshals = λ v. true; unmarshals = λ v. true }

abbrev pub wallet_of : String → ℤ → Wallet
wallet_of user_id balance = record {
  user_id = user_id;
  name = user_id;
  balance = balance;
  reserved = pos 0;
  version = pos 1;
  created_at = 0;
  ttl = pos 0;
}

abbrev pub request : String → String → ℤ → Transaction
request from to amount = record {
  id = "";
  from_user_id = from;
  to_user_id = to;
  amount = amount;
  delay_seconds = none;
  status = Status.other "";
  created_at = 0;
  updated_at = 0;
  ttl = pos 0;
}

-- Alice has 100, Bob has 50; the next UUIDs are t1, e1, e2, ….
abbrev pub bank : Memory
bank = record {
  contents = record {
    db = record {
      wallets = ("alice", wallet_of "alice" (pos 100)) ∷ ("bob", wallet_of "bob" (pos 50)) ∷ [];
      transactions = [];
      ledger = [];
      connections = [];
    };
    past = [];
    sent = [];
    pushed = [];
    posted = [];
  };
  clock = 62135596800000000000;
  uuids = "t1" ∷ "e1" ∷ "e2" ∷ "e3" ∷ "e4" ∷ [];
}

abbrev pub rent : Transaction
rent = request "alice" "bob" (pos 30)

-- The message that the settlement lambda receives for the transaction t1.
abbrev pub rent_message : Transaction
rent_message = record rent { id = "t1" }

-- The methods and all that they run on.
unfoldable pub machine : Bool
unfolding memory_call write_reply transact_reply run ◌>>=◌ attempt wrapping perform checked require
    item_or get_wallet get_transaction create_transaction settle_transaction
    acquire_transaction_lock after_lock execute_settlement cancel_transaction lookup insert erase
    sum_by ◌+ℤ◌ ◌-ℤ◌ cancel_transaction_by_id schedule_transaction_request schedule_decoded
    after_create notify_sender notify after_post post_each publish schedule_transaction
    remove_connection get_all_connections post_notification notify_api after_settle handle_message
    handle_settlement_request task_program interleave transfers
machine = true

pub reserved_rent : Memory
unfolding machine
reserved_rent = (run memory (create_transaction codec rent) bank).1

reserve_then_settle : (run memory (settle_transaction codec rent_message) reserved_rent).0 ≡ ok true
unfolding machine reserved_rent
reserve_then_settle = refl

settle_twice :
    (run memory
      (settle_transaction codec rent_message)
      (run memory (settle_transaction codec rent_message) reserved_rent).1).0
    ≡ ok false
unfolding machine reserved_rent
settle_twice = refl

overdraft :
    (run memory (create_transaction codec (request "bob" "alice" (pos 51))) bank).0
    ≡ err (sentinel insufficient_funds)
unfolding machine
overdraft = refl

create_transaction-Outcome_example :
    let (r, m) = run memory (create_transaction codec rent) bank in
    CreateOutcome rent bank.contents.db r m.contents
create_transaction-Outcome_example = create_transaction-Outcome memory codec rent bank

settle_transaction-Outcome_example :
    let (r, m) = run memory (settle_transaction codec rent_message) reserved_rent in
    SettleOutcome rent_message reserved_rent.contents.db r m.contents
settle_transaction-Outcome_example =
    settle_transaction-Outcome memory codec rent_message reserved_rent

cancel_transaction-Outcome_example :
    let (r, m) = run memory (cancel_transaction codec "t1") reserved_rent in
    CancelOutcome "t1" reserved_rent.contents r m.contents
cancel_transaction-Outcome_example = cancel_transaction-Outcome memory codec "t1" reserved_rent

-- A message whose body is rent's id carries the transaction; other bodies are refused.
abbrev pub rent_message_of : String → Option Transaction
rent_message_of body = if body == "t1" then some rent_message else none

-- The JSON of the transfer rent, under the id t1; no other is encoded here.
abbrev pub is_rent : ApiTransaction → Bool
is_rent tx =
    tx.id == "t1"
    && (tx.from_user_id == "alice" && (tx.to_user_id == "bob" && eqb_ℤ tx.amount (pos 30)))

abbrev pub rent_body_of : ApiTransaction → Option String
rent_body_of tx = if is_rent tx then some "t1" else none

abbrev pub process : Environment
process = record {
  attribute_value = codec;
  json = record {
    encodes = λ b. ok tt;
    marshal_transaction = rent_body_of;
    marshal_update = λ u. some u.transaction_id;
    decode_new_transaction = λ b. ok (record {
      amount = pos 30;
      delay_seconds = none;
      from_user_id = "alice";
      to_user_id = "bob";
    });
    decode_new_wallet = λ b. err (message b);
    unmarshal_transaction = rent_message_of;
  };
  fault_text = λ f. "fault";
  queue_url = "queue";
  api_base_url = "";
}

-- Two deliveries of the same message race with a cancellation.
abbrev race : List Task
race = settlement_lambda ("t1" ∷ []) ∷ delete_transaction "t1" ∷ settlement_lambda ("t1" ∷ []) ∷ []

abbrev turns : List ℕ
turns = 0 ∷ 1 ∷ 2 ∷ 0 ∷ 1 ∷ 0 ∷ 1 ∷ 0 ∷ 0 ∷ 0 ∷ 1 ∷ 0 ∷ 0 ∷ 2 ∷ 0 ∷ 0 ∷ []

race_pays_once : entries "t1" (transfers memory process turns race reserved_rent) ≡ pos 2
unfolding machine reserved_rent
race_pays_once = refl

transfers-PaidOnce_example :
    PaidOnce "t1" reserved_rent.contents.db (transfers memory process turns race reserved_rent)
transfers-PaidOnce_example = transfers-PaidOnce memory process turns race reserved_rent "t1"

transfers-total_funds_example :
    total_funds (transfers memory process turns race reserved_rent) ≡ pos 150
unfolding machine reserved_rent
transfers-total_funds_example = transfers-total_funds memory process turns race reserved_rent

transfers-Advances_example :
    Advances reserved_rent.contents.db (transfers memory process turns race reserved_rent)
transfers-Advances_example = transfers-Advances memory process turns race reserved_rent
