-- ===== src/Handlers/Transactions.antt =====
-- pkg/handlers/transactions/transactions.go.
pub mod Scheduling
pub mod Answers
pub mod Notifying
use delayed_wallet_transacti.Prelude.{String, Option, none, some, List, map, if◌then◌else◌}
use delayed_wallet_transacti.Prelude.Int.{ℤ, pos, negsuc, ◌-ℤ◌, eqb_ℤ}
use delayed_wallet_transacti.Models.{Transaction, Wallet}
use delayed_wallet_transacti.Errors.{
  errors_is, error_text, insufficient_funds, transaction_not_cancellable,
}
use delayed_wallet_transacti.Program.{Result, ok, err, Program, pure, attempt, ◌>>=◌, ◌>>◌}
use delayed_wallet_transacti.Api.{
  NewTransaction, WalletUpdate, Response, transaction, transactions, Environment,
}
use delayed_wallet_transacti.Api.Mapping.{to_api_transaction, to_domain_new_transaction}
use delayed_wallet_transacti.Scheduler.{seconds, schedule_transaction}
use delayed_wallet_transacti.Websockets.{publish}
use delayed_wallet_transacti.Store.Wallets.{get_wallet}
use delayed_wallet_transacti.Store.CreateTransaction.{create_transaction}
use delayed_wallet_transacti.Store.CancelTransaction.{get_transaction, cancel_transaction}
use delayed_wallet_transacti.Store.Queries.{list_transactions_by_user_id}
use delayed_wallet_transacti.Handlers.{http_error, status_only, failed, respond_json}

-- `-x` of an int64: the least one is its own negation.
abbrev pub negate : ℤ → ℤ
negate x = if eqb_ℤ x (negsuc 9223372036854775807) then negsuc 9223372036854775807 else pos 0 -ℤ x

abbrev pub delay_of : Option ℤ → ℤ
delay_of none = pos 0
delay_of (some n) = seconds n

-- The message to the sender.
abbrev pub deduction : Transaction → Wallet → WalletUpdate
deduction tx wallet = record {
  user_id = tx.from_user_id;
  transaction_id = tx.id;
  change = negate tx.amount;
  new_balance = wallet.balance;
}

-- The message to the recipient.
abbrev pub payment : Transaction → Wallet → WalletUpdate
payment tx wallet = record {
  user_id = tx.to_user_id;
  transaction_id = tx.id;
  change = tx.amount;
  new_balance = wallet.balance;
}

module _ (env : Environment) where
  -- A failure to publish is only logged.
  unfoldable pub notify : WalletUpdate → Program (Unit {0})
  notify update = attempt (publish env update) >>= λ _. pure tt

  -- The update of the sender, which needs its wallet.
  unfoldable pub notify_sender : Transaction → Result Wallet → Program (Unit {0})
  notify_sender tx (err e) = pure tt
  notify_sender tx (ok wallet) = notify (deduction tx wallet)

  -- After CreateTransaction: the message to the queue, whose failure is only logged, the update
  -- of the sender, and the response.
  unfoldable pub after_create : NewTransaction → Result Transaction → Program Response
  after_create new_tx (err e) =
      if errors_is e insufficient_funds
      then pure (http_error "Insufficient funds" 422)
      else pure (http_error (failed env "Failed to schedule transaction" e) 500)
  after_create new_tx (ok created) = do
    attempt (schedule_transaction env (to_api_transaction created) (delay_of new_tx.delay_seconds))
        >>= λ _. pure tt
    wallet ← attempt (get_wallet env.attribute_value created.from_user_id)
    notify_sender created wallet
    pure (respond_json env 201 (transaction (to_api_transaction created)))

  unfoldable pub schedule_decoded : Result NewTransaction → Program Response
  schedule_decoded (err e) = pure (http_error (failed env "Invalid request body" e) 400)
  schedule_decoded (ok new_tx) = do
    created ← attempt (create_transaction env.attribute_value (to_domain_new_transaction new_tx))
    after_create new_tx created

  unfoldable pub schedule_transaction_request : (body : String) → Program Response
  schedule_transaction_request body = schedule_decoded (env.json.decode_new_transaction body)

  abbrev pub get_response : Result Transaction → Response
  get_response (ok tx) = respond_json env 200 (transaction (to_api_transaction tx))
  get_response (err e) = http_error (failed env "Failed to retrieve transaction" e) 404

  unfoldable pub get_transaction_by_id : String → Program Response
  get_transaction_by_id transaction_id = do
    found ← attempt (get_transaction env.attribute_value transaction_id)
    pure (get_response found)

  abbrev pub cancel_response : Result (Unit {0}) → Response
  cancel_response (ok _) = status_only 204
  cancel_response (err e) =
      if errors_is e transaction_not_cancellable
      then http_error (error_text env.fault_text e) 409
      else http_error (failed env "Failed to cancel transaction" e) 500

  unfoldable pub cancel_transaction_by_id : String → Program Response
  cancel_transaction_by_id transaction_id = do
    cancelled ← attempt (cancel_transaction env.attribute_value transaction_id)
    pure (cancel_response cancelled)

  unfoldable pub notify_recipient : Transaction → Result Wallet → Program Response
  notify_recipient tx (err e) = pure (http_error "Failed to get recipient wallet" 500)
  notify_recipient tx (ok wallet) = do notify (payment tx wallet); pure (status_only 204)

  unfoldable pub notify_found : Result Transaction → Program Response
  notify_found (err e) = pure (http_error "Transaction not found" 404)
  notify_found (ok tx) = do
    wallet ← attempt (get_wallet env.attribute_value tx.to_user_id)
    notify_recipient tx wallet

  unfoldable pub notify_settlement : String → Program Response
  notify_settlement transaction_id = do
    found ← attempt (get_transaction env.attribute_value transaction_id)
    notify_found found

  abbrev pub list_response : Result (List Transaction) → Response
  list_response (ok txs) = respond_json env 200 (transactions (map to_api_transaction txs))
  list_response (err e) = http_error (failed env "Failed to retrieve transactions" e) 500

  unfoldable pub list_transactions_request : String → Program Response
  list_transactions_request user_id = do
    found ← attempt (list_transactions_by_user_id env.attribute_value user_id)
    pure (list_response found)
