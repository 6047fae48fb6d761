-- ===== src/Lambdas.antt =====
-- cmd/settlement_lambda/main.go and cmd/reconciliation_lambda/main.go.
pub mod Redelivery
pub mod Reconciliation
use Prim.Native.String
use delayed_wallet_transacti.Prelude.{
  ℕ, ◌*◌, String, Bool, true, false, ◌||◌, not, Option, none, some, List, [], ◌∷◌, leb, ◌==◌,
  if◌then◌else◌,
}
use delayed_wallet_transacti.Prelude.Int.{pos}
use delayed_wallet_transacti.Models.{Transaction}
use delayed_wallet_transacti.Errors.{message, wrap, aws}
use delayed_wallet_transacti.Service.{http_post, receive_messages}
use delayed_wallet_transacti.Program.{
  Result, ok, err, Program, pure, perform, checked, require, attempt, ◌>>=◌, ◌>>◌,
}
use delayed_wallet_transacti.Api.{Environment}
use delayed_wallet_transacti.Api.Mapping.{to_api_transaction}
use delayed_wallet_transacti.Scheduler.{schedule_transaction}
use delayed_wallet_transacti.Store.SettleTransaction.{settle_transaction}
use delayed_wallet_transacti.Store.Queries.{get_stuck_transactions}

-- `const stuckTransactionThreshold = 6 * time.Hour`
abbrev pub stuck_transaction_threshold : ℕ
stuck_transaction_threshold = 6 * 60 * 60 * 1000000000

-- What the loop over the messages does next: `continue`, or `return nil`.
pub data Next : Type 0 where
  continue return : Next

module _ (env : Environment) where
  abbrev pub notify_url : Transaction → String
  notify_url tx =
      String.◌++◌ env.api_base_url
        (String.◌++◌ "/transactions/" (String.◌++◌ tx.id "/notify-settlement"))

  unfoldable pub post_notification : Transaction → Program (Unit {0})
  post_notification tx = do
    reply ← perform (http_post (notify_url tx))
    status ← checked (λ e. wrap "failed to send notification to API" (aws e)) reply
    require (not (leb 300 status)) (message "API notification failed with status code")

  unfoldable pub notify_api : Transaction → Program (Unit {0})
  notify_api tx = if env.api_base_url == "" then pure tt else post_notification tx

  -- Errors are logged, and the message is done with.
  unfoldable pub after_settle : Transaction → Result Bool → Program Next
  after_settle tx (err e) = pure continue
  after_settle tx (ok false) = pure return
  after_settle tx (ok true) = attempt (notify_api tx) >>= λ _. pure continue

  unfoldable pub handle_message : Option Transaction → Program Next
  handle_message none = pure continue
  handle_message (some tx) =
      let settle = attempt (settle_transaction env.attribute_value tx) >>= λ r. after_settle tx r in
      if (tx.from_user_id == "") || (tx.to_user_id == "") then pure continue else settle

  abbrev pub next_or_return : Program (Unit {0}) → Next → Program (Unit {0})
  next_or_return rest continue = rest
  next_or_return rest return = pure tt

  -- The bodies of the SQS event's records.
  unfoldable pub handle_settlement_request : List String → Program (Unit {0})
  handle_settlement_request [] = pure tt
  handle_settlement_request (body ∷ rest) = do
    next ← handle_message (env.json.unmarshal_transaction body)
    next_or_return (handle_settlement_request rest) next

  -- A run that the queue starts (the SQS event of template.yaml).
  unfoldable pub settle_delivered : Program (Unit {0})
  settle_delivered = do bodies ← perform receive_messages; handle_settlement_request bodies

  -- A failure to send one message does not stop the others.
  unfoldable pub reschedule_each : List Transaction → Program (Unit {0})
  reschedule_each [] = pure tt
  reschedule_each (tx ∷ rest) = do
    attempt (schedule_transaction env (to_api_transaction tx) (pos 0)) >>= λ _. pure tt
    reschedule_each rest

  unfoldable pub handle_reconciliation_request : Program (Unit {0})
  handle_reconciliation_request = do
    stuck ← get_stuck_transactions env.attribute_value stuck_transaction_threshold
    reschedule_each stuck
