-- ===== src/Store/CancelTransaction.antt =====
-- pkg/storage/dynamodb/get_transaction.go and cancel_transaction.go.
pub mod Reads
pub mod Outcome
use Prim.Native.String
use delayed_wallet_transacti.Prelude.{String, List, [], ◌∷◌}
use delayed_wallet_transacti.Prelude.Int.{ℤ, pos}
use delayed_wallet_transacti.Models.{Status, same_status, Instant, Transaction}
use delayed_wallet_transacti.Errors.{sentinel, message, wrap, aws, transaction_not_cancellable}
use delayed_wallet_transacti.Dynamo.{
  Write, update_wallet, update_transaction, WalletAttr, set, plus, minus, equals, set_status,
  set_updated_at, status_is,
}
use delayed_wallet_transacti.Service.{time_now, get_transaction_item, transact_write_items}
use delayed_wallet_transacti.Program.{
  Program, pure, perform, checked, require, item_or, wrapping, ◌>>=◌, ◌>>◌,
}
use delayed_wallet_transacti.Store.Codec.{AttributeValue}
use delayed_wallet_transacti.Store.Codec
use delayed_wallet_transacti.Store.Wallets.{get_wallet}

-- Operation 1: give the amount back to the sender's balance.
abbrev pub return_funds : Transaction → (version : ℤ) → Write
return_funds tx version =
    update_wallet tx.from_user_id
      (set WalletAttr.balance (plus WalletAttr.balance tx.amount)
        ∷ set WalletAttr.reserved (minus WalletAttr.reserved tx.amount)
        ∷ set WalletAttr.version (plus WalletAttr.version (pos 1))
        ∷ [])
      (equals WalletAttr.version version)

-- Operation 2: RESERVED to CANCELLED.
abbrev pub cancel : Transaction → Instant → Write
cancel tx now =
    update_transaction tx.id (set_status Status.cancelled ∷ set_updated_at now ∷ [])
      (status_is Status.reserved)

-- Both operations of the transaction.
abbrev pub cancellation : Transaction → (version : ℤ) → Instant → List Write
cancellation tx version now = return_funds tx version ∷ cancel tx now ∷ []

module _ (av : AttributeValue) where
  unfoldable pub get_transaction : String → Program Transaction
  get_transaction tx_id = do
    require (av.marshals (Codec.key "id" tx_id)) (message "failed to marshal transaction ID")
    reply ← perform (get_transaction_item tx_id)
    item ← checked (λ e. wrap "failed to get transaction from DynamoDB" (aws e)) reply
    tx ←
        item_or item (message (String.◌++◌ "transaction with ID " (String.◌++◌ tx_id " not found")))
    require (av.unmarshals (Codec.transaction tx)) (message "failed to unmarshal transaction")
    pure tx

  unfoldable pub cancel_transaction : String → Program (Unit {0})
  cancel_transaction tx_id = do
    tx ← wrapping (wrap "failed to get transaction for cancellation") (get_transaction tx_id)
    require (same_status tx.status Status.reserved) (sentinel transaction_not_cancellable)
    sender ←
        wrapping (wrap "failed to get sender's wallet for cancellation")
          (get_wallet av tx.from_user_id)
    now ← perform time_now
    require (av.marshals (Codec.number tx.amount))
        (message "failed to marshal amount for cancellation")
    require (av.marshals (Codec.status Status.cancelled))
        (message "failed to marshal cancelled status")
    require (av.marshals (Codec.time now)) (message "failed to marshal timestamp for cancellation")
    reply ← perform (transact_write_items (cancellation tx sender.version now))
    checked (λ e. wrap "failed to execute cancellation transaction" (aws e)) reply
