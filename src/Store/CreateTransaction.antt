-- ===== src/Store/CreateTransaction.antt =====
-- pkg/storage/dynamodb/create_transaction.go.
pub mod Atomic
use delayed_wallet_transacti.Prelude.{List, [], ◌∷◌}
use delayed_wallet_transacti.Prelude.Int.{ℤ, pos}
use delayed_wallet_transacti.Models.{Status, Transaction, ttl_from}
use delayed_wallet_transacti.Errors.{
  ReasonCode, no_reason, conditional_check_failed, other_reason, Fault, Error, sentinel, message,
  wrap, aws, insufficient_funds, conditional_check_failed_exception, transaction_canceled_exception,
  gone_exception, other_fault,
}
use delayed_wallet_transacti.Dynamo.{
  Write, update_wallet, put_transaction, WalletAttr, set, value, plus, minus, both, at_least,
  equals, id_not_exists,
}
use delayed_wallet_transacti.Service.{time_now, new_uuid, transact_write_items}
use delayed_wallet_transacti.Program.{
  Program, pure, perform, checked, require, wrapping, ◌>>=◌, ◌>>◌,
}
use delayed_wallet_transacti.Store.Codec.{AttributeValue}
use delayed_wallet_transacti.Store.Codec
use delayed_wallet_transacti.Store.Wallets.{get_wallet}

-- The error of the transaction: ErrInsufficientFunds where the first reason is a failed condition.
abbrev pub create_error : Fault → Error
create_error (transaction_canceled_exception (conditional_check_failed ∷ _)) =
    sentinel insufficient_funds
create_error e = wrap "failed to execute transaction" (aws e)

-- Operation 1: reserve the amount in the sender's wallet.
abbrev pub reserve_funds : Transaction → (version ttl : ℤ) → Write
reserve_funds tx version ttl =
    update_wallet tx.from_user_id
      (set WalletAttr.balance (minus WalletAttr.balance tx.amount)
        ∷ set WalletAttr.reserved (plus WalletAttr.reserved tx.amount)
        ∷ set WalletAttr.version (plus WalletAttr.version (pos 1))
        ∷ set WalletAttr.ttl (value ttl)
        ∷ [])
      (both (at_least WalletAttr.balance tx.amount) (equals WalletAttr.version version))

-- Both operations of the transaction.
abbrev pub creation : Transaction → (version ttl : ℤ) → List Write
creation tx version ttl = reserve_funds tx version ttl ∷ put_transaction tx id_not_exists ∷ []

module _ (av : AttributeValue) where
  unfoldable pub create_transaction : Transaction → Program Transaction
  create_transaction given = do
    sender ← wrapping (wrap "failed to get sender's wallet") (get_wallet av given.from_user_id)
    now ← perform time_now
    id ← perform new_uuid
    later ← perform time_now
    let tx = record given {
      id = id;
      status = Status.reserved;
      created_at = now;
      updated_at = now;
      ttl = ttl_from later;
    }
    require (av.marshals (Codec.transaction tx)) (message "failed to marshal transaction")
    require (av.marshals (Codec.number tx.amount)) (message "failed to marshal amount")
    latest ← perform time_now
    reply ← perform (transact_write_items (creation tx sender.version (ttl_from latest)))
    checked create_error reply
    pure tx
