-- ===== src/Store/SettleTransaction.antt =====
-- pkg/storage/dynamodb/settle_transaction.go.
pub mod Effects
pub mod Outcome
pub mod Late
use Prim.Native.String
use delayed_wallet_transacti.Prelude.{String, Bool, true, false, List, [], ◌∷◌, if◌then◌else◌}
use delayed_wallet_transacti.Prelude.Int.{ℤ, pos}
use delayed_wallet_transacti.Models.{Status, Instant, Transaction, LedgerEntry, ttl_from}
use delayed_wallet_transacti.Errors.{
  Fault, Error, sentinel, message, wrap, aws, transaction_already_processing, errors_is,
  is_condition_failure,
}
use delayed_wallet_transacti.Dynamo.{
  Write, update_wallet, update_transaction, put_entry, WalletAttr, set, value, plus, minus, both,
  at_least, equals, set_status, set_updated_at, status_is,
}
use delayed_wallet_transacti.Service.{time_now, new_uuid, write_item, transact_write_items}
use delayed_wallet_transacti.Program.{
  Result, ok, err, Program, pure, throw, perform, checked, require, attempt, wrapping, ◌>>=◌, ◌>>◌,
}
use delayed_wallet_transacti.Store.Codec.{AttributeValue}
use delayed_wallet_transacti.Store.Codec
use delayed_wallet_transacti.Store.Wallets.{get_wallet}

abbrev pub lock_error : Fault → Error
lock_error e =
    if is_condition_failure e
    then sentinel transaction_already_processing
    else wrap "failed to update transaction status to WORKING" (aws e)

-- RESERVED to WORKING, in one conditional update.
abbrev pub lock : String → Write
lock tx_id = update_transaction tx_id (set_status Status.working ∷ []) (status_is Status.reserved)

unfoldable pub acquire_transaction_lock : String → Program (Unit {0})
acquire_transaction_lock tx_id = do
  reply ← perform (write_item (lock tx_id))
  checked lock_error reply

abbrev pub debit_entry : Transaction → String → Instant → LedgerEntry
debit_entry tx entry_id now = record {
  entry_id = entry_id;
  transaction_id = tx.id;
  account_id = tx.from_user_id;
  debit = tx.amount;
  credit = pos 0;
  description = String.◌++◌ "Settlement for transaction " tx.id;
  timestamp = now;
  gsi1pk = "LEDGER_ENTRIES";
}

abbrev pub credit_entry : Transaction → String → Instant → LedgerEntry
credit_entry tx entry_id now = record {
  entry_id = entry_id;
  transaction_id = tx.id;
  account_id = tx.to_user_id;
  debit = pos 0;
  credit = tx.amount;
  description = String.◌++◌ "Settlement for transaction " tx.id;
  timestamp = now;
  gsi1pk = "LEDGER_ENTRIES";
}

-- Operation 1: take the reserved amount from the sender's wallet.
abbrev pub release_reserved : Transaction → (version ttl : ℤ) → Write
release_reserved tx version ttl =
    update_wallet tx.from_user_id
      (set WalletAttr.reserved (minus WalletAttr.reserved tx.amount)
        ∷ set WalletAttr.version (plus WalletAttr.version (pos 1))
        ∷ set WalletAttr.ttl (value ttl)
        ∷ [])
      (both (at_least WalletAttr.reserved tx.amount) (equals WalletAttr.version version))

-- Operation 2: pay it to the receiver's wallet.
abbrev pub pay : Transaction → (version ttl : ℤ) → Write
pay tx version ttl =
    update_wallet tx.to_user_id
      (set WalletAttr.balance (plus WalletAttr.balance tx.amount)
        ∷ set WalletAttr.version (plus WalletAttr.version (pos 1))
        ∷ set WalletAttr.ttl (value ttl)
        ∷ [])
      (equals WalletAttr.version version)

-- Operation 5: WORKING to COMPLETED.
abbrev pub complete : Transaction → Instant → Write
complete tx now =
    update_transaction tx.id (set_status Status.completed ∷ set_updated_at now ∷ [])
      (status_is Status.working)

-- What `executeSettlement` gathers before it builds the transaction.
pub record Settlement : Type 0 where
  pub sender_version : ℤ
  pub receiver_version : ℤ
  pub now : Instant
  pub debit_id : String
  pub credit_id : String
  pub sender_ttl : ℤ
  pub receiver_ttl : ℤ

-- The five operations of the transaction.
abbrev pub settlement : Transaction → Settlement → List Write
settlement tx p =
    release_reserved tx p.sender_version p.sender_ttl
    ∷ pay tx p.receiver_version p.receiver_ttl
    ∷ put_entry (debit_entry tx p.debit_id p.now)
    ∷ put_entry (credit_entry tx p.credit_id p.now)
    ∷ complete tx p.now
    ∷ []

module _ (av : AttributeValue) where
  unfoldable pub execute_settlement : Transaction → Program (Unit {0})
  execute_settlement tx = do
    sender ←
        wrapping (wrap "failed to get sender's wallet for settlement")
          (get_wallet av tx.from_user_id)
    receiver ←
        wrapping (wrap "failed to get receiver's wallet for settlement")
          (get_wallet av tx.to_user_id)
    now ← perform time_now
    require (av.marshals (Codec.number tx.amount))
        (message "failed to marshal amount for settlement")
    debit_id ← perform new_uuid
    credit_id ← perform new_uuid
    require (av.marshals (Codec.entry (debit_entry tx debit_id now)))
        (message "failed to marshal debit entry")
    require (av.marshals (Codec.entry (credit_entry tx credit_id now)))
        (message "failed to marshal credit entry")
    require (av.marshals (Codec.status Status.completed))
        (message "failed to marshal completed status")
    require (av.marshals (Codec.status Status.working)) (message "failed to marshal working status")
    require (av.marshals (Codec.time now)) (message "failed to marshal timestamp for status update")
    sender_time ← perform time_now
    receiver_time ← perform time_now
    reply ← perform (
        transact_write_items (
          settlement tx (record {
            sender_version = sender.version;
            receiver_version = receiver.version;
            now = now;
            debit_id = debit_id;
            credit_id = credit_id;
            sender_ttl = ttl_from sender_time;
            receiver_ttl = ttl_from receiver_time;
          })))
    checked (λ e. wrap "failed to execute settlement transaction" (aws e)) reply

  unfoldable pub after_lock : Transaction → Result (Unit {0}) → Program Bool
  after_lock tx (ok _) = do execute_settlement tx; pure true
  after_lock tx (err e) =
      if errors_is e transaction_already_processing
      then pure false
      else throw (wrap "failed to acquire transaction lock" e)

  unfoldable pub settle_transaction : Transaction → Program Bool
  settle_transaction tx = do locked ← attempt (acquire_transaction_lock tx.id); after_lock tx locked
