-- ===== src/Store/Queries.antt =====
-- pkg/storage/dynamodb/list_transactions.go. A query returns one page of items.
pub mod Reads
use delayed_wallet_transacti.Prelude.{ℕ, ◌-◌, String, List}
use delayed_wallet_transacti.Prelude.Int.{ℤ}
use delayed_wallet_transacti.Models.{Status, Transaction, LedgerEntry}
use delayed_wallet_transacti.Errors.{message, wrap, aws}
use delayed_wallet_transacti.Service.{
  time_now, query_status_before, query_ledger_latest, query_from_user,
}
use delayed_wallet_transacti.Program.{Program, pure, perform, checked, require, ◌>>=◌, ◌>>◌}
use delayed_wallet_transacti.Store.Codec.{AttributeValue}
use delayed_wallet_transacti.Store.Codec

module _ (av : AttributeValue) where
  -- The cutoff is taken to lie after Go's zero time.
  unfoldable pub get_stuck_transactions : (max_age : ℕ) → Program (List Transaction)
  get_stuck_transactions max_age = do
    now ← perform time_now
    let cutoff = now - max_age
    require (av.marshals (Codec.time cutoff)) (message "failed to marshal cutoff time")
    reply ← perform (query_status_before Status.reserved cutoff)
    items ← checked (λ e. wrap "failed to query for stuck transactions" (aws e)) reply
    require (av.unmarshals (Codec.transactions items))
        (message "failed to unmarshal stuck transactions")
    pure items

  unfoldable pub list_ledger_entries : (limit : ℤ) → Program (List LedgerEntry)
  list_ledger_entries limit = do
    reply ← perform (query_ledger_latest "LEDGER_ENTRIES" limit)
    items ← checked (λ e. wrap "failed to query for ledger entries" (aws e)) reply
    require (av.unmarshals (Codec.entries items)) (message "failed to unmarshal ledger entries")
    pure items

  unfoldable pub list_transactions_by_user_id : String → Program (List Transaction)
  list_transactions_by_user_id user_id = do
    reply ← perform (query_from_user user_id)
    items ← checked (λ e. wrap "failed to query for transactions by user ID" (aws e)) reply
    require (av.unmarshals (Codec.transactions items)) (message "failed to unmarshal transactions")
    pure items
