-- ===== src/Storage.antt =====
-- pkg/storage: the interfaces of the data layer. An interface that embeds others has a field for
-- each.
use delayed_wallet_transacti.Prelude.{ℕ, String, Bool, List}
use delayed_wallet_transacti.Prelude.Int.{ℤ}
use delayed_wallet_transacti.Models.{Transaction, Wallet, LedgerEntry}
use delayed_wallet_transacti.Program.{Program}
use delayed_wallet_transacti.Store.Codec.{AttributeValue}
use delayed_wallet_transacti.Store.Wallets
use delayed_wallet_transacti.Store.CreateTransaction
use delayed_wallet_transacti.Store.CancelTransaction
use delayed_wallet_transacti.Store.SettleTransaction
use delayed_wallet_transacti.Store.Queries

-- transactions.go
pub record TransactionReader : Type 0 where
  pub get_transaction : (tx_id : String) → Program Transaction
  pub get_stuck_transactions : (max_age : ℕ) → Program (List Transaction)
  pub list_transactions_by_user_id : (user_id : String) → Program (List Transaction)

pub record TransactionManager : Type 0 where
  pub create_transaction : (new_tx : Transaction) → Program Transaction
  pub cancel_transaction : (tx_id : String) → Program (Unit {0})

pub record TransactionStore : Type 0 where
  pub reader : TransactionReader
  pub manager : TransactionManager

-- wallets.go
pub record WalletStore : Type 0 where
  pub get_wallet : (user_id : String) → Program Wallet
  pub create_wallet : Wallet → Program Wallet
  pub delete_wallet : (user_id : String) → Program (Unit {0})
  pub list_wallets : Program (List Wallet)

-- ledger.go
pub record LedgerReader : Type 0 where
  pub list_ledger_entries : (limit : ℤ) → Program (List LedgerEntry)

-- settlement.go
pub record SettlementStore : Type 0 where
  pub settle_transaction : Transaction → Program Bool

-- api.go
pub record ApiStore : Type 0 where
  pub transactions : TransactionStore
  pub wallets : WalletStore
  pub ledger : LedgerReader

-- storage.go
pub record Storage : Type 0 where
  pub api : ApiStore
  pub settlement : SettlementStore

-- `Store` of pkg/storage/dynamodb, as it satisfies them.
abbrev pub dynamodb_store : AttributeValue → Storage
dynamodb_store av = record {
  api = record {
    transactions = record {
      reader = record {
        get_transaction = CancelTransaction.get_transaction av;
        get_stuck_transactions = Queries.get_stuck_transactions av;
        list_transactions_by_user_id = Queries.list_transactions_by_user_id av;
      };
      manager = record {
        create_transaction = CreateTransaction.create_transaction av;
        cancel_transaction = CancelTransaction.cancel_transaction av;
      };
    };
    wallets = record {
      get_wallet = Wallets.get_wallet av;
      create_wallet = Wallets.create_wallet av;
      delete_wallet = Wallets.delete_wallet av;
      list_wallets = Wallets.list_wallets av;
    };
    ledger = record { list_ledger_entries = Queries.list_ledger_entries av };
  };
  settlement = record { settle_transaction = SettleTransaction.settle_transaction av };
}
