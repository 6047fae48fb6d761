-- ===== src/Api/Mapping.antt =====
-- pkg/mapping/mapping.go.
use delayed_wallet_transacti.Prelude.{if◌then◌else◌}
use delayed_wallet_transacti.Prelude.Int.{pos}
use delayed_wallet_transacti.Models.{Status, same_status, Transaction, Wallet, LedgerEntry}
use delayed_wallet_transacti.Api.{
  ApiTransaction, NewTransaction, NewWallet, ApiWallet, ApiLedgerEntry,
}

abbrev pub to_api_status : Status → Status
to_api_status status = if same_status status Status.working then Status.reserved else status

abbrev pub to_api_transaction : Transaction → ApiTransaction
to_api_transaction tx = record {
  id = tx.id;
  from_user_id = tx.from_user_id;
  to_user_id = tx.to_user_id;
  amount = tx.amount;
  status = to_api_status tx.status;
  delay_seconds = tx.delay_seconds;
  created_at = tx.created_at;
  updated_at = tx.updated_at;
}

-- The fields that the mapping leaves out have Go's zero values.
abbrev pub to_domain_new_transaction : NewTransaction → Transaction
to_domain_new_transaction new_tx = record {
  id = "";
  from_user_id = new_tx.from_user_id;
  to_user_id = new_tx.to_user_id;
  amount = new_tx.amount;
  delay_seconds = new_tx.delay_seconds;
  status = Status.other "";
  created_at = 0;
  updated_at = 0;
  ttl = pos 0;
}

abbrev pub to_api_wallet : Wallet → ApiWallet
to_api_wallet wallet = record {
  user_id = wallet.user_id;
  name = wallet.name;
  balance = wallet.balance;
  reserved = wallet.reserved;
  version = wallet.version;
  created_at = wallet.created_at;
}

abbrev pub to_domain_new_wallet : NewWallet → Wallet
to_domain_new_wallet new_wallet = record {
  user_id = new_wallet.user_id;
  name = new_wallet.name;
  balance = pos 1000;
  reserved = pos 0;
  version = pos 1;
  created_at = 0;
  ttl = pos 0;
}

abbrev pub to_api_ledger_entry : LedgerEntry → ApiLedgerEntry
to_api_ledger_entry entry = record {
  transaction_id = entry.transaction_id;
  entry_id = entry.entry_id;
  account_id = entry.account_id;
  debit = entry.debit;
  credit = entry.credit;
  description = entry.description;
  timestamp = entry.timestamp;
}

abbrev pub to_domain_transaction : ApiTransaction → Transaction
to_domain_transaction tx = record {
  id = tx.id;
  from_user_id = tx.from_user_id;
  to_user_id = tx.to_user_id;
  amount = tx.amount;
  delay_seconds = tx.delay_seconds;
  status = tx.status;
  created_at = tx.created_at;
  updated_at = tx.updated_at;
  ttl = pos 0;
}
