-- ===== src/Store/Codec.antt =====
-- The package `attributevalue`, which turns Go values into attribute values and back. Whether it
-- succeeds is a parameter; where it does, the value read back is the value written.
use delayed_wallet_transacti.Prelude.{String, Bool, List}
use delayed_wallet_transacti.Prelude.Int.{ℤ}
use delayed_wallet_transacti.Models.{Status, Instant, Transaction, Wallet, LedgerEntry}
use delayed_wallet_transacti.Dynamo.{WebSocketConnection}

-- The Go values that the store marshals or unmarshals.
pub data GoValue : Type 0 where
  key : (attribute value : String) → GoValue
  number : ℤ → GoValue
  status : Status → GoValue
  time : Instant → GoValue
  transaction : Transaction → GoValue
  wallet : Wallet → GoValue
  entry : LedgerEntry → GoValue
  transactions : List Transaction → GoValue
  wallets : List Wallet → GoValue
  entries : List LedgerEntry → GoValue
  connections : List WebSocketConnection → GoValue

pub record AttributeValue : Type 0 where
  pub marshals : GoValue → Bool
  pub unmarshals : GoValue → Bool
