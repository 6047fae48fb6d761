-- ===== src/Api.antt =====
-- pkg/api/server.gen.go: the records of the HTTP API, and what the program leaves to the package
-- `encoding/json` and to its environment. A pointer field that the program always sets is the
-- value itself.
pub mod Mapping
use delayed_wallet_transacti.Prelude.{ℕ, String, Bool, Option, List}
use delayed_wallet_transacti.Prelude.Int.{ℤ}
use delayed_wallet_transacti.Models.{Status, Instant, Transaction}
use delayed_wallet_transacti.Errors.{Fault}
use delayed_wallet_transacti.Program.{Result}
use delayed_wallet_transacti.Store.Codec.{AttributeValue}

pub record ApiTransaction : Type 0 where
  pub id : String
  pub from_user_id : String
  pub to_user_id : String
  pub amount : ℤ
  pub status : Status
  pub delay_seconds : Option ℤ
  pub created_at : Instant
  pub updated_at : Instant

pub record NewTransaction : Type 0 where
  pub amount : ℤ
  pub delay_seconds : Option ℤ
  pub from_user_id : String
  pub to_user_id : String

pub record NewWallet : Type 0 where
  pub name : String
  pub user_id : String

pub record ApiWallet : Type 0 where
  pub user_id : String
  pub name : String
  pub balance : ℤ
  pub reserved : ℤ
  pub version : ℤ
  pub created_at : Instant

pub record ApiLedgerEntry : Type 0 where
  pub transaction_id : String
  pub entry_id : String
  pub account_id : String
  pub debit : ℤ
  pub credit : ℤ
  pub description : String
  pub timestamp : Instant

-- pkg/websockets/models.go: a `walletUpdate` message, the only type of message there is.
pub record WalletUpdate : Type 0 where
  pub user_id : String
  pub transaction_id : String
  pub change : ℤ
  pub new_balance : ℤ

-- The body of a response: nothing, the text of `http.Error`, or a value encoded as JSON.
pub data Body : Type 0 where
  empty : Body
  text : String → Body
  transaction : ApiTransaction → Body
  transactions : List ApiTransaction → Body
  wallet : ApiWallet → Body
  wallets : List ApiWallet → Body
  entries : List ApiLedgerEntry → Body

pub record Response : Type 0 where
  pub status : ℕ
  pub body : Body

-- `encoding/json`: whether a response's body can be encoded, the text of a value, and the value
-- of a text.
pub record Json : Type 0 where
  pub encodes : Body → Result (Unit {0})
  pub marshal_transaction : ApiTransaction → Option String
  pub marshal_update : WalletUpdate → Option String
  pub decode_new_transaction : String → Result NewTransaction
  pub decode_new_wallet : String → Result NewWallet
  pub unmarshal_transaction : String → Option Transaction

-- The packages that a process uses, the text of a client's error, and its settings.
pub record Environment : Type 0 where
  pub attribute_value : AttributeValue
  pub json : Json
  pub fault_text : Fault → String
  pub queue_url : String
  pub api_base_url : String
